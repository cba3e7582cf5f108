-- ===== src/Strings/Trim.antt =====
-- What `TrimSpace` and `Trim` cut off.
use lazyssh.Base.{
  ℕ, Bool, true, false, [], ◌∷◌, ◌++◌, Bytes, ◌≡◌, refl, ap, ◌∙◌, All, nat_eq, Bool-cases, inl, inr,
}
use lazyssh.Strings.{unless_empty, trim_left, trim_right, trim}

module _ (cut : ℕ → Bool) where
  -- Text of which nothing is cut.
  abbrev pub Uncut : Bytes → Type 0
  Uncut = All (λ c. cut c ≡ false)

  pub trim_left-Uncut : (s : Bytes) → Uncut s → trim_left cut s ≡ s
  unfolding trim_left
  trim_left-Uncut [] h = refl
  trim_left-Uncut (c ∷ s) (hc, h) = rw hc

  pub trim_right-Uncut : (s : Bytes) → Uncut s → trim_right cut s ≡ s
  unfolding trim_right
  trim_right-Uncut [] h = refl
  trim_right-Uncut (c ∷ []) (hc, h) = rw hc
  trim_right-Uncut (c ∷ d ∷ s) (hc, h) = rw (trim_right-Uncut (d ∷ s) h)

  unless_empty_lem : (d : ℕ) (s : Bytes) → cut d ≡ false → unless_empty cut d s ≡ d ∷ s
  unless_empty_lem d [] h = rw h
  unless_empty_lem d (c ∷ s) h = refl

  trim_right-append :
      (s : Bytes) (c : ℕ) → Uncut s → cut c ≡ true → trim_right cut (s ++ c ∷ []) ≡ s
  unfolding trim_right
  trim_right-append [] c h e = rw e
  trim_right-append (d ∷ s) c (hd, h) e = rw (trim_right-append s c h e) (unless_empty_lem d s hd)

  -- A final byte that is cut, such as a line's end, is all that goes.
  pub trim-append :
      (b : ℕ) (s : Bytes) (c : ℕ)
      → Uncut (b ∷ s)
      → cut c ≡ true
      → trim cut (b ∷ (s ++ c ∷ [])) ≡ b ∷ s
  unfolding trim trim_left
  trim-append b s c (hb, h) e = rw hb (trim_right-append (b ∷ s) c (hb, h) e)

  -- Text that does not begin with what is cut.
  abbrev Begins : Bytes → Type 0
  Begins [] = Unit
  Begins (c ∷ s) = cut c ≡ false

  trim_left-Begins : (s : Bytes) → Begins (trim_left cut s)
  unfolding trim_left
  trim_left-Begins [] = tt
  trim_left-Begins (c ∷ s) = elim (Bool-cases (cut c)) [
    | inl e ↦ rw e (trim_left-Begins s)
    | inr e ↦ rw e e
  ]

  trim_left_fix : (s : Bytes) → Begins s → trim_left cut s ≡ s
  unfolding trim_left
  trim_left_fix [] h = refl
  trim_left_fix (c ∷ s) h = rw h

  trim_right-Begins : (s : Bytes) → Begins s → Begins (trim_right cut s)
  unfolding trim_right
  trim_right-Begins [] h = tt
  trim_right-Begins (c ∷ s) h = rw (unless_empty_lem c (trim_right cut s) h) h

  unless_empty_idem :
      (c : ℕ) (s : Bytes)
      → trim_right cut s ≡ s
      → trim_right cut (unless_empty cut c s) ≡ unless_empty cut c s
  unfolding trim_right
  unless_empty_idem c [] h = elim (Bool-cases (cut c)) [ inl e ↦ rw e | inr e ↦ rw (e, e) ]
  unless_empty_idem c (d ∷ s) h = rw h

  trim_right_idem : (s : Bytes) → trim_right cut (trim_right cut s) ≡ trim_right cut s
  unfolding trim_right
  trim_right_idem [] = refl
  trim_right_idem (c ∷ s) = unless_empty_idem c (trim_right cut s) (trim_right_idem s)

  -- Trimming is idempotent.
  pub trim_idem : (s : Bytes) → trim cut (trim cut s) ≡ trim cut s
  unfolding trim
  trim_idem s =
      let begins = trim_right-Begins (trim_left cut s) (trim_left-Begins s) in
      ap (trim_right cut) (trim_left_fix _ begins) ∙ trim_right_idem (trim_left cut s)
