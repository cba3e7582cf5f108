-- ===== src/Strings/Split.antt =====
-- `Split` and `Join`.
use lazyssh.Base.{
  ℕ, List, [], ◌∷◌, ◌++◌, Bytes, ◌≡◌, ◌≢◌, refl, All, arith, ◌==◌, nat_eq, Bool-cases, inl, inr,
}
use lazyssh.Strings.{onto_head, split, join}

-- No part of the text is the separator.
abbrev pub Lacks : ℕ → Bytes → Type 0
Lacks sep = All (λ c. c ≢ sep)

onto_head-ne-nil : (c : ℕ) (l : List Bytes) → onto_head c l ≢ []
onto_head-ne-nil c [] = λ e. cc
onto_head-ne-nil c (p ∷ l) = λ e. cc

onto_head-Lacks :
    (sep c : ℕ) (l : List Bytes) → c ≢ sep → All (Lacks sep) l → All (Lacks sep) (onto_head c l)
onto_head-Lacks sep c [] h hl = ((h, tt), tt)
onto_head-Lacks sep c (p ∷ l) h (hp, hl) = ((h, hp), hl)

join_nil : (l : List Bytes) (sep : ℕ) → l ≢ [] → join ([] ∷ l) (sep ∷ []) ≡ sep ∷ join l (sep ∷ [])
unfolding join
join_nil [] sep h = absurd (h refl)
join_nil (p ∷ l) sep h = refl

join-onto_head :
    (c : ℕ) (l : List Bytes) (sep : ℕ)
    → l ≢ []
    → join (onto_head c l) (sep ∷ []) ≡ c ∷ join l (sep ∷ [])
unfolding join
join-onto_head c [] sep h = absurd (h refl)
join-onto_head c (p ∷ []) sep h = refl
join-onto_head c (p ∷ q ∷ l) sep h = refl

pub split-ne-nil : (s : Bytes) (sep : ℕ) → split s sep ≢ []
unfolding split
split-ne-nil [] sep = λ e. cc
split-ne-nil (c ∷ s) sep = ground (arith, onto_head-ne-nil c (split s sep))

-- Every part lacks the separator.
pub split-Lacks : (s : Bytes) (sep : ℕ) → All (Lacks sep) (split s sep)
unfolding split
split-Lacks [] sep = (tt, tt)
split-Lacks (c ∷ s) sep = elim (Bool-cases (c == sep)) [
  | inl e ↦ rw e (tt, split-Lacks s sep)
  | inr e ↦ rw e (onto_head-Lacks sep c (split s sep) (ground arith) (split-Lacks s sep))
]

-- Joining the parts gives the text back.
pub join-split : (s : Bytes) (sep : ℕ) → join (split s sep) (sep ∷ []) ≡ s
unfolding split
join-split [] sep = unfold join in refl
join-split (c ∷ s) sep = ground (
  arith,
  join_nil (split s sep) sep (split-ne-nil s sep),
  join-onto_head c (split s sep) sep (split-ne-nil s sep),
  join-split s sep,
)

-- A part that lacks the separator is cut off whole.
pub split-append :
    (p s : Bytes) (sep : ℕ) → Lacks sep p → split (p ++ sep ∷ s) sep ≡ p ∷ split s sep
unfolding split
split-append [] s sep h = ground arith
split-append (c ∷ p) s sep (hc, h) = ground (arith, split-append p s sep h)

pub split_whole : (p : Bytes) (sep : ℕ) → Lacks sep p → split p sep ≡ p ∷ []
unfolding split
split_whole [] sep h = refl
split_whole (c ∷ p) sep (hc, h) = ground (arith, split_whole p sep h)
