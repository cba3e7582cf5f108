-- ===== src/Paths/Last.antt =====
-- The last segment of a joined path under `Clean`.
use mathlib.Core.List.{foldl, foldl-append, reverse, reverse-cons}
use lazyssh.Base.{
  ℕ, ◌<◌, ◌≤◌, Bool, true, false, List, [], ◌∷◌, ◌++◌, Bytes, ◌≡◌, ◌≢◌, refl, sym, ap, ◌∙◌, length,
  length-append, arith, ◌==◌, nat_eq, bytes_eq, bytes_beq, bytes_beq_iff, append_assoc, Bool-cases,
  inl, inr, if◌then◌else◌,
}
use lazyssh.Strings.{onto_head, split, join, has_prefix}
use lazyssh.Strings.Split.{Lacks, split-ne-nil, split_whole}
use lazyssh.Paths.{slash, dot, dots, push, or_dot, spell, clean, join_path}

-- An extension such as `.sock`: too long to make a segment `.` or `..`.
pub record IsExtension (q : Bytes) : Type 0 where
  pub flat : Lacks b'/' q
  pub long : 2 < length q

abbrev init : List Bytes → List Bytes
init [] = []
init (p ∷ []) = []
init (p ∷ r ∷ l) = p ∷ init (r ∷ l)

abbrev final : List Bytes → Bytes
final [] = []
final (p ∷ []) = p
final (p ∷ r ∷ l) = final (r ∷ l)

onto_head-final :
    (c : ℕ) (l : List Bytes) (q : Bytes)
    → l ≢ []
    → onto_head c (init l ++ (final l ++ q) ∷ [])
      ≡ init (onto_head c l) ++ (final (onto_head c l) ++ q) ∷ []
onto_head-final c [] q h = absurd (h refl)
onto_head-final c (p ∷ []) q h = refl
onto_head-final c (p ∷ r ∷ l) q h = refl

final_nil :
    (l : List Bytes) (q : Bytes)
    → l ≢ []
    → [] ∷ (init l ++ (final l ++ q) ∷ []) ≡ init ([] ∷ l) ++ (final ([] ∷ l) ++ q) ∷ []
final_nil [] q h = absurd (h refl)
final_nil (p ∷ l) q h = refl

split_suffix :
    (p q : Bytes) (sep : ℕ)
    → Lacks sep q
    → split (p ++ q) sep ≡ init (split p sep) ++ (final (split p sep) ++ q) ∷ []
unfolding split
split_suffix [] q sep h = split_whole q sep h
split_suffix (c ∷ p) q sep h =
    let l = split p sep in
    ground (
      arith,
      split_suffix p q sep h,
      onto_head-final c l q (split-ne-nil p sep),
      final_nil l q (split-ne-nil p sep),
    )

long-ne-short : (x y : Bytes) → length y ≤ 2 → 2 < length x → bytes_beq x y ≡ false
long-ne-short x y hy hx = elim (Bool-cases (bytes_beq x y)) [
  | inl e ↦ absurd (omega (arith, ap (length {A = ℕ}) ((bytes_beq_iff x y).0 e)))
  | inr e ↦ e
]

push_extended :
    (rooted : Bool) (out : List Bytes) (x q : Bytes)
    → IsExtension q
    → push rooted out (x ++ q) ≡ (x ++ q) ∷ out
unfolding push
push_extended rooted out x q e =
    let size : 2 < length (x ++ q) = omega (arith, length-append x q, e.long) in
    rw (
      long-ne-short (x ++ q) [] (omega arith) size,
      long-ne-short (x ++ q) dot (omega arith) size,
      long-ne-short (x ++ q) dots (omega arith) size,
    )

-- Segments, each with its slash.
abbrev lead : List Bytes → Bytes
lead [] = []
lead (s ∷ l) = s ++ (slash ++ lead l)

join_snoc : (l : List Bytes) (x : Bytes) → join (l ++ x ∷ []) slash ≡ lead l ++ x
unfolding join
join_snoc [] x = refl
join_snoc (s ∷ []) x = sym (append_assoc s slash x)
join_snoc (s ∷ t ∷ l) x = rw (join_snoc (t ∷ l) x) (sym (append_assoc s (slash ++ lead (t ∷ l)) x))

abbrev root_of : Bool → Bytes
root_of true = slash
root_of false = []

or_dot_append : (x q : Bytes) → 2 < length q → or_dot (x ++ q) ≡ x ++ q
or_dot_append [] [] h = absurd (omega arith)
or_dot_append [] (b ∷ q) h = refl
or_dot_append (b ∷ x) q h = refl

spelled :
    (out : List Bytes) (x q : Bytes)
    → join (reverse ((x ++ q) ∷ out)) slash ≡ (lead (reverse out) ++ x) ++ q
spelled out x q =
    ap (λ l. join l slash) (reverse-cons (x ++ q) out)
    ∙ join_snoc (reverse out) (x ++ q)
    ∙ sym (append_assoc (lead (reverse out)) x q)

spell_extended :
    (rooted : Bool) (out : List Bytes) (x q : Bytes)
    → IsExtension q
    → spell rooted ((x ++ q) ∷ out) ≡ (root_of rooted ++ (lead (reverse out) ++ x)) ++ q
unfolding spell
spell_extended true out x q e = ap (λ b. b'/' ∷ b) (spelled out x q)
spell_extended false out x q e =
    ap or_dot (spelled out x q) ∙ or_dot_append (lead (reverse out) ++ x) q e.long

-- All of a cleaned path but the extension.
abbrev clean_stem : Bytes → Bytes
clean_stem p =
    let rooted = has_prefix p slash in
    let l = split p b'/' in
    root_of rooted ++ (lead (reverse (foldl (push rooted) [] (init l))) ++ final l)

has_prefix-append : (p q : Bytes) → IsExtension q → has_prefix (p ++ q) slash ≡ has_prefix p slash
unfolding has_prefix
has_prefix-append [] [] e = refl
has_prefix-append [] (b ∷ q) e = ground (arith, e.flat.0)
has_prefix-append (c ∷ p) q e = refl

clean_extended : (p q : Bytes) → IsExtension q → clean (p ++ q) ≡ clean_stem p ++ q
unfolding clean
clean_extended p q e =
    let rooted = has_prefix p slash in
    let l = split p b'/' in
    rw (has_prefix-append p q e, split_suffix p q b'/' e.flat)
      (rw (foldl-append (push rooted) [] (init l) ((final l ++ q) ∷ [])) (
        rw (push_extended rooted (foldl (push rooted) [] (init l)) (final l) q e)
          (spell_extended rooted (foldl (push rooted) [] (init l)) (final l) q e)))

-- The extension of a joined path's last element ends the joined path.
abbrev pub stem : Bytes → Bytes → Bytes
stem d n = if d == [] then clean_stem n else clean_stem (d ++ (slash ++ n))

join_two : (d x : Bytes) → join (d ∷ x ∷ []) slash ≡ d ++ (slash ++ x)
unfolding join
join_two d x = refl

pub join_path_extended :
    (d n q : Bytes) → IsExtension q → join_path (d ∷ (n ++ q) ∷ []) ≡ stem d n ++ q
unfolding join_path
join_path_extended d n q e =
    let size : 2 < length (n ++ q) = omega (arith, length-append n q, e.long) in
    elim (Bool-cases (bytes_beq d [])) [
      | inl none_given ↦
          rw (none_given, long-ne-short (n ++ q) [] (omega arith) size)
            (unfold join in clean_extended n q e)
      | inr given ↦
          rw (given, join_two d (n ++ q), ← append_assoc slash n q, ← append_assoc d (slash ++ n) q)
            (clean_extended (d ++ (slash ++ n)) q e)
    ]
