-- ===== src/Config/Merge/Merged.antt =====
-- `Import` of internal/config/config.go against a description without positions.
use mathlib.Core.List.{foldl}
use lazyssh.Base.{
  ℕ, zero, suc, ◌+◌, Bool, true, false, Option, none, some, List, [], ◌∷◌, ◌++◌, Bytes, set, ◌==◌,
  bytes_eq, if◌then◌else◌, ◌≡◌, refl, sym, ap, subst, ◌∙◌, inl, inr, map, All, arith, bytes_beq,
  bytes_beq_iff, Bool-cases, append-nil, append_assoc,
}
use lazyssh.Model.{Host}
use lazyssh.Config.Merge.{index_hosts, existing, place, place_at, merge}

-- No host has the id.
abbrev pub LacksId : Bytes → List Host → Type 0
LacksId x = All (λ (h : Host). bytes_beq h.id x ≡ false)

abbrev pub Distinct : List Host → Type 0
Distinct [] = Unit {0}
Distinct (h ∷ hs) = LacksId h.id hs × Distinct hs

abbrev pub has_id : Bytes → List Host → Bool
has_id x [] = false
has_id x (h ∷ hs) = if h.id == x then true else has_id x hs

abbrev pub replace_one : Host → Host → Host
replace_one h g = if g.id == h.id then h else g

-- Each host, replaced by the last imported one with its id.
abbrev pub replaced : List Host → List Host → List Host
replaced hosts [] = hosts
replaced hosts (h ∷ imported) = replaced (map (replace_one h) hosts) imported

-- The imported hosts whose ids the store lacks, in their order.
abbrev pub added : List Host → List Host → List Host
added hosts [] = []
added hosts (h ∷ imported) = (if has_id h.id hosts then [] else h ∷ []) ++ added hosts imported

abbrev At : List Host → ℕ → Bytes → Type 0
At [] p x = false ≡ true
At (h ∷ hs) zero x = bytes_beq h.id x ≡ true
At (h ∷ hs) (suc p) x = At hs p x

data Found (hs : List Host) (x : Bytes) (r : Option ℕ) (base : ℕ) (before : Option ℕ) : Type 0 where
  absent : LacksId x hs → r ≡ before → Found hs x r base before
  at : (p : ℕ) → r ≡ some (base + p) → At hs p x → Found hs x r base before

Found-next :
    (h : Host) (hs : List Host) (x : Bytes) (r : Option ℕ) (i : ℕ) (m : Option ℕ)
    → Found hs x r (suc i) (if bytes_beq h.id x then some i else m)
    → Found (h ∷ hs) x r i m
Found-next h hs x r i m (absent a e) = elim (Bool-cases (bytes_beq h.id x)) [
  | inl t ↦ at 0 (ground arith) t
  | inr f ↦ absent (f, a) (ground arith)
]
Found-next h hs x r i m (at p e a) =
    at (suc p) (e ∙ ap (λ k. some k) {x = suc i + p} {y = i + suc p} (omega arith)) a

index_hosts-Found :
    (hs : List Host) (i : ℕ) (m : Bytes → Option ℕ) (x : Bytes)
    → Found hs x (index_hosts hs i m x) i (m x)
unfolding index_hosts
index_hosts-Found [] i m x = absent tt refl
index_hosts-Found (h ∷ hs) i m x =
    Found-next h hs x _ i (m x)
      (index_hosts-Found hs (suc i) (λ k. if h.id == k then some i else m k) x)

LacksId-same : (x y : Bytes) (hs : List Host) → bytes_beq x y ≡ true → LacksId x hs → LacksId y hs
LacksId-same x y hs e h = subst (λ z. LacksId z hs) ((bytes_beq_iff x y).0 e) h

map-replace_one-LacksId :
    (h : Host) (hs : List Host) → LacksId h.id hs → map (replace_one h) hs ≡ hs
map-replace_one-LacksId h [] l = refl
map-replace_one-LacksId h (g ∷ hs) (a, l) = rw (a, map-replace_one-LacksId h hs l) refl

At-has_id : (hs : List Host) (p : ℕ) (x : Bytes) → At hs p x → has_id x hs ≡ true
At-has_id [] p x a = a
At-has_id (h ∷ hs) zero x a = rw a refl
At-has_id (h ∷ hs) (suc p) x a = ground (arith, At-has_id hs p x a)

LacksId-has_id : (hs : List Host) (x : Bytes) → LacksId x hs → has_id x hs ≡ false
LacksId-has_id [] x l = refl
LacksId-has_id (h ∷ hs) x (a, l) = rw (a, LacksId-has_id hs x l) refl

-- A host that stands further on has another id than one that the rest lacks.
At-LacksId :
    (hs : List Host) (p : ℕ) (x y : Bytes) → At hs p x → LacksId y hs → bytes_beq y x ≡ false
At-LacksId hs p x y a l = elim (Bool-cases (bytes_beq y x)) [
  | inr f ↦ f
  | inl t ↦
      let no_x = LacksId-has_id hs x (LacksId-same y x hs t l) in
      let has_x = At-has_id hs p x a in cc
]

set-replace_one :
    (hs : List Host) (p : ℕ) (h : Host)
    → At hs p h.id
    → Distinct hs
    → set hs p h ≡ map (replace_one h) hs
set-replace_one [] p h a d = refl
set-replace_one (g ∷ hs) zero h a (l, d) =
    rw (a, map-replace_one-LacksId h hs (LacksId-same g.id h.id hs a l)) refl
set-replace_one (g ∷ hs) (suc p) h a (l, d) =
    rw (At-LacksId hs p h.id g.id a l, set-replace_one hs p h a d) refl

set-append :
    (hs gs : List Host) (p : ℕ) (h : Host) (x : Bytes)
    → At hs p x
    → set (hs ++ gs) p h ≡ set hs p h ++ gs
set-append [] gs p h x a = cc
set-append (g ∷ hs) gs zero h x a = refl
set-append (g ∷ hs) gs (suc p) h x a = rw (set-append hs gs p h x a) refl

-- Replacing keeps the ids.
abbrev SameIds : List Host → List Host → Type 0
SameIds hs gs = map (λ (h : Host). h.id) hs ≡ map (λ (h : Host). h.id) gs

replace_one-id : (h g : Host) → (replace_one h g).id ≡ g.id
replace_one-id h g = elim (Bool-cases (bytes_beq g.id h.id)) [
  | inl t ↦ rw t (sym ((bytes_beq_iff g.id h.id).0 t))
  | inr f ↦ rw f refl
]

LacksId-replaced :
    (x : Bytes) (h : Host) (hs : List Host) → LacksId x hs → LacksId x (map (replace_one h) hs)
LacksId-replaced x h [] l = tt
LacksId-replaced x h (g ∷ hs) (a, l) =
    (ap (λ i. bytes_beq i x) (replace_one-id h g) ∙ a, LacksId-replaced x h hs l)

Distinct-replaced : (h : Host) (hs : List Host) → Distinct hs → Distinct (map (replace_one h) hs)
Distinct-replaced h [] d = tt
Distinct-replaced h (g ∷ hs) (l, d) = (
  subst (λ i. LacksId i (map (replace_one h) hs)) (sym (replace_one-id h g))
      (LacksId-replaced g.id h hs l),
  Distinct-replaced h hs d,
)

At-replaced :
    (hs : List Host) (p : ℕ) (x : Bytes) (h : Host) → At hs p x → At (map (replace_one h) hs) p x
At-replaced [] p x h a = a
At-replaced (g ∷ hs) zero x h a = ap (λ i. bytes_beq i x) (replace_one-id h g) ∙ a
At-replaced (g ∷ hs) (suc p) x h a = At-replaced hs p x h a

Found-replaced :
    (hs : List Host) (x : Bytes) (r : Option ℕ) (h : Host)
    → Found hs x r 0 none
    → Found (map (replace_one h) hs) x r 0 none
Found-replaced hs x r h (absent l e) = absent (LacksId-replaced x h hs l) e
Found-replaced hs x r h (at p e a) = at p e (At-replaced hs p x h a)

place_at-split :
    (r : Option ℕ) (kept more : List Host) (h : Host)
    → Found kept h.id r 0 none
    → Distinct kept
    → place_at r (kept ++ more) h
      ≡ map (replace_one h) kept ++ (more ++ (if has_id h.id kept then [] else h ∷ []))
place_at-split r kept more h (absent l e) d =
    rw (e, map-replace_one-LacksId h kept l, LacksId-has_id kept h.id l)
      (append_assoc kept more (h ∷ []))
place_at-split r kept more h (at p e a) d =
    rw
      (
        e ∙ ap (λ k. some k) {x = 0 + p} {y = p} (omega arith),
        At-has_id kept p h.id a,
        append-nil more,
      )
      (set-append kept more p h h.id a ∙ ap (λ l. l ++ more) (set-replace_one kept p h a d))

has_id-replaced :
    (x : Bytes) (h : Host) (hs : List Host) → has_id x (map (replace_one h) hs) ≡ has_id x hs
has_id-replaced x h [] = refl
has_id-replaced x h (g ∷ hs) = rw (replace_one-id h g, has_id-replaced x h hs) refl

added-replaced :
    (h : Host) (hs imported : List Host)
    → added (map (replace_one h) hs) imported ≡ added hs imported
added-replaced h hs [] = refl
added-replaced h hs (g ∷ imported) =
    rw (has_id-replaced g.id h hs, added-replaced h hs imported) refl

foldl-place :
    (index : Bytes → Option ℕ) (imported kept more : List Host)
    → ((x : Bytes) → Found kept x (index x) 0 none)
    → Distinct kept
    → foldl (place index) (kept ++ more) imported
      ≡ replaced kept imported ++ (more ++ added kept imported)
foldl-place index [] kept more f d = rw (append-nil more) refl
foldl-place index (h ∷ imported) kept more f d =
    let new = if has_id h.id kept then [] else h ∷ [] in
    let kept' = map (replace_one h) kept in
    ap (λ s. foldl (place index) s imported) {x = place index (kept ++ more) h}
      {y = map (replace_one h) kept ++ (more ++ (if has_id h.id kept then [] else h ∷ []))}
      (unfold place in place_at-split (index h.id) kept more h (f h.id) d)
    ∙ foldl-place index imported kept' (more ++ new) (λ x. Found-replaced kept x (index x) h (f x))
        (Distinct-replaced h kept d)
    ∙ ap (λ s. replaced kept' imported ++ s)
        (append_assoc more new (added kept' imported)
          ∙ ap (λ s. more ++ (new ++ s)) (added-replaced h kept imported))

-- Where the store's ids are distinct, merging keeps the store's hosts in place, each replaced by the
-- last imported host with its id, and appends the imported hosts whose ids the store lacks, in
-- their order.
pub merge_lem :
    (hosts imported : List Host)
    → Distinct hosts
    → merge hosts imported ≡ replaced hosts imported ++ added hosts imported
unfolding merge existing
merge_lem hosts imported d =
    ap (λ s. foldl (place (existing hosts)) s imported) (sym (append-nil hosts))
    ∙ foldl-place (existing hosts) imported hosts [] (λ x. index_hosts-Found hosts 0 (λ k. none) x)
        d
