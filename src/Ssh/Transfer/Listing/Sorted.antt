-- ===== src/Ssh/Transfer/Listing/Sorted.antt =====
-- The order of a listing by `ListDir` of internal/ssh/sftp.go.
use mathlib.Core.List.{Perm, perm_middle}
use mathlib.Core.List.Perm
use lazyssh.Base.{
  Bool, true, false, some, List, [], ◌∷◌, ◌++◌, Bytes, nat_eq, if◌then◌else◌, ◌≡◌, refl, sym, ap,
  ap₂, subst, All, arith, Bool-cases, inl, inr,
}
use lazyssh.Ssh.Transfer.Listing.{FileInfo, before, insert, sort, dirs_of, files_of, list_dir}

-- No name stands before that of the entry in front of it.
abbrev pub IsSorted : List FileInfo → Type 0
IsSorted [] = Unit {0}
IsSorted (f ∷ []) = Unit {0}
IsSorted (f ∷ g ∷ fs) = (before g.name f.name ≡ false) × IsSorted (g ∷ fs)

-- Of two names at most one stands before the other.
before_asym : (a b : Bytes) → before a b ≡ true → before b a ≡ false
unfolding before
before_asym a [] h = cc
before_asym [] (d ∷ b) h = refl
before_asym (c ∷ a) (d ∷ b) h = ground (arith, before_asym a b)

insert_behind :
    (f g : FileInfo) (fs : List FileInfo)
    → before g.name f.name ≡ true
    → insert f (g ∷ fs) ≡ g ∷ insert f fs
unfolding insert
insert_behind f g fs e = ap (λ b. if b then g ∷ insert f fs else f ∷ g ∷ fs) e

insert_front :
    (f g : FileInfo) (fs : List FileInfo)
    → before g.name f.name ≡ false
    → insert f (g ∷ fs) ≡ f ∷ g ∷ fs
unfolding insert
insert_front f g fs e = ap (λ b. if b then g ∷ insert f fs else f ∷ g ∷ fs) e

behind-IsSorted :
    (f g : FileInfo) (fs : List FileInfo)
    → before g.name f.name ≡ true
    → IsSorted (g ∷ fs)
    → IsSorted (insert f fs)
    → IsSorted (g ∷ insert f fs)
behind-IsSorted f g [] e h ih = unfold insert in (before_asym g.name f.name e, tt)
behind-IsSorted f g (k ∷ fs) e (hk, h) ih = elim (Bool-cases (before k.name f.name)) [
  | inl e' ↦
      let q = insert_behind f k fs e' in
      subst (λ l. IsSorted (g ∷ l)) (sym q) (hk, subst (λ l. IsSorted l) q ih)
  | inr e' ↦
      let q = insert_front f k fs e' in
      subst (λ l. IsSorted (g ∷ l)) (sym q)
        (before_asym g.name f.name e, subst (λ l. IsSorted l) q ih)
]

IsSorted-tail : (g : FileInfo) (fs : List FileInfo) → IsSorted (g ∷ fs) → IsSorted fs
IsSorted-tail g [] h = tt
IsSorted-tail g (k ∷ fs) (hk, h) = h

insert-IsSorted : (f : FileInfo) (fs : List FileInfo) → IsSorted fs → IsSorted (insert f fs)
insert-IsSorted f [] h = unfold insert in tt
insert-IsSorted f (g ∷ fs) h =
    let ih = insert-IsSorted f fs (IsSorted-tail g fs h) in
    elim (Bool-cases (before g.name f.name)) [
      | inl e ↦
          subst (λ l. IsSorted l) (sym (insert_behind f g fs e)) (behind-IsSorted f g fs e h ih)
      | inr e ↦ subst (λ l. IsSorted l) (sym (insert_front f g fs e)) (e, h)
    ]

sort-IsSorted : (fs : List FileInfo) → IsSorted (sort fs)
unfolding sort
sort-IsSorted [] = tt
sort-IsSorted (f ∷ fs) = insert-IsSorted f (sort fs) (sort-IsSorted fs)

insert-Perm : (f : FileInfo) (fs : List FileInfo) → Perm (insert f fs) (f ∷ fs)
unfolding insert
insert-Perm f [] = Perm.refl (f ∷ [])
insert-Perm f (g ∷ fs) = elim (Bool-cases (before g.name f.name)) [
  | inl e ↦ rw e (Perm.trans (Perm.cons g (insert-Perm f fs)) (perm_middle (g ∷ []) fs))
  | inr e ↦ rw e (Perm.refl (f ∷ g ∷ fs))
]

sort-Perm : (fs : List FileInfo) → Perm (sort fs) fs
unfolding sort
sort-Perm [] = Perm.refl []
sort-Perm (f ∷ fs) = Perm.trans (insert-Perm f (sort fs)) (Perm.cons f (sort-Perm fs))

dirs_of-dir :
    (f : FileInfo) (fs : List FileInfo) (b : Bool)
    → f.is_dir ≡ b
    → dirs_of (f ∷ fs) ≡ (if b then f ∷ dirs_of fs else dirs_of fs)
unfolding dirs_of
dirs_of-dir f fs b e = ap (λ b. if b then f ∷ dirs_of fs else dirs_of fs) e

files_of-dir :
    (f : FileInfo) (fs : List FileInfo) (b : Bool)
    → f.is_dir ≡ b
    → files_of (f ∷ fs) ≡ (if b then files_of fs else f ∷ files_of fs)
unfolding files_of
files_of-dir f fs b e = ap (λ b. if b then files_of fs else f ∷ files_of fs) e

split-Perm : (fs : List FileInfo) → Perm (dirs_of fs ++ files_of fs) fs
split-Perm [] = unfold dirs_of files_of in Perm.refl []
split-Perm (f ∷ fs) =
    let ih = Perm.cons f (split-Perm fs) in
    elim (Bool-cases f.is_dir) [
      | inl e ↦
          subst (λ l. Perm l (f ∷ fs))
            (sym (ap₂ (λ a b. a ++ b) (dirs_of-dir f fs true e) (files_of-dir f fs true e))) ih
      | inr e ↦
          subst (λ l. Perm l (f ∷ fs))
            (sym (ap₂ (λ a b. a ++ b) (dirs_of-dir f fs false e) (files_of-dir f fs false e)))
            (Perm.trans (perm_middle (dirs_of fs) (files_of fs)) ih)
    ]

abbrev Kind : Bool → List FileInfo → Type 0
Kind b = All (λ (f : FileInfo). f.is_dir ≡ b)

insert-Kind :
    (b : Bool) (f : FileInfo) (fs : List FileInfo) → f.is_dir ≡ b → Kind b fs → Kind b (insert f fs)
unfolding insert
insert-Kind b f [] e h = (e, tt)
insert-Kind b f (g ∷ fs) e (hg, h) = elim (Bool-cases (before g.name f.name)) [
  | inl t ↦ rw t (hg, insert-Kind b f fs e h)
  | inr t ↦ rw t (e, (hg, h))
]

sort-Kind : (b : Bool) (fs : List FileInfo) → Kind b fs → Kind b (sort fs)
unfolding sort
sort-Kind b [] h = tt
sort-Kind b (f ∷ fs) (e, h) = insert-Kind b f (sort fs) e (sort-Kind b fs h)

dirs_of-Kind : (fs : List FileInfo) → Kind true (dirs_of fs)
dirs_of-Kind [] = unfold dirs_of in tt
dirs_of-Kind (f ∷ fs) =
    let ih = dirs_of-Kind fs in
    elim (Bool-cases f.is_dir) [
      | inl e ↦ subst (λ l. Kind true l) (sym (dirs_of-dir f fs true e)) (e, ih)
      | inr e ↦ subst (λ l. Kind true l) (sym (dirs_of-dir f fs false e)) ih
    ]

files_of-Kind : (fs : List FileInfo) → Kind false (files_of fs)
files_of-Kind [] = unfold files_of in tt
files_of-Kind (f ∷ fs) =
    let ih = files_of-Kind fs in
    elim (Bool-cases f.is_dir) [
      | inl e ↦ subst (λ l. Kind false l) (sym (files_of-dir f fs true e)) ih
      | inr e ↦ subst (λ l. Kind false l) (sym (files_of-dir f fs false e)) (e, ih)
    ]

-- A listing holds exactly the entries that the server gives, each as often: first directories only,
-- sorted by name, and then the others, sorted by name.
pub list_dir_lem :
    (entries : List FileInfo)
    → (dirs : List FileInfo) × (files : List FileInfo) × (list_dir (some entries)
        ≡ some (dirs ++ files))
      × All (λ (f : FileInfo). f.is_dir ≡ true) dirs
      × All (λ (f : FileInfo). f.is_dir ≡ false) files
      × IsSorted dirs
      × IsSorted files
      × Perm (dirs ++ files) entries
unfolding list_dir
list_dir_lem entries = (
  sort (dirs_of entries),
  sort (files_of entries),
  refl,
  sort-Kind true (dirs_of entries) (dirs_of-Kind entries),
  sort-Kind false (files_of entries) (files_of-Kind entries),
  sort-IsSorted (dirs_of entries),
  sort-IsSorted (files_of entries),
  Perm.trans (Perm.append (sort-Perm (dirs_of entries)) (sort-Perm (files_of entries)))
      (split-Perm entries),
)
