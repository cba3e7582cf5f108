-- ===== src/Ssh/Transfer/Listing.antt =====
-- `ListDir` of internal/ssh/sftp.go; `readLocalDir` of internal/ui/filebrowser.go sorts alike.
pub mod Sorted
use lazyssh.Base.{
  ℕ, Bool, true, false, not, Option, none, some, List, [], ◌∷◌, ◌++◌, Bytes, ltb, ◌==◌, nat_eq,
  if◌then◌else◌,
}

pub record FileInfo : Type 0 where
  pub name : Bytes
  pub is_dir : Bool
  pub size : ℕ

-- `<` on strings.
unfoldable pub before : Bytes → Bytes → Bool
before a [] = false
before [] (d ∷ b) = true
before (c ∷ a) (d ∷ b) = let rest = before a b in if c == d then rest else ltb c d

-- `sort.Slice` by the name.
unfoldable pub insert : FileInfo → List FileInfo → List FileInfo
insert f [] = f ∷ []
insert f (g ∷ gs) = let rest = insert f gs in if before g.name f.name then g ∷ rest else f ∷ g ∷ gs

unfoldable pub sort : List FileInfo → List FileInfo
sort [] = []
sort (f ∷ fs) = insert f (sort fs)

unfoldable pub dirs_of : List FileInfo → List FileInfo
dirs_of [] = []
dirs_of (f ∷ fs) = let rest = dirs_of fs in if f.is_dir then f ∷ rest else rest

unfoldable pub files_of : List FileInfo → List FileInfo
files_of [] = []
files_of (f ∷ fs) = let rest = files_of fs in if f.is_dir then rest else f ∷ rest

unfoldable pub list_dir : Option (List FileInfo) → Option (List FileInfo)
list_dir none = none
list_dir (some entries) = some (sort (dirs_of entries) ++ sort (files_of entries))
