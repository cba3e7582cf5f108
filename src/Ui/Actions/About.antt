-- ===== src/Ui/Actions/About.antt =====
-- What a request of internal/ui/filebrowser.go is about.
use lazyssh.Base.{ℕ, true, false, some, List, Bytes, ◌≡◌, get_elem?, [], ◌∷◌}
use lazyssh.Paths.{join_path}
use lazyssh.Ui.Browser.{Entry, child}
use lazyssh.Ui.Actions.{Panels, Request, Answer, nothing, complaint, asked}

-- The entry stands in some row.
abbrev pub IsRow : List Entry → Entry → Type 0
IsRow es e = (i : ℕ) × (get_elem? es i ≡ some e)

-- The requests on the entries of two directories, and on a new name in one of them.
pub data Concerns (l r name : Bytes) (ls rs : List Entry) : Request → Type 0 where
  upload_file :
      (e : Entry)
      → IsRow ls e
      → e.is_dir ≡ false
      → Concerns l r name ls rs (Request.upload_file (join_path (l ∷ e.name ∷ [])) (child r e.name))
  upload_dir :
      (e : Entry)
      → IsRow ls e
      → e.is_dir ≡ true
      → Concerns l r name ls rs (Request.upload_dir (join_path (l ∷ e.name ∷ [])) (child r e.name))
  download_file :
      (e : Entry)
      → IsRow rs e
      → e.is_dir ≡ false
      → Concerns l r name ls rs
          (Request.download_file (child r e.name) (join_path (l ∷ e.name ∷ [])))
  download_dir :
      (e : Entry)
      → IsRow rs e
      → e.is_dir ≡ true
      → Concerns l r name ls rs
          (Request.download_dir (child r e.name) (join_path (l ∷ e.name ∷ [])))
  create_local : Concerns l r name ls rs (Request.create_local (join_path (l ∷ name ∷ [])))
  create_remote : Concerns l r name ls rs (Request.create_remote (child r name))
  mkdir_local : Concerns l r name ls rs (Request.mkdir_local (join_path (l ∷ name ∷ [])))
  mkdir_remote : Concerns l r name ls rs (Request.mkdir_remote (child r name))
  remove_local :
      (e : Entry)
      → IsRow ls e
      → e.is_dir ≡ false
      → Concerns l r name ls rs (Request.remove_local (join_path (l ∷ e.name ∷ [])))
  remove_local_all :
      (e : Entry)
      → IsRow ls e
      → e.is_dir ≡ true
      → Concerns l r name ls rs (Request.remove_local_all (join_path (l ∷ e.name ∷ [])))
  remove_remote :
      (e : Entry)
      → IsRow rs e
      → e.is_dir ≡ false
      → Concerns l r name ls rs (Request.remove_remote (child r e.name))
  remove_remote_all :
      (e : Entry)
      → IsRow rs e
      → e.is_dir ≡ true
      → Concerns l r name ls rs (Request.remove_remote_all (child r e.name))
  view_local :
      (e : Entry)
      → IsRow ls e
      → e.is_dir ≡ false
      → Concerns l r name ls rs (Request.view_local (join_path (l ∷ e.name ∷ [])))
  view_remote :
      (e : Entry)
      → IsRow rs e
      → e.is_dir ≡ false
      → Concerns l r name ls rs (Request.view_remote (child r e.name))
  edit_local :
      (e : Entry)
      → IsRow ls e
      → e.is_dir ≡ false
      → Concerns l r name ls rs (Request.edit_local (join_path (l ∷ e.name ∷ [])))
  edit_remote :
      (e : Entry)
      → IsRow rs e
      → e.is_dir ≡ false
      → Concerns l r name ls rs (Request.edit_remote (child r e.name))

-- Where something is asked at all.
abbrev pub IsAbout : Bytes → Bytes → Bytes → Panels → Answer → Type 0
IsAbout l r name p (asked q) = Concerns l r name p.left.local_files p.right.remote_files q
IsAbout l r name p nothing = Unit
IsAbout l r name p (complaint m) = Unit
