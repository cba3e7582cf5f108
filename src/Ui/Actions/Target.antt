-- ===== src/Ui/Actions/Target.antt =====
-- What the actions of internal/ui/filebrowser.go act on.
use lazyssh.Base.{
  ℕ, zero, suc, Bool, true, false, Option, none, some, List, [], Bytes, codes, ◌≡◌, refl, sym,
  subst, get_elem?, bytes_eq, ◌==◌, if◌then◌else◌, arith,
}
use lazyssh.Ui.Browser.{Entry, Remote, Listing, is_loading}
use lazyssh.Ui.Browser.Panels.{Synced, SyncedAt}
use lazyssh.Ui.Actions.{
  Side, Panels, Request, Answer, upload, download, create_file, mkdir, delete_selected, view_file,
  edit_file, nothing, complaint, asked, answered, with_entry, on_side, on_local, on_remote,
  row_entry, named, in_local, in_remote, upload_of, download_of, of_file, upload_row, download_row,
  on_selected,
}
use lazyssh.Ui.Actions.About.{IsRow, Concerns, IsAbout}
use lazyssh.Ui.Actions.Keys.{Command, Key, act, press, bind_keys, of_command}

row_entry-IsRow : (es : List Entry) (row : ℕ) (e : Entry) → row_entry es row ≡ some e → IsRow es e
row_entry-IsRow es zero e h = absurd (ground arith)
row_entry-IsRow es (suc i) e h = (i, h)

module _ (name : Bytes) (p : Panels) where
  abbrev Acts : Answer → Type 0
  Acts a = IsAbout p.left.local_dir p.right.remote_dir name p a

  with_entry-Acts :
      (o : Option Entry) (f : Entry → Option Request)
      → ((e : Entry) → o ≡ some e → Acts (answered (f e)))
      → Acts (answered (with_entry o f))
  with_entry-Acts none f h = tt
  with_entry-Acts (some e) f h = h e refl

  unless-Acts : (b : Bool) (x y : Answer) → Acts x → Acts y → Acts (if b then x else y)
  unless-Acts true x y hx hy = hx
  unless-Acts false x y hx hy = hy

  if-Acts :
      (b : Bool) (x y : Request)
      → (b ≡ true → Acts (asked x))
      → (b ≡ false → Acts (asked y))
      → Acts (answered (some (if b then x else y)))
  if-Acts true x y hx hy = hx refl
  if-Acts false x y hx hy = hy refl

  of_file-Acts :
      (b : Bool) (q : Request)
      → (b ≡ false → Acts (asked q))
      → Acts (answered (if b then none else some q))
  of_file-Acts true q h = tt
  of_file-Acts false q h = h refl

  on_side-Acts :
      (s : Side) (here there : Answer) → Acts here → Acts there → Acts (on_side s p here there)
  on_side-Acts on_local here there hx hy = hx
  on_side-Acts on_remote here there hx hy =
      unless-Acts (is_loading p.right.loading) nothing there tt hy

  named-Acts : (f : Bytes → Request) → Acts (asked (f name)) → Acts (named name f)
  named-Acts f h = unless-Acts (name == []) nothing (asked (f name)) tt h

  selected-Acts :
      (here there : Entry → Option Request)
      → ((e : Entry) → IsRow p.left.local_files e → Acts (answered (here e)))
      → ((e : Entry) → IsRow p.right.remote_files e → Acts (answered (there e)))
      → Acts (on_selected p here there)
  selected-Acts here there hl hr =
      on_side-Acts p.active (answered (with_entry (row_entry p.left.local_files p.left_row) here))
        (answered (with_entry (row_entry p.right.remote_files p.right_row) there))
        (with_entry-Acts (row_entry p.left.local_files p.left_row) here
          (λ e h. hl e (row_entry-IsRow p.left.local_files p.left_row e h)))
        (with_entry-Acts (row_entry p.right.remote_files p.right_row) there
          (λ e h. hr e (row_entry-IsRow p.right.remote_files p.right_row e h)))

  upload_row-Acts : (row : ℕ) → Acts (upload_row p row)
  upload_row-Acts zero = tt
  upload_row-Acts (suc i) =
      with_entry-Acts (get_elem? p.left.local_files i) (λ e. upload_of p e)
        (λ e h.
          if-Acts e.is_dir (Request.upload_dir (in_local p e.name) (in_remote p e.name))
            (Request.upload_file (in_local p e.name) (in_remote p e.name))
            (λ d. Concerns.upload_dir e (i, h) d) (λ d. Concerns.upload_file e (i, h) d))

  download_row-Acts : (row : ℕ) → Acts (download_row p row)
  download_row-Acts zero = tt
  download_row-Acts (suc i) =
      with_entry-Acts (get_elem? p.right.remote_files i) (λ e. download_of p e)
        (λ e h.
          if-Acts e.is_dir (Request.download_dir (in_remote p e.name) (in_local p e.name))
            (Request.download_file (in_remote p e.name) (in_local p e.name))
            (λ d. Concerns.download_dir e (i, h) d) (λ d. Concerns.download_file e (i, h) d))

  upload-Acts : Acts (upload p)
  unfolding upload
  upload-Acts = upload_row-Acts p.left_row

  download-Acts : Acts (download p)
  unfolding download
  download-Acts =
      unless-Acts (is_loading p.right.loading)
        (complaint (codes "Remote panel is loading, please wait")) (download_row p p.right_row) tt
        (download_row-Acts p.right_row)

  create_file-Acts : Acts (create_file p name)
  unfolding create_file
  create_file-Acts =
      on_side-Acts p.active (named name (λ n. Request.create_local (in_local p n)))
        (named name (λ n. Request.create_remote (in_remote p n)))
        (named-Acts (λ n. Request.create_local (in_local p n)) Concerns.create_local)
        (named-Acts (λ n. Request.create_remote (in_remote p n)) Concerns.create_remote)

  mkdir-Acts : Acts (mkdir p name)
  unfolding mkdir
  mkdir-Acts =
      on_side-Acts p.active (named name (λ n. Request.mkdir_local (in_local p n)))
        (named name (λ n. Request.mkdir_remote (in_remote p n)))
        (named-Acts (λ n. Request.mkdir_local (in_local p n)) Concerns.mkdir_local)
        (named-Acts (λ n. Request.mkdir_remote (in_remote p n)) Concerns.mkdir_remote)

  delete_selected-Acts : Acts (delete_selected p)
  unfolding delete_selected
  delete_selected-Acts =
      selected-Acts
        (λ e. some (
          if e.is_dir
          then Request.remove_local_all (in_local p e.name)
          else Request.remove_local (in_local p e.name)))
        (λ e. some (
          if e.is_dir
          then Request.remove_remote_all (in_remote p e.name)
          else Request.remove_remote (in_remote p e.name)))
        (λ e h.
          if-Acts e.is_dir (Request.remove_local_all (in_local p e.name))
            (Request.remove_local (in_local p e.name)) (λ d. Concerns.remove_local_all e h d)
            (λ d. Concerns.remove_local e h d))
        (λ e h.
          if-Acts e.is_dir (Request.remove_remote_all (in_remote p e.name))
            (Request.remove_remote (in_remote p e.name)) (λ d. Concerns.remove_remote_all e h d)
            (λ d. Concerns.remove_remote e h d))

  view_file-Acts : Acts (view_file p)
  unfolding view_file
  view_file-Acts =
      selected-Acts (λ e. of_file e (Request.view_local (in_local p e.name)))
        (λ e. of_file e (Request.view_remote (in_remote p e.name)))
        (λ e h.
          of_file-Acts e.is_dir (Request.view_local (in_local p e.name))
            (λ d. Concerns.view_local e h d))
        (λ e h.
          of_file-Acts e.is_dir (Request.view_remote (in_remote p e.name))
            (λ d. Concerns.view_remote e h d))

  edit_file-Acts : Acts (edit_file p)
  unfolding edit_file
  edit_file-Acts =
      selected-Acts (λ e. of_file e (Request.edit_local (in_local p e.name)))
        (λ e. of_file e (Request.edit_remote (in_remote p e.name)))
        (λ e h.
          of_file-Acts e.is_dir (Request.edit_local (in_local p e.name))
            (λ d. Concerns.edit_local e h d))
        (λ e h.
          of_file-Acts e.is_dir (Request.edit_remote (in_remote p e.name))
            (λ d. Concerns.edit_remote e h d))

  act-Acts : (c : Command) → Acts (act p name c)
  unfolding act
  act-Acts Command.uploading = upload-Acts
  act-Acts Command.downloading = download-Acts
  act-Acts Command.creating = create_file-Acts
  act-Acts Command.making = mkdir-Acts
  act-Acts Command.deleting = delete_selected-Acts
  act-Acts Command.viewing = view_file-Acts
  act-Acts Command.editing = edit_file-Acts
  act-Acts Command.switching = tt
  act-Acts Command.closing = tt
  act-Acts Command.opening = tt
  act-Acts Command.terminal = tt

  of_command-Acts : (c : Option Command) → Acts (of_command p name c)
  of_command-Acts none = tt
  of_command-Acts (some c) = act-Acts c

  press-Acts : (k : Key) → Acts (press p name k)
  unfolding press
  press-Acts k = of_command-Acts (bind_keys k)

SyncedAt-shown :
    (list : Listing) (r : Remote) (o : Option Bytes)
    → o ≡ none
    → SyncedAt list r o
    → r.remote_dir ≡ r.remote_path_str
SyncedAt-shown list r none e h = sym h.0
SyncedAt-shown list r (some d) e h = cc

-- Where the left panel shows the directory it stands in and no load runs on the right, whatever
-- key is pressed on whatever rows: what is asked for concerns an entry that a row shows, in the
-- directory that is shown above it, or the name that was typed there; and the recursive calls are
-- those on directories.
pub press-IsAbout :
    (list : Listing) (p : Panels) (name : Bytes) (k : Key)
    → p.left.local_dir ≡ p.left.local_path_str
    → Synced list p.right
    → p.right.loading ≡ none
    → IsAbout p.left.local_path_str p.right.remote_path_str name p (press p name k)
press-IsAbout list p name k here synced idle =
    subst (λ r. IsAbout p.left.local_path_str r name p (press p name k))
      (SyncedAt-shown list p.right p.right.loading idle synced)
      (subst (λ l. IsAbout l p.right.remote_dir name p (press p name k)) here (press-Acts name p k))
