-- ===== src/Ui/Actions.antt =====
-- The actions of internal/ui/filebrowser.go on the selected rows: what each asks of the disk or of the
-- server, and what follows when that has ended.
mod Tests
pub mod Keys
pub mod About
pub mod Target
use lazyssh.Base.{
  ℕ, zero, suc, ◌||◌, nat_eq, Bool, true, false, Option, none, some, List, [], ◌∷◌, ◌++◌, Bytes,
  codes, get_elem?, ◌==◌, bytes_eq, if◌then◌else◌,
}
use lazyssh.Paths.{join_path}
use lazyssh.Ui.Browser.{
  Entry, Local, Remote, Listing, child, is_loading, load_local, start_remote_load, open_local_row,
  open_selected,
}

-- `panelLocal` and `panelRemote`
pub data Side : Type 0 where
  on_local on_remote : Side

-- The panels, the active one, and the selected row of each.
pub record Panels : Type 0 where
  pub active : Side
  pub left : Local
  pub right : Remote
  pub left_row : ℕ
  pub right_row : ℕ

-- A call that changes files: on a path, or from one to another.
pub data Request : Type 0 where
  upload_file upload_dir download_file download_dir : Bytes → Bytes → Request
  create_local create_remote mkdir_local mkdir_remote : Bytes → Request
  remove_local remove_local_all remove_remote remove_remote_all : Bytes → Request
  view_local view_remote edit_local edit_remote : Bytes → Request

pub data Answer : Type 0 where
  nothing : Answer
  complaint : Bytes → Answer
  asked : Request → Answer

abbrev pub answered : Option Request → Answer
answered none = nothing
answered (some r) = asked r

abbrev pub in_local : Panels → Bytes → Bytes
in_local p name = join_path (p.left.local_dir ∷ name ∷ [])

abbrev pub in_remote : Panels → Bytes → Bytes
in_remote p name = child p.right.remote_dir name

abbrev pub with_entry {ℓ} : {A : Type ℓ} → Option Entry → (Entry → Option A) → Option A
with_entry none f = none
with_entry (some e) f = f e

abbrev pub upload_of : Panels → Entry → Option Request
upload_of p e = some (
    if e.is_dir
    then upload_dir (in_local p e.name) (in_remote p e.name)
    else upload_file (in_local p e.name) (in_remote p e.name))

-- `upload`, by the selected row of the left panel
abbrev pub upload_row : Panels → ℕ → Answer
upload_row p zero = complaint (codes "Select a file or directory in the left panel first")
upload_row p (suc i) = answered (with_entry (get_elem? p.left.local_files i) (λ e. upload_of p e))

unfoldable pub upload : Panels → Answer
upload p = upload_row p p.left_row

abbrev pub download_of : Panels → Entry → Option Request
download_of p e = some (
    if e.is_dir
    then download_dir (in_remote p e.name) (in_local p e.name)
    else download_file (in_remote p e.name) (in_local p e.name))

abbrev pub download_row : Panels → ℕ → Answer
download_row p zero = complaint (codes "Select a file or directory in the right panel first")
download_row p (suc i) =
    answered (with_entry (get_elem? p.right.remote_files i) (λ e. download_of p e))

unfoldable pub download : Panels → Answer
download p =
    if is_loading p.right.loading
    then complaint (codes "Remote panel is loading, please wait")
    else download_row p p.right_row

-- A prompt that is answered with a name.
abbrev pub named : Bytes → (Bytes → Request) → Answer
named name request = if name == [] then nothing else asked (request name)

-- `createFile` and `mkdir`, with the answer to the prompt
abbrev pub on_side : Side → Panels → Answer → Answer → Answer
on_side on_local p here there = here
on_side on_remote p here there = if is_loading p.right.loading then nothing else there

unfoldable pub create_file : Panels → Bytes → Answer
create_file p name =
    on_side p.active p (named name (λ n. create_local (in_local p n)))
      (named name (λ n. create_remote (in_remote p n)))

unfoldable pub mkdir : Panels → Bytes → Answer
mkdir p name =
    on_side p.active p (named name (λ n. mkdir_local (in_local p n)))
      (named name (λ n. mkdir_remote (in_remote p n)))

-- The entry of the selected row in the active panel.
abbrev pub row_entry : List Entry → ℕ → Option Entry
row_entry es zero = none
row_entry es (suc i) = get_elem? es i

abbrev pub on_selected : Panels → (Entry → Option Request) → (Entry → Option Request) → Answer
on_selected p here there =
    on_side p.active p (answered (with_entry (row_entry p.left.local_files p.left_row) here))
      (answered (with_entry (row_entry p.right.remote_files p.right_row) there))

-- `deleteSelected`, once the question is answered with yes
unfoldable pub delete_selected : Panels → Answer
delete_selected p =
    on_selected p
      (λ e. some (
        if e.is_dir
        then remove_local_all (in_local p e.name)
        else remove_local (in_local p e.name)))
      (λ e. some (
        if e.is_dir
        then remove_remote_all (in_remote p e.name)
        else remove_remote (in_remote p e.name)))

abbrev pub of_file : Entry → Request → Option Request
of_file e r = if e.is_dir then none else some r

unfoldable pub view_file : Panels → Answer
view_file p =
    on_selected p (λ e. of_file e (view_local (in_local p e.name)))
      (λ e. of_file e (view_remote (in_remote p e.name)))

unfoldable pub edit_file : Panels → Answer
edit_file p =
    on_selected p (λ e. of_file e (edit_local (in_local p e.name)))
      (λ e. of_file e (edit_remote (in_remote p e.name)))

abbrev other_side : Side → Side
other_side on_local = on_remote
other_side on_remote = on_local

-- `switchPanel`
unfoldable pub switch_panel : Panels → Panels
switch_panel p = record p { active = other_side p.active }

-- How a call ended: the user pressed Cancel, or it failed, or it is done.
pub data Finish : Type 0 where
  cancelled failed finished : Finish

-- The panel whose files the call changes.
pub data Changed : Type 0 where
  left_changes right_changes none_changes : Changed

abbrev pub changed_side : Request → Changed
changed_side (upload_file a b) = right_changes
changed_side (upload_dir a b) = right_changes
changed_side (download_file a b) = left_changes
changed_side (download_dir a b) = left_changes
changed_side (create_local a) = left_changes
changed_side (create_remote a) = right_changes
changed_side (mkdir_local a) = left_changes
changed_side (mkdir_remote a) = right_changes
changed_side (remove_local a) = left_changes
changed_side (remove_local_all a) = left_changes
changed_side (remove_remote a) = right_changes
changed_side (remove_remote_all a) = right_changes
changed_side (view_local a) = none_changes
changed_side (view_remote a) = none_changes
changed_side (edit_local a) = left_changes
changed_side (edit_remote a) = right_changes

-- A table that is filled anew has its first row selected.
abbrev pub reset : Option (List Entry) → ℕ → ℕ
reset none row = row
reset (some es) row = 0

abbrev pub load_left : Listing → Panels → Panels
load_left read p = record p {
  left = load_local read p.left;
  left_row = reset (read p.left.local_dir) p.left_row;
}

abbrev pub reloaded : Listing → Panels → Changed → Panels
reloaded read p left_changes = load_left read p
reloaded read p right_changes = record p { right = start_remote_load p.right }
reloaded read p none_changes = p

-- After the call: a panel is loaded anew where the call is done. The editor of a local file has no
-- error that would be looked at.
unfoldable pub settle : Listing → Panels → Request → Finish → Panels
settle read p (edit_local a) f = reloaded read p left_changes
settle read p r cancelled = p
settle read p r failed = p
settle read p r finished = reloaded read p (changed_side r)
