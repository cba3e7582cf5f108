-- ===== src/Ui/Editing.antt =====
-- The editor and the viewer of internal/ui/filebrowser.go: `editRemoteFile` with `openEditor`, and
-- `viewLocalFile`, `viewRemoteFile` and `showViewer`.
mod Tests
pub mod Clean
pub mod Viewed
use lazyssh.Base.{
  ℕ, suc, ◌+◌, ◌*◌, Bool, true, false, not, ◌&&◌, ◌||◌, Option, none, some, List, [], ◌∷◌, ◌++◌,
  Bytes, codes, ltb, length, take, ◌==◌, bytes_eq, if◌then◌else◌,
}
use lazyssh.Base.Result.{Result, ok, err}

-- What the user sees happen: an overlay without buttons, its removal, an error's overlay, the
-- editor, and the reload of the remote panel.
pub data Shown : Type 0 where
  info remove_modal error open_editor reload : Shown

-- A copy of one file: it fails before a byte is written, or after some bytes, or it is whole.
pub data Copy : Type 0 where
  refused : Copy
  broken : ℕ → Copy
  whole : Copy

-- `Download` and `Upload` of a file with this content, to one that holds something: what that holds
-- then, and whether an error is reported.
unfoldable pub copy_file : Copy → Bytes → Bytes → Bytes × Bool
copy_file refused content old = (old, false)
copy_file (broken n) content old = (take n content, false)
copy_file whole content old = (content, true)

-- `openEditor`: $EDITOR, $VISUAL, or the first of nano, vim and vi that is found.
abbrev first_found : (Bytes → Bool) → List Bytes → Bytes
first_found found [] = []
first_found found (e ∷ es) = let rest = first_found found es in if found e then e else rest

unfoldable pub choose_editor : Bytes → Bytes → (Bytes → Bool) → Bytes
choose_editor editor visual found =
    if not (editor == [])
    then editor
    else if not (visual == [])
    then visual
    else first_found found (codes "nano" ∷ codes "vim" ∷ codes "vi" ∷ [])

-- What the calls answer, and what the editor leaves: a text, and whether the modification time is
-- another one.
pub record Answers : Type 0 where
  pub temp_made : Bool
  pub download : Copy
  pub first_stat : Bool
  pub editor_var : Bytes
  pub visual_var : Bytes
  pub found : Bytes → Bool
  pub edit : Bytes → Bytes × Bool
  pub second_stat : Bool
  pub upload : Copy

-- The remote file, the temporary file, and what was shown.
pub record Edited : Type 0 where
  pub remote : Bytes
  pub temp : Option Bytes
  pub shown : List Shown

-- Without an editor the function returns at once.
abbrev pub run_editor : Answers → Bytes → Bytes × Bool
run_editor a text =
    if choose_editor a.editor_var a.visual_var a.found == [] then (text, false) else a.edit text

-- `os.Remove(tmpPath)`
abbrev remove_temp : Edited → Edited
remove_temp e = record e { temp = none }

abbrev show : List Shown → Edited → Edited
show more e = record e { shown = e.shown ++ more }

abbrev pub unmodified : Answers → Bool → Bool
unmodified a moved = a.first_stat && a.second_stat && not moved

-- The upload's goroutine, whose deferred call removes the temporary file.
abbrev pub uploaded : Edited → Bytes × Bool → Edited
uploaded e (content, true) =
    show (Shown.remove_modal ∷ Shown.reload ∷ []) (remove_temp (record e { remote = content }))
uploaded e (content, false) =
    show (Shown.remove_modal ∷ Shown.error ∷ []) (remove_temp (record e { remote = content }))

unfoldable pub after_editor : Answers → Edited → Bytes × Bool → Edited
after_editor a e (text, moved) =
    if unmodified a moved
    then remove_temp e
    else uploaded (show (Shown.info ∷ []) (record e { temp = some text }))
        (copy_file a.upload text e.remote)

unfoldable pub after_download : Answers → Edited → Bytes × Bool → Edited
unfolding after_editor
after_download a e (content, false) =
    show (Shown.remove_modal ∷ Shown.error ∷ []) (remove_temp (record e { temp = some content }))
after_download a e (content, true) =
    after_editor a
      (show (Shown.remove_modal ∷ Shown.open_editor ∷ []) (record e { temp = some content }))
      (run_editor a content)

unfoldable pub edit_remote_file : Answers → Bytes → Edited
unfolding after_download
edit_remote_file a remote =
    if a.temp_made
    then after_download a (record { remote = remote; temp = some []; shown = Shown.info ∷ [] })
        (copy_file a.download remote [])
    else record { remote = remote; temp = none; shown = Shown.error ∷ [] }

abbrev pub view_limit : ℕ
view_limit = 512 * 1024

-- Two dashes, in UTF-8.
abbrev dashes : Bytes
dashes = 226 ∷ 148 ∷ 128 ∷ 226 ∷ 148 ∷ 128 ∷ []

abbrev pub truncation_note : Bytes
truncation_note = 10 ∷ 10 ∷ (dashes ++ codes " file truncated at 512 KB " ++ dashes)

-- The text of `showViewer`, of contents that the callers cut.
abbrev pub viewed_to : ℕ → Bytes → Bytes
viewed_to limit text = if ltb limit (length text) then take limit text ++ truncation_note else text

abbrev pub viewed : Bytes → Bytes
viewed text = viewed_to view_limit text

unfoldable pub view_local_file : Option Bytes → Option Bytes
view_local_file none = none
view_local_file (some content) = some (viewed content)

-- `ReadRemoteFile` reads at most `limit` bytes.
unfoldable pub read_remote_file : Option Bytes → ℕ → Option Bytes
read_remote_file none limit = none
read_remote_file (some content) limit = some (take limit content)

abbrev view_read : Option Bytes → Option Bytes
view_read none = none
view_read (some got) = some (viewed got)

unfoldable pub view_remote_file : Option Bytes → Option Bytes
unfolding read_remote_file
view_remote_file content = view_read (read_remote_file content (view_limit + 1))
