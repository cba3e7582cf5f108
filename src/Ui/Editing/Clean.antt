-- ===== src/Ui/Editing/Clean.antt =====
-- `editRemoteFile` of internal/ui/filebrowser.go.
use lazyssh.Base.{
  ℕ, Bool, true, false, none, some, List, [], ◌∷◌, ◌++◌, Bytes, ◌≡◌, refl, if◌then◌else◌,
}
use lazyssh.Ui.Editing.{
  Answers, Edited, Shown, Copy, refused, broken, whole, copy_file, edit_remote_file, run_editor,
  unmodified, after_editor, after_download, uploaded,
}

-- The overlays without buttons that are not removed.
unfoldable pub left_open : ℕ → List Shown → ℕ
left_open n [] = n
left_open n (Shown.info ∷ l) = left_open 1 l
left_open n (Shown.remove_modal ∷ l) = left_open 0 l
left_open n (Shown.error ∷ l) = left_open n l
left_open n (Shown.open_editor ∷ l) = left_open n l
left_open n (Shown.reload ∷ l) = left_open n l

left_open-append : (n : ℕ) (l m : List Shown) → left_open n (l ++ m) ≡ left_open (left_open n l) m
unfolding left_open
left_open-append n [] m = refl
left_open-append n (Shown.info ∷ l) m = left_open-append 1 l m
left_open-append n (Shown.remove_modal ∷ l) m = left_open-append 0 l m
left_open-append n (Shown.error ∷ l) m = left_open-append n l m
left_open-append n (Shown.open_editor ∷ l) m = left_open-append n l m
left_open-append n (Shown.reload ∷ l) m = left_open-append n l m

-- No temporary file and no overlay is left, and the remote file holds what is said.
pub record IsSettled (remote : Bytes) (e : Edited) : Type 0 where
  pub no_temp : e.temp ≡ none
  pub closed : left_open 0 e.shown ≡ 0
  pub holds : e.remote ≡ remote

uploaded-IsSettled : (e : Edited) (r : Bytes × Bool) → IsSettled r.0 (uploaded e r)
unfolding left_open
uploaded-IsSettled e (content, true) = record {
  no_temp = refl;
  closed = left_open-append 0 e.shown (Shown.remove_modal ∷ Shown.reload ∷ []);
  holds = refl;
}
uploaded-IsSettled e (content, false) = record {
  no_temp = refl;
  closed = left_open-append 0 e.shown (Shown.remove_modal ∷ Shown.error ∷ []);
  holds = refl;
}

if-IsSettled :
    (b : Bool) (x y : Edited) (p q : Bytes)
    → IsSettled p x
    → IsSettled q y
    → IsSettled (if b then p else q) (if b then x else y)
if-IsSettled true x y p q hx hy = hx
if-IsSettled false x y p q hx hy = hy

-- What is uploaded: what the editor left, if the file looks modified.
abbrev pub saved : Answers → Bytes → Bytes × Bool → Bytes
saved a remote (text, moved) =
    if unmodified a moved then remote else (copy_file a.upload text remote).0

after_editor-IsSettled :
    (a : Answers) (e : Edited) (r : Bytes × Bool)
    → left_open 0 e.shown ≡ 0
    → IsSettled (saved a e.remote r) (after_editor a e r)
unfolding after_editor
after_editor-IsSettled a e (text, moved) h =
    if-IsSettled (unmodified a moved) (record e { temp = none })
      (uploaded (record e { temp = some text; shown = e.shown ++ Shown.info ∷ [] })
        (copy_file a.upload text e.remote))
      e.remote (copy_file a.upload text e.remote).0
      (record { no_temp = refl; closed = h; holds = refl })
      (uploaded-IsSettled (record e { temp = some text; shown = e.shown ++ Shown.info ∷ [] })
        (copy_file a.upload text e.remote))

-- An edit of a remote file, by whether its download is whole.
abbrev pub edited : Answers → Bytes → Copy → Bytes
edited a remote whole = saved a remote (run_editor a remote)
edited a remote refused = remote
edited a remote (broken n) = remote

after_download-IsSettled :
    (a : Answers) (remote : Bytes) (c : Copy)
    → IsSettled (edited a remote c) (
        after_download a
          (record { remote = remote; temp = some []; shown = Shown.info ∷ [] })
          (copy_file c remote []))
unfolding after_download copy_file left_open
after_download-IsSettled a remote refused = record { no_temp = refl; closed = refl; holds = refl }
after_download-IsSettled a remote (broken n) = record {
  no_temp = refl;
  closed = refl;
  holds = refl;
}
after_download-IsSettled a remote whole =
    after_editor-IsSettled a
      (record {
        remote = remote;
        temp = some remote;
        shown = Shown.info ∷ Shown.remove_modal ∷ Shown.open_editor ∷ [];
      })
      (run_editor a remote) refl

-- However an edit of a remote file goes, no temporary file and no overlay is left behind. The
-- remote file changes only where its download was whole and the editor's file looks modified:
-- then it is what the upload makes of the text that the editor left.
pub edit_remote_file-IsSettled :
    (a : Answers) (remote : Bytes)
    → IsSettled
        (if a.temp_made then edited a remote a.download else remote)
        (edit_remote_file a remote)
unfolding edit_remote_file left_open
edit_remote_file-IsSettled a remote =
    if-IsSettled a.temp_made
      (after_download a (record { remote = remote; temp = some []; shown = Shown.info ∷ [] })
        (copy_file a.download remote []))
      (record { remote = remote; temp = none; shown = Shown.error ∷ [] })
      (edited a remote a.download) remote (after_download-IsSettled a remote a.download)
      (record { no_temp = refl; closed = refl; holds = refl })
