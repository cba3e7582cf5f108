-- ===== src/Ui/Editing/Tests.antt =====
-- The theorems about the editor and the viewer of internal/ui/filebrowser.go at concrete inputs, and runs.
use lazyssh.Base.{true, false, none, [], ◌∷◌, ◌++◌, codes, ◌≡◌, refl, bytes_beq, if◌then◌else◌}
use lazyssh.Ui.Editing.{
  Answers, Shown, whole, broken, edit_remote_file, choose_editor, copy_file, after_download,
  after_editor,
}
use lazyssh.Ui.Editing.Clean.{IsSettled, edited, edit_remote_file-IsSettled}

-- The user appends a letter in vim.
abbrev answers : Answers
answers = record {
  temp_made = true;
  download = whole;
  first_stat = true;
  editor_var = [];
  visual_var = codes "vim";
  found = λ e. false;
  edit = λ t. (t ++ codes "!", true);
  second_stat = true;
  upload = whole;
}

saved_edit : (edit_remote_file answers (codes "hi")).remote ≡ codes "hi!"
unfolding edit_remote_file after_download after_editor copy_file choose_editor bytes_beq
saved_edit = refl

-- The upload breaks off: the edited text is on neither side.
lost_edit : edit_remote_file (record answers { upload = broken 1 }) (codes "hi") ≡ record {
  remote = codes "h";
  temp = none;
  shown =
      Shown.info ∷ Shown.remove_modal ∷ Shown.open_editor ∷ Shown.info ∷ Shown.remove_modal
      ∷ Shown.error ∷ [];
}
unfolding edit_remote_file after_download after_editor copy_file choose_editor bytes_beq
lost_edit = refl

edit_remote_file-IsSettled_example :
    IsSettled
      (if answers.temp_made then edited answers (codes "hi") answers.download else codes "hi")
      (edit_remote_file answers (codes "hi"))
edit_remote_file-IsSettled_example = edit_remote_file-IsSettled answers (codes "hi")
