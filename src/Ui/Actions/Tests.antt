-- ===== src/Ui/Actions/Tests.antt =====
-- The actions of internal/ui/filebrowser.go at concrete inputs.
use lazyssh.Base.{true, false, none, some, [], ◌∷◌, codes, refl, nat_eq}
use lazyssh.Ui.Browser.{Entry, Listing}
use lazyssh.Ui.Actions.{Panels, Side}
use lazyssh.Ui.Actions.Keys.{Key, press}
use lazyssh.Ui.Actions.About.{IsAbout}
use lazyssh.Ui.Actions.Target.{press-IsAbout}

abbrev logs : Entry
logs = record { name = codes "logs"; is_dir = true }

abbrev note : Entry
note = record { name = codes "note"; is_dir = false }

abbrev listing : Listing
listing = λ d. some (logs ∷ note ∷ [])

abbrev panels : Panels
panels = record {
  active = Side.on_remote;
  left = record {
    local_dir = codes "/home";
    local_path_str = codes "/home";
    local_files = note ∷ [];
  };
  right = record {
    remote_dir = codes "/srv/";
    remote_path_str = codes "/srv/";
    remote_files = logs ∷ note ∷ [];
    loading = none;
  };
  left_row = 1;
  right_row = 1;
}

press-IsAbout_example :
    IsAbout (codes "/home") (codes "/srv/") [] panels (press panels [] (Key.rune b'x'))
press-IsAbout_example = press-IsAbout listing panels [] (Key.rune b'x') refl (refl, refl) refl
