-- ===== src/Ui/Browsing.antt =====
-- The file browser of internal/ui/filebrowser.go as a whole: keys, calls that end and background loads,
-- in any order.
mod Tests
pub mod Shown
use lazyssh.Base.{
  ℕ, zero, suc, Bool, true, false, Option, none, some, List, [], ◌∷◌, ◌++◌, Bytes, codes, get_elem?,
  if◌then◌else◌,
}
use lazyssh.Ui.Browser.{
  Entry, Local, Remote, Listing, open_local_row, open_selected, start_remote_load, finish_load,
  is_loading,
}
use lazyssh.Ui.Actions.{
  Side, on_local, on_remote, Panels, Request, Finish, settle, reset, switch_panel, load_left,
}
use lazyssh.Ui.Actions.Keys.{Key, Command, bind_keys}

-- `newFileBrowser`, from the working directory and the home directory of the server.
unfoldable pub new_file_browser : Listing → Bytes → Bytes → Panels
new_file_browser read wd home =
    let p = load_left read (record {
      active = on_local;
      left = record { local_dir = wd; local_path_str = wd; local_files = [] };
      right = record {
        remote_dir = home;
        remote_path_str = home;
        remote_files = [];
        loading = none;
      };
      left_row = 0;
      right_row = 0;
    }) in
    record p { right = start_remote_load p.right }

-- Whether Enter on the row changes the directory.
abbrev is_folder : Option Entry → Bool
is_folder none = false
is_folder (some e) = e.is_dir

abbrev goes_in : List Entry → ℕ → Bool
goes_in es zero = true
goes_in es (suc i) = is_folder (get_elem? es i)

abbrev pub open_left : Listing → Panels → Panels
open_left read p =
    let left = open_local_row read p.left p.left_row in
    record p {
      left = left;
      left_row =
          if goes_in p.left.local_files p.left_row
          then reset (read left.local_dir) p.left_row
          else p.left_row;
    }

abbrev pub open_right : Panels → Panels
open_right p = record p { right = open_selected p.right p.right_row }

-- `openSelected`
abbrev pub open_active : Listing → Side → Panels → Panels
open_active read on_local p = open_left read p
open_active read on_remote p = open_right p

-- The other commands ask for a call, which ends later.
abbrev pub on_command : Listing → Panels → Option Command → Panels
on_command read p (some Command.switching) = switch_panel p
on_command read p (some Command.opening) = open_active read p.active p
on_command read p _ = p

abbrev loaded_row : Listing → Option Bytes → ℕ → ℕ
loaded_row list none row = row
loaded_row list (some d) row = reset (list d) row

pub data Happening : Type 0 where
  moved : Side → ℕ → Happening
  pressed : Key → Happening
  ended : Request → Finish → Happening
  loaded : Happening

-- The two listings are that of the local disk and that of the server.
unfoldable pub happen : Listing → Listing → Panels → Happening → Panels
happen read list p (moved on_local row) = record p { left_row = row }
happen read list p (moved on_remote row) = record p { right_row = row }
happen read list p (pressed k) = on_command read p (bind_keys k)
happen read list p (ended r f) = settle read p r f
happen read list p loaded = record p {
  right = finish_load list p.right;
  right_row = loaded_row list p.right.loading p.right_row;
}

unfoldable pub browse : Listing → Listing → Panels → List Happening → Panels
browse read list p [] = p
browse read list p (h ∷ hs) = browse read list (happen read list p h) hs

-- The path bars, with the active panel's in bright colours.
-- "▶", in UTF-8
abbrev arrow : Bytes
arrow = 226 ∷ 150 ∷ 182 ∷ []

unfoldable pub path_bars : Panels → Bytes × Bytes
path_bars p = elim p.active [
  | on_local ↦ (
    codes "[yellow::b] "
        ++ arrow
        ++ codes " Local:[-::-] [white]"
        ++ p.left.local_path_str
        ++ codes "[-]",
    codes "[gray]   Remote: " ++ p.right.remote_path_str ++ codes "[-]",
  )
  | on_remote ↦ (
    codes "[gray]   Local: " ++ p.left.local_path_str ++ codes "[-]",
    codes "[green::b] "
        ++ arrow
        ++ codes " Remote:[-::-] [white]"
        ++ p.right.remote_path_str
        ++ codes "[-]",
  )
]
