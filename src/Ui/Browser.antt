-- ===== src/Ui/Browser.antt =====
-- internal/ui/filebrowser.go: the directories that the two panels show, and what their rows stand for.
-- A directory's listing is an argument; the background load of the remote panel is two steps.
pub mod Panels
pub mod Parent
use lazyssh.Base.{
  ℕ, zero, suc, ◌-◌, Bool, true, false, not, Option, none, some, List, [], ◌∷◌, ◌++◌, Bytes,
  get_elem?, take, ◌==◌, bytes_eq, if◌then◌else◌,
}
use lazyssh.Strings.{trim_right, is_slash, last_index}
use lazyssh.Paths.{join_path, dir}

-- `localEntry` and `FileInfo`, without what is only shown.
pub record Entry : Type 0 where
  pub name : Bytes
  pub is_dir : Bool

pub record Local : Type 0 where
  pub local_dir : Bytes
  pub local_path_str : Bytes
  pub local_files : List Entry

-- `loading` is the directory that the background load lists, where one runs.
pub record Remote : Type 0 where
  pub remote_dir : Bytes
  pub remote_path_str : Bytes
  pub remote_files : List Entry
  pub loading : Option Bytes

abbrev pub Listing : Type 0
Listing = Bytes → Option (List Entry)

-- Where the directory cannot be listed, the error is shown and the rest stays.
abbrev pub listed : Local → Option (List Entry) → Local
listed p none = p
listed p (some es) = record p { local_files = es; local_path_str = p.local_dir }

unfoldable pub load_local : Listing → Local → Local
load_local read p = listed p (read p.local_dir)

abbrev pub enter_local : Listing → Local → Option Entry → Local
enter_local read p none = p
enter_local read p (some e) =
    if e.is_dir
    then load_local read (record p { local_dir = join_path (p.local_dir ∷ e.name ∷ []) })
    else p

unfoldable pub open_local_row : Listing → Local → ℕ → Local
open_local_row read p zero = load_local read (record p { local_dir = dir p.local_dir })
open_local_row read p (suc i) = enter_local read p (get_elem? p.local_files i)

-- The path that deleting, viewing and editing act on, by the selected row.
abbrev local_path : Local → Option Entry → Option Bytes
local_path p none = none
local_path p (some e) = some (join_path (p.local_dir ∷ e.name ∷ []))

unfoldable pub local_target : Local → ℕ → Option Bytes
local_target p zero = none
local_target p (suc i) = local_path p (get_elem? p.local_files i)

abbrev pub parent_at : Bytes → Option ℕ → Bytes
parent_at p none = b'/' ∷ []
parent_at p (some zero) = b'/' ∷ []
parent_at p (some (suc i)) = take (suc i) p

unfoldable pub remote_parent : Bytes → Bytes
remote_parent p = let q = trim_right is_slash p in parent_at q (last_index q b'/')

abbrev pub child : Bytes → Bytes → Bytes
child d name = trim_right is_slash d ++ (b'/' ∷ name)

abbrev pub is_loading : Option Bytes → Bool
is_loading none = false
is_loading (some d) = true

unfoldable pub start_remote_load : Remote → Remote
start_remote_load r = if is_loading r.loading then r else record r { loading = some r.remote_dir }

abbrev pub arrived : Remote → Bytes → Option (List Entry) → Remote
arrived r d none = record r { loading = none }
arrived r d (some es) = record r { loading = none; remote_files = es; remote_path_str = d }

abbrev pub finish : Listing → Remote → Option Bytes → Remote
finish list r none = r
finish list r (some d) = arrived r d (list d)

-- The background load's end, in the event loop.
unfoldable pub finish_load : Listing → Remote → Remote
finish_load list r = finish list r r.loading

abbrev pub enter_remote : Remote → Option Entry → Remote
enter_remote r none = r
enter_remote r (some e) =
    if e.is_dir then start_remote_load (record r { remote_dir = child r.remote_dir e.name }) else r

unfoldable pub open_remote_row : Remote → ℕ → Remote
open_remote_row r zero = start_remote_load (record r { remote_dir = remote_parent r.remote_dir })
open_remote_row r (suc i) = enter_remote r (get_elem? r.remote_files i)

unfoldable pub open_selected : Remote → ℕ → Remote
open_selected r row = if is_loading r.loading then r else open_remote_row r row

abbrev remote_path : Remote → Option Entry → Option Bytes
remote_path r none = none
remote_path r (some e) = some (child r.remote_dir e.name)

abbrev row_target : Remote → ℕ → Option Bytes
row_target r zero = none
row_target r (suc i) = remote_path r (get_elem? r.remote_files i)

unfoldable pub remote_target : Remote → ℕ → Option Bytes
remote_target r row = if is_loading r.loading then none else row_target r row

-- What happens to the remote panel: Enter on a row, a reload after a transfer, a deletion or a new
-- file, and the end of a load.
pub data Event : Type 0 where
  enter : ℕ → Event
  reload : Event
  finished : Event

unfoldable pub step : Listing → Remote → Event → Remote
step list r (enter row) = open_selected r row
step list r reload = start_remote_load r
step list r finished = finish_load list r

unfoldable pub run : Listing → Remote → List Event → Remote
run list r [] = r
run list r (e ∷ es) = run list (step list r e) es
