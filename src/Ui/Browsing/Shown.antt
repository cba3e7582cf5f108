-- ===== src/Ui/Browsing/Shown.antt =====
-- What the keys of internal/ui/filebrowser.go act on, at every moment of its use.
use lazyssh.Base.{
  ℕ, zero, suc, Bool, true, false, Option, none, some, List, [], ◌∷◌, Bytes, ◌≡◌, refl, get_elem?,
  if◌then◌else◌,
}
use lazyssh.Paths.{join_path, dir}
use lazyssh.Ui.Browser.{
  Entry, Local, Listing, load_local, listed, open_local_row, enter_local, start_remote_load, step,
  enter, reload, finished,
}
use lazyssh.Ui.Browser.Panels.{Synced, step-Synced}
use lazyssh.Ui.Actions.{
  Side, on_local, on_remote, Panels, Request, Finish, settle, switch_panel, changed_side, Changed,
  reloaded, left_changes, right_changes, none_changes,
}
use lazyssh.Ui.Actions.Keys.{Key, Command, bind_keys, press}
use lazyssh.Ui.Actions.About.{IsAbout}
use lazyssh.Ui.Actions.Target.{press-IsAbout}
use lazyssh.Ui.Browsing.{new_file_browser, on_command, open_active, Happening, happen, browse}

-- The left panel shows the directory it stands in.
abbrev IsHonest : Local → Type 0
IsHonest p = p.local_dir ≡ p.local_path_str

listed-IsHonest :
    (p : Local) (o : Option (List Entry))
    → (es : List Entry) × (o ≡ some es)
    → IsHonest (listed p o)
listed-IsHonest p o (es, e) = rw e refl

if-IsHonest : (b : Bool) (x y : Local) → IsHonest x → IsHonest y → IsHonest (if b then x else y)
if-IsHonest true x y hx hy = hx
if-IsHonest false x y hx hy = hy

-- Both panels show where they stand.
abbrev InOrder : Listing → Panels → Type 0
InOrder list p = IsHonest p.left × Synced list p.right

module _ (read list : Listing) (reads : (d : Bytes) → (es : List Entry) × (read d ≡ some es)) where
  load_local-IsHonest : (p : Local) → IsHonest (load_local read p)
  unfolding load_local
  load_local-IsHonest p = listed-IsHonest p (read p.local_dir) (reads p.local_dir)

  enter_local-IsHonest :
      (p : Local) (o : Option Entry) → IsHonest p → IsHonest (enter_local read p o)
  enter_local-IsHonest p none h = h
  enter_local-IsHonest p (some e) h =
      let q : Local = record p { local_dir = join_path (p.local_dir ∷ e.name ∷ []) } in
      if-IsHonest e.is_dir (load_local read q) p (load_local-IsHonest q) h

  open_local_row-IsHonest :
      (p : Local) (row : ℕ) → IsHonest p → IsHonest (open_local_row read p row)
  unfolding open_local_row
  open_local_row-IsHonest p zero h = load_local-IsHonest (record p { local_dir = dir p.local_dir })
  open_local_row-IsHonest p (suc i) h = enter_local-IsHonest p (get_elem? p.local_files i) h

  module _ (lists : (d : Bytes) → (es : List Entry) × (list d ≡ some es)) where
    reloaded-InOrder :
        (p : Panels) (c : Changed) → InOrder list p → InOrder list (reloaded read p c)
    reloaded-InOrder p left_changes (h, s) = (load_local-IsHonest p.left, s)
    reloaded-InOrder p right_changes (h, s) =
        (h, unfold step in step-Synced list lists p.right reload s)
    reloaded-InOrder p none_changes o = o

    settle-InOrder :
        (p : Panels) (r : Request) (f : Finish) → InOrder list p → InOrder list (settle read p r f)
    unfolding settle
    settle-InOrder p (Request.edit_local a) f o = reloaded-InOrder p left_changes o
    settle-InOrder p r Finish.cancelled o = o
    settle-InOrder p r Finish.failed o = o
    settle-InOrder p r Finish.finished o = reloaded-InOrder p (changed_side r) o

    open_active-InOrder :
        (s : Side) (p : Panels) → InOrder list p → InOrder list (open_active read s p)
    open_active-InOrder on_local p (h, s) = (open_local_row-IsHonest p.left p.left_row h, s)
    open_active-InOrder on_remote p (h, s) =
        (h, unfold step in step-Synced list lists p.right (enter p.right_row) s)

    switch_panel-InOrder : (p : Panels) → InOrder list p → InOrder list (switch_panel p)
    unfolding switch_panel
    switch_panel-InOrder p o = o

    on_command-InOrder :
        (p : Panels) (c : Option Command) → InOrder list p → InOrder list (on_command read p c)
    on_command-InOrder p (some Command.switching) o = switch_panel-InOrder p o
    on_command-InOrder p (some Command.opening) o = open_active-InOrder p.active p o
    on_command-InOrder p _ o = o

    happen-InOrder :
        (p : Panels) (h : Happening) → InOrder list p → InOrder list (happen read list p h)
    unfolding happen
    happen-InOrder p (Happening.moved on_local row) o = o
    happen-InOrder p (Happening.moved on_remote row) o = o
    happen-InOrder p (Happening.pressed k) o = on_command-InOrder p (bind_keys k) o
    happen-InOrder p (Happening.ended r f) o = settle-InOrder p r f o
    happen-InOrder p Happening.loaded (h, s) =
        (h, unfold step in step-Synced list lists p.right finished s)

    browse-InOrder :
        (p : Panels) (hs : List Happening) → InOrder list p → InOrder list (browse read list p hs)
    unfolding browse
    browse-InOrder p [] o = o
    browse-InOrder p (h ∷ hs) o = browse-InOrder (happen read list p h) hs (happen-InOrder p h o)

  new_file_browser-InOrder : (wd home : Bytes) → InOrder list (new_file_browser read wd home)
  unfolding new_file_browser start_remote_load
  new_file_browser-InOrder wd home =
      (load_local-IsHonest (record { local_dir = wd; local_path_str = wd; local_files = [] }), refl)

-- In a browser opened anywhere, where all directories can be listed, after whatever keys, calls that
-- ended and loads, in whatever order: when no load runs, what any key asks for concerns an entry
-- that a row shows, in the directory that is shown above it, or the name that was typed there; and
-- the recursive calls are those on directories.
pub browse-IsAbout :
    (read list : Listing) (wd home name : Bytes) (hs : List Happening) (k : Key)
    → ((d : Bytes) → (es : List Entry) × (read d ≡ some es))
    → ((d : Bytes) → (es : List Entry) × (list d ≡ some es))
    → (browse read list (new_file_browser read wd home) hs).right.loading ≡ none
    → let p = browse read list (new_file_browser read wd home) hs in
      IsAbout p.left.local_path_str p.right.remote_path_str name p (press p name k)
browse-IsAbout read list wd home name hs k reads lists idle =
    let start = new_file_browser read wd home in
    let (h, s) =
      browse-InOrder read list reads lists start hs
        (new_file_browser-InOrder read list reads wd home) in
    press-IsAbout list (browse read list start hs) name k h s idle
