-- ===== src/Ui/Browser/Panels.antt =====
-- The panels of internal/ui/filebrowser.go: what is shown, and what the rows stand for.
use lazyssh.Base.{
  ℕ, zero, suc, Bool, true, false, Option, none, some, List, [], ◌∷◌, Bytes, get_elem?, ◌≡◌, refl,
  sym, subst, ap, ◌∙◌, Bool-cases, inl, inr, if◌then◌else◌,
}
use lazyssh.Paths.{join_path}
use lazyssh.Ui.Browser.{
  Entry, Local, Remote, Listing, load_local, open_local_row, local_target, child, is_loading,
  start_remote_load, finish_load, finish, arrived, enter_remote, open_remote_row, open_selected,
  remote_parent, Event, enter, reload, finished, step, run,
}

-- Where no load runs, the panel shows the listing of its directory; a load that runs lists it.
abbrev pub SyncedAt : Listing → Remote → Option Bytes → Type 0
SyncedAt list r none =
    (r.remote_path_str ≡ r.remote_dir) × (list r.remote_dir ≡ some r.remote_files)
SyncedAt list r (some d) = d ≡ r.remote_dir

abbrev pub Synced : Listing → Remote → Type 0
Synced list r = SyncedAt list r r.loading

module _ (list : Listing) where
  if-Synced :
      (b : Bool) (x y : Remote)
      → (b ≡ true → Synced list x)
      → (b ≡ false → Synced list y)
      → Synced list (if b then x else y)
  if-Synced true x y hx hy = hx refl
  if-Synced false x y hx hy = hy refl

  idle_loading : (l : Option Bytes) → is_loading l ≡ false → l ≡ none
  idle_loading none e = refl
  idle_loading (some d) e = cc

  start_remote_load-Synced : (r : Remote) → r.loading ≡ none → Synced list (start_remote_load r)
  unfolding start_remote_load
  start_remote_load-Synced r e =
      if-Synced (is_loading r.loading) r (record r { loading = some r.remote_dir })
        (λ busy. let idle : is_loading r.loading ≡ false = ap (λ l. is_loading l) e in cc)
        (λ idle. refl)

  reload-Synced : (r : Remote) → Synced list r → Synced list (start_remote_load r)
  unfolding start_remote_load
  reload-Synced r s =
      if-Synced (is_loading r.loading) r (record r { loading = some r.remote_dir }) (λ busy. s)
        (λ idle. refl)

  enter_remote-Synced :
      (r : Remote) (e : Option Entry)
      → r.loading ≡ none
      → Synced list r
      → Synced list (enter_remote r e)
  enter_remote-Synced r none idle s = s
  enter_remote-Synced r (some e) idle s = elim (Bool-cases e.is_dir) [
    | inl d ↦
        rw d (start_remote_load-Synced (record r { remote_dir = child r.remote_dir e.name }) idle)
    | inr d ↦ rw d s
  ]

  row-Synced :
      (r : Remote) (row : ℕ)
      → r.loading ≡ none
      → Synced list r
      → Synced list (open_remote_row r row)
  unfolding open_remote_row
  row-Synced r zero idle s =
      start_remote_load-Synced (record r { remote_dir = remote_parent r.remote_dir }) idle
  row-Synced r (suc i) idle s = enter_remote-Synced r (get_elem? r.remote_files i) idle s

  select-Synced : (r : Remote) (row : ℕ) → Synced list r → Synced list (open_selected r row)
  unfolding open_selected
  select-Synced r row s =
      if-Synced (is_loading r.loading) r (open_remote_row r row) (λ busy. s)
        (λ idle. row-Synced r row (idle_loading r.loading idle) s)

  module _ (lists : (d : Bytes) → (es : List Entry) × (list d ≡ some es)) where
    finish-Synced :
        (r : Remote) (l : Option Bytes)
        → r.loading ≡ l
        → Synced list r
        → Synced list (finish list r l)
    finish-Synced r none idle s = s
    finish-Synced r (some d) busy s =
        let (es, e) = lists d in
        let here : d ≡ r.remote_dir = subst (λ l. SyncedAt list r l) busy s in
        subst (λ o. Synced list (arrived r d o)) (sym e) (here, ap (λ p. list p) (sym here) ∙ e)

    pub step-Synced : (r : Remote) (e : Event) → Synced list r → Synced list (step list r e)
    unfolding step finish_load
    step-Synced r (enter row) s = select-Synced r row s
    step-Synced r reload s = reload-Synced r s
    step-Synced r finished s = finish-Synced r r.loading refl s

    -- Where the server lists every directory, whatever rows are entered and whatever reloads are asked
    -- for, at whatever moment the background loads end: a load that runs is that of the panel's
    -- directory, and where none runs, the panel shows that directory and its listing.
    pub run-Synced : (r : Remote) (es : List Event) → Synced list r → Synced list (run list r es)
    unfolding run
    run-Synced r [] s = s
    run-Synced r (e ∷ es) s = run-Synced (step list r e) es (step-Synced r e s)

-- Entering a local directory that cannot be listed leaves the old listing and the old path shown, but
-- the rows stand for paths in the new directory: deleting, viewing or editing a row acts on another
-- file than the one shown.
pub open_local_row-folder :
    (read : Listing) (p : Local) (i j : ℕ) (e shown : Entry)
    → get_elem? p.local_files i ≡ some e
    → e.is_dir ≡ true
    → get_elem? p.local_files j ≡ some shown
    → read (join_path (p.local_dir ∷ e.name ∷ [])) ≡ none
    → let after = open_local_row read p (suc i) in
      (after.local_path_str ≡ p.local_path_str)
      × (after.local_files ≡ p.local_files)
      × (local_target after (suc j)
          ≡ some (join_path (join_path (p.local_dir ∷ e.name ∷ []) ∷ shown.name ∷ [])))
unfolding open_local_row load_local local_target
open_local_row-folder read p i j e shown here folder there r =
    rw (here, folder) (rw (r, there) (refl, refl, refl))
