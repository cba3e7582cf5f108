-- ===== src/Ui/Main.antt =====
-- The main screen: the list of hosts of internal/ui/hostlist.go with its search bar, deletion, import and
-- export, and the opening and closing of the form (`save`, `closeHostForm` of internal/ui/app.go), over
-- the store in memory and the hosts file.
mod Tests
pub mod Written
pub mod Refused
pub mod InStep
pub mod Inputs
use lazyssh.Base.{ℕ, Bool, true, false, Option, none, some, List, [], ◌∷◌, Bytes, if◌then◌else◌}
use lazyssh.Base.Result.{Result, ok, err}
use lazyssh.Model.{Host, Store}
use lazyssh.Config.Storage.{Yaml, Disk, Env, ConfigError, save, import_hosts, export_hosts}
use lazyssh.Ui.Form
use lazyssh.Ui.Form.{Fields, Refusal}
use lazyssh.Ui.Hosts.{Node, folder_node, host_node, delete_host}
use lazyssh.Ui.Tree.{Edge, rebuild}

-- What has the keyboard: the tree, the search bar or the form.
pub data Focus : Type 0 where
  on_tree on_bar on_form : Focus

pub record Screen : Type 0 where
  pub store : Store
  pub disk : Disk
  pub master_pwd : Bytes
  pub tree : List Edge
  pub cursor : Option Node
  pub filter_text : Bytes
  pub searching : Bool
  pub focus : Focus

-- `nodeHost` of the current node
abbrev pub host_at : Option Node → Option Host
host_at (some (host_node h)) = some h
host_at (some (folder_node p)) = none
host_at none = none

unfoldable pub rebuilt : Screen → Screen
rebuilt m =
    let (tree, cursor) = rebuild m.store.hosts m.filter_text (host_at m.cursor) in
    record m { tree = tree; cursor = cursor }

-- What the user does, once prompts and questions are answered. A host that is added comes with its
-- new id, one that is edited with its position.
pub data Input : Type 0 where
  slash tab bar_enter escape : Input
  typed : Bytes → Input
  moved : Option Node → Input
  deletes : Input
  imports exports : Bytes → Input
  opens_form closes_form : Input
  saves_form : Option ℕ → Bytes → Fields → Input
  unlocks : Bytes → Input

-- `showSearch`
abbrev pub show_search : Screen → Screen
show_search m = record m { searching = true; focus = on_bar }

-- `focusSearch`, `focusResults`
abbrev pub focus_search : Screen → Screen
focus_search m = record m { focus = on_bar }

abbrev pub focus_results : Screen → Screen
focus_results m = record m { focus = on_tree }

-- `hideSearch`
abbrev pub hidden : Screen → Screen
hidden m = record (rebuilt (record m { searching = false; filter_text = [] })) { focus = on_tree }

abbrev pub hide_search : Screen → Screen
hide_search m = if m.searching then hidden m else m

-- `SetChangedFunc` of the search bar
abbrev pub type_filter : Bytes → Screen → Screen
type_filter text m = rebuilt (record m { filter_text = text })

-- `closeHostForm`
abbrev pub close_form : Screen → Screen
close_form m = record (rebuilt m) { focus = on_tree }

abbrev pub bar_input : Input → Screen → Screen
bar_input tab m = focus_results m
bar_input bar_enter m = focus_results m
bar_input escape m = hide_search m
bar_input (typed text) m = type_filter text m
bar_input (moved n) m = record m { cursor = n }
bar_input _ m = m

-- `doExport`
unfoldable pub do_export : Env → Bytes → Screen → Screen
do_export env path m = record m { disk = (export_hosts env m.disk path).0 }

module _ (yaml : Yaml) (env : Env) where
  -- `App.save`, whose error is only shown
  unfoldable pub persist : Screen → Screen
  persist m = record m { disk = (save yaml env m.disk m.store).0 }

  abbrev pub delete_at : Screen → Option Host → Screen
  delete_at m none = m
  delete_at m (some h) =
      rebuilt
        (persist (record m { store = record m.store { hosts = delete_host m.store.hosts h.id } }))

  -- `deleteHost`, of the host under the cursor
  unfoldable pub delete_selected : Screen → Screen
  delete_selected m = delete_at m (host_at m.cursor)

  abbrev pub imported : Screen → Store × Disk × Result ConfigError (Unit {0}) → Screen
  imported m (store, disk, ok u) = rebuilt (record m { store = store; disk = disk })
  imported m (store, disk, err e) = record m { store = store; disk = disk }

  -- `doImport`
  unfoldable pub do_import : Bytes → Screen → Screen
  do_import path m = imported m (import_hosts yaml env m.disk m.store path)

  abbrev pub form_saved : Screen → List Host × Option Refusal → Screen
  form_saved m (hosts, none) =
      close_form (persist (record m { store = record m.store { hosts = hosts } }))
  form_saved m (hosts, some r) = record m { store = record m.store { hosts = hosts } }

  abbrev pub tree_input : Input → Screen → Screen
  tree_input slash m = show_search m
  tree_input tab m = if m.searching then focus_search m else m
  tree_input escape m = hide_search m
  tree_input (moved n) m = record m { cursor = n }
  tree_input deletes m = delete_selected m
  tree_input (imports p) m = do_import p m
  tree_input (exports p) m = do_export env p m
  tree_input opens_form m = record m { focus = on_form }
  tree_input _ m = m

module _ (yaml : Yaml) (env : Env) (encrypt : Bytes → Bytes → Option Bytes) where
  -- `save` of the form
  unfoldable pub save_form : Option ℕ → Bytes → Fields → Screen → Screen
  save_form target id f m =
      form_saved yaml env m (Form.save encrypt m.master_pwd target id f m.store.hosts)

  abbrev pub form_input : Input → Screen → Screen
  form_input closes_form m = close_form m
  form_input (saves_form target id f) m = save_form target id f m
  form_input _ m = m

  abbrev pub at_focus : Focus → Input → Screen → Screen
  at_focus on_tree i m = tree_input yaml env i m
  at_focus on_bar i m = bar_input i m
  at_focus on_form i m = form_input i m

  abbrev pub with_unlock : Input → Screen → Screen
  with_unlock (unlocks pwd) m = record m { master_pwd = pwd }
  with_unlock i m = at_focus m.focus i m

  -- The connection flows set the master password; all else goes to what has the keyboard.
  unfoldable pub input : Screen → Input → Screen
  input m i = with_unlock i m

  unfoldable pub inputs : Screen → List Input → Screen
  inputs m [] = m
  inputs m (i ∷ is) = inputs (input m i) is

-- `NewApp` after `config.Load` gave the store.
unfoldable pub new_app : Store → Disk → Screen
new_app store disk = rebuilt (record {
  store = store;
  disk = disk;
  master_pwd = [];
  tree = [];
  cursor = none;
  filter_text = [];
  searching = false;
  focus = on_tree;
})
