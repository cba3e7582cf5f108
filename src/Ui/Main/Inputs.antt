-- ===== src/Ui/Main/Inputs.antt =====
-- The main screen under whatever the user does (internal/ui/hostlist.go, app.go and hostform.go).
use lazyssh.Base.{
  true, false, Option, none, some, List, [], ◌∷◌, Bytes, ◌≡◌, refl, sym, ap, subst, bytes_eq,
  bytes_beq, arith,
}
use lazyssh.Base.Result.{ok}
use lazyssh.Model.{Store}
use lazyssh.Config.Storage.{Yaml, Disk, Env, path, load, import_hosts}
use lazyssh.Ui.Form
use lazyssh.Ui.Form.{
  Fields, Refusal, new_password, open_and_write, write, opened, fill, with_password,
}
use lazyssh.Ui.Main.{
  Focus, on_tree, on_bar, on_form, Screen, Input, host_at, rebuilt, delete_selected, do_import,
  do_export, save_form, tree_input, bar_input, form_input, at_focus, with_unlock, input, inputs,
  new_app,
}
use lazyssh.Ui.Main.Written.{Takes, Fits, import-IsImported, export_hosts-Keeps}
use lazyssh.Ui.Main.Refused.{save-IsUnchanged}
use lazyssh.Ui.Main.InStep.{
  is_bar, InStep, rebuilt-InStep, close_form-InStep, hide_search-InStep, focused-InStep,
  delete_at-InStep, imported-InStep, imported-store, form_saved-InStep,
}

-- The hosts file's own path is no destination of an export.
abbrev pub IsHarmless : Env → Input → Type 0
IsHarmless env (Input.exports dest) = bytes_beq dest (path env) ≡ false
IsHarmless env _ = Unit

-- No input is harmful, and each store on the way fits on the disk and is decoded from its encoding.
abbrev pub Smooth : Yaml → Env → (Bytes → Bytes → Option Bytes) → Screen → List Input → Type 0
Smooth yaml env encrypt m [] = Unit
Smooth yaml env encrypt m (i ∷ is) =
    IsHarmless env i
    × Fits yaml (input yaml env encrypt m i).store m.disk
    × Smooth yaml env encrypt (input yaml env encrypt m i) is

module _ (yaml : Yaml) (env : Env) (encrypt : Bytes → Bytes → Option Bytes)
    (encrypts : (k t : Bytes) → (v : Bytes) × (encrypt k t ≡ some v)) where
  tree_input-InStep :
      (i : Input) (m : Screen)
      → IsHarmless env i
      → Fits yaml (tree_input yaml env i m).store m.disk
      → is_bar m.focus ≡ false
      → InStep yaml env m
      → InStep yaml env (tree_input yaml env i m)
  unfolding delete_selected do_import do_export
  tree_input-InStep Input.slash m h w f s = record {
    shown = s.shown;
    kept = s.kept;
    filtered = λ e. absurd (ground (arith, e));
    barred = λ e. refl;
  }
  tree_input-InStep Input.tab m h w f s = focused-InStep yaml env m s
  tree_input-InStep Input.escape m h w f s = hide_search-InStep yaml env m s
  tree_input-InStep (Input.moved n) m h w f s = record {
    shown = s.shown;
    kept = s.kept;
    filtered = s.filtered;
    barred = s.barred;
  }
  tree_input-InStep Input.deletes m h w f s = delete_at-InStep yaml env m (host_at m.cursor) w s
  tree_input-InStep (Input.imports p) m h w f s =
      imported-InStep yaml env m (import_hosts yaml env m.disk m.store p)
        (import-IsImported yaml env m.disk m.store p
          (subst (λ t. Fits yaml t m.disk)
            (imported-store yaml env m (import_hosts yaml env m.disk m.store p)) w)
          s.kept)
        s
  tree_input-InStep (Input.exports p) m h w f s = record {
    shown = s.shown;
    kept = export_hosts-Keeps yaml env m.disk p m.store h s.kept;
    filtered = s.filtered;
    barred = s.barred;
  }
  tree_input-InStep Input.opens_form m h w f s = record {
    shown = s.shown;
    kept = s.kept;
    filtered = s.filtered;
    barred = λ e. absurd (ground (arith, e));
  }
  tree_input-InStep _ m h w f s = s

  bar_input-InStep :
      (i : Input) (m : Screen)
      → m.searching ≡ true
      → InStep yaml env m
      → InStep yaml env (bar_input i m)
  bar_input-InStep Input.tab m f s = record {
    shown = s.shown;
    kept = s.kept;
    filtered = s.filtered;
    barred = λ e. f;
  }
  bar_input-InStep Input.bar_enter m f s = record {
    shown = s.shown;
    kept = s.kept;
    filtered = s.filtered;
    barred = λ e. f;
  }
  bar_input-InStep Input.escape m f s = hide_search-InStep yaml env m s
  bar_input-InStep (Input.typed text) m f s =
      rebuilt-InStep yaml env (record m { filter_text = text }) s.kept
        (λ e. absurd (ground (arith, e, f))) (λ e. f)
  bar_input-InStep (Input.moved n) m f s = record {
    shown = s.shown;
    kept = s.kept;
    filtered = s.filtered;
    barred = s.barred;
  }
  bar_input-InStep _ m f s = s

  form_input-InStep :
      (i : Input) (m : Screen)
      → Fits yaml (form_input yaml env encrypt i m).store m.disk
      → InStep yaml env m
      → InStep yaml env (form_input yaml env encrypt i m)
  unfolding save_form
  form_input-InStep Input.closes_form m w s = close_form-InStep yaml env m s.kept s.filtered
  form_input-InStep (Input.saves_form target id f) m w s =
      form_saved-InStep yaml env m (Form.save encrypt m.master_pwd target id f m.store.hosts)
        (save-IsUnchanged encrypt encrypts m.master_pwd target id f m.store.hosts) w s
  form_input-InStep _ m w s = s

  at_focus-InStep :
      (o : Focus) (i : Input) (m : Screen)
      → o ≡ m.focus
      → IsHarmless env i
      → Fits yaml (at_focus yaml env encrypt o i m).store m.disk
      → InStep yaml env m
      → InStep yaml env (at_focus yaml env encrypt o i m)
  at_focus-InStep on_tree i m e h w s = tree_input-InStep i m h w (ap (λ x. is_bar x) (sym e)) s
  at_focus-InStep on_bar i m e h w s =
      bar_input-InStep i m (s.barred (ap (λ x. is_bar x) (sym e))) s
  at_focus-InStep on_form i m e h w s = form_input-InStep i m w s

  with_unlock-InStep :
      (i : Input) (m : Screen)
      → IsHarmless env i
      → Fits yaml (with_unlock yaml env encrypt i m).store m.disk
      → InStep yaml env m
      → InStep yaml env (with_unlock yaml env encrypt i m)
  with_unlock-InStep (Input.unlocks pwd) m h w s = record {
    shown = s.shown;
    kept = s.kept;
    filtered = s.filtered;
    barred = s.barred;
  }
  with_unlock-InStep i m h w s = at_focus-InStep m.focus i m refl h w s

  inputs-InStep :
      (m : Screen) (is : List Input)
      → Smooth yaml env encrypt m is
      → InStep yaml env m
      → InStep yaml env (inputs yaml env encrypt m is)
  unfolding inputs input
  inputs-InStep m [] h s = s
  inputs-InStep m (i ∷ is) (h, w, more) s =
      inputs-InStep (with_unlock yaml env encrypt i m) is more (with_unlock-InStep i m h w s)

-- From the start, with the store that was loaded, on a disk where the hosts file can be written:
-- whatever the user does, as long as nothing is exported to the hosts file itself, encryption
-- succeeds, and YAML and the disk take each store on the way, the tree shown is that of the store in
-- memory under the filter, a load of the hosts file gives that store, a filter is only there while
-- the search is open, and the search bar has the keyboard only then.
pub new_app-InStep :
    (yaml : Yaml) (env : Env) (encrypt : Bytes → Bytes → Option Bytes) (store : Store) (disk : Disk)
    (is : List Input)
    → ((k t : Bytes) → (v : Bytes) × (encrypt k t ≡ some v))
    → Takes env disk
    → load yaml env disk ≡ ok store
    → Smooth yaml env encrypt (new_app store disk) is
    → InStep yaml env (inputs yaml env encrypt (new_app store disk) is)
unfolding new_app
new_app-InStep yaml env encrypt store disk is encrypts takes loaded smooth =
    let start : Screen = record {
      store = store;
      disk = disk;
      master_pwd = [];
      tree = [];
      cursor = none;
      filter_text = [];
      searching = false;
      focus = on_tree;
    } in
    inputs-InStep yaml env encrypt encrypts (rebuilt start) is smooth
      (rebuilt-InStep yaml env start (takes, loaded) (λ e. refl) (λ e. absurd (ground (arith, e))))
