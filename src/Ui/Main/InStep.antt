-- ===== src/Ui/Main/InStep.antt =====
-- What the main screen shows, what is in memory and what is on disk (internal/ui/hostlist.go, app.go and
-- hostform.go over internal/config/config.go).
use lazyssh.Base.{
  Bool, true, false, Option, none, some, List, [], ◌≡◌, refl, sym, ◌∙◌, ap, subst, bytes_eq,
  if◌then◌else◌, arith,
}
use lazyssh.Base.Result.{Result, ok, err}
use lazyssh.Model.{Host, Store}
use lazyssh.Config.Storage.{Yaml, Disk, Env, ConfigError, save}
use lazyssh.Ui.Form.{Refusal}
use lazyssh.Ui.Hosts.{delete_host}
use lazyssh.Ui.Tree.{build, rebuild}
use lazyssh.Ui.Main.{
  Focus, on_tree, on_bar, on_form, Screen, rebuilt, focus_search, hidden, hide_search, close_form,
  persist, delete_at, imported, form_saved,
}
use lazyssh.Ui.Main.Written.{Keeps, Fits, save-Keeps, IsImported}
use lazyssh.Ui.Main.Refused.{IsUnchanged}

abbrev pub is_bar : Focus → Bool
is_bar on_bar = true
is_bar on_tree = false
is_bar on_form = false

pub record InStep (yaml : Yaml) (env : Env) (m : Screen) : Type 0 where
  pub shown : m.tree ≡ build m.store.hosts m.filter_text
  pub kept : Keeps yaml env m.disk m.store
  pub filtered : m.searching ≡ false → m.filter_text ≡ []
  pub barred : is_bar m.focus ≡ true → m.searching ≡ true

if-InStep :
    {yaml : Yaml} {env : Env} (b : Bool) (x y : Screen)
    → (b ≡ true → InStep yaml env x)
    → (b ≡ false → InStep yaml env y)
    → InStep yaml env (if b then x else y)
if-InStep true x y hx hy = hx refl
if-InStep false x y hx hy = hy refl

module _ (yaml : Yaml) (env : Env) where
  rebuilt-shown : (m : Screen) → (rebuilt m).tree ≡ build m.store.hosts m.filter_text
  unfolding rebuilt rebuild
  rebuilt-shown m = refl

  pub rebuilt-InStep :
      (m : Screen)
      → Keeps yaml env m.disk m.store
      → (m.searching ≡ false → m.filter_text ≡ [])
      → (is_bar m.focus ≡ true → m.searching ≡ true)
      → InStep yaml env (rebuilt m)
  unfolding rebuilt rebuild
  rebuilt-InStep m k f b = record { shown = refl; kept = k; filtered = f; barred = b }

  pub close_form-InStep :
      (m : Screen)
      → Keeps yaml env m.disk m.store
      → (m.searching ≡ false → m.filter_text ≡ [])
      → InStep yaml env (close_form m)
  unfolding rebuilt rebuild
  close_form-InStep m k f = record {
    shown = refl;
    kept = k;
    filtered = f;
    barred = λ e. absurd (ground (arith, e));
  }

  pub hide_search-InStep : (m : Screen) → InStep yaml env m → InStep yaml env (hide_search m)
  unfolding rebuilt rebuild
  hide_search-InStep m s =
      if-InStep m.searching (hidden m) m
        (λ _. record {
          shown = refl;
          kept = s.kept;
          filtered = λ e. refl;
          barred = λ e. absurd (ground (arith, e));
        })
        (λ _. s)

  pub focused-InStep :
      (m : Screen) → InStep yaml env m → InStep yaml env (if m.searching then focus_search m else m)
  focused-InStep m s =
      if-InStep m.searching (focus_search m) m
        (λ e. record { shown = s.shown; kept = s.kept; filtered = s.filtered; barred = λ _. e })
        (λ _. s)

  pub delete_at-InStep :
      (m : Screen) (o : Option Host)
      → Fits yaml (delete_at yaml env m o).store m.disk
      → InStep yaml env m
      → InStep yaml env (delete_at yaml env m o)
  unfolding persist rebuilt rebuild
  delete_at-InStep m none f s = s
  delete_at-InStep m (some h) f s =
      let store = record m.store { hosts = delete_host m.store.hosts h.id } in
      rebuilt-InStep (record m { store = store; disk = (save yaml env m.disk store).0 })
        (save-Keeps yaml env m.disk store s.kept.0 f) s.filtered s.barred

  pub imported-InStep :
      (m : Screen) (r : Store × Disk × Result ConfigError (Unit {0}))
      → IsImported yaml env m.store r
      → InStep yaml env m
      → InStep yaml env (imported yaml env m r)
  imported-InStep m (store, disk, ok u) k s =
      rebuilt-InStep (record m { store = store; disk = disk }) k s.filtered s.barred
  imported-InStep m (store, disk, err e) (k, same) s = record {
    shown = s.shown ∙ ap (λ t. build t.hosts m.filter_text) (sym same);
    kept = k;
    filtered = s.filtered;
    barred = s.barred;
  }

  pub form_saved-InStep :
      (m : Screen) (r : List Host × Option Refusal)
      → IsUnchanged m.store.hosts r
      → Fits yaml (form_saved yaml env m r).store m.disk
      → InStep yaml env m
      → InStep yaml env (form_saved yaml env m r)
  unfolding persist rebuilt rebuild
  form_saved-InStep m (hosts, none) u f s =
      let store = record m.store { hosts = hosts } in
      close_form-InStep (record m { store = store; disk = (save yaml env m.disk store).0 })
        (save-Keeps yaml env m.disk store s.kept.0 f) s.filtered
  form_saved-InStep m (hosts, some x) same f s =
      let store : Store = record m.store { hosts = hosts } in
      let e : m.store ≡ store = ap (λ l. record m.store { hosts = l }) (sym same) in
      subst (λ t. InStep yaml env (record m { store = t })) e s

  pub imported-store :
      (m : Screen) (r : Store × Disk × Result ConfigError (Unit {0}))
      → (imported yaml env m r).store ≡ r.0
  unfolding rebuilt rebuild
  imported-store m (store, disk, ok u) = refl
  imported-store m (store, disk, err e) = refl
