-- ===== src/Lss/Startup/Nested.antt =====
-- The helper's commands inside a session's shell (cmd/lss/daemon.go and main.go).
use lazyssh.Base.{
  true, Option, none, some, List, [], ◌∷◌, ◌++◌, Bytes, codes, ◌≡◌, refl, ap, nat_eq, bytes_eq,
  bytes_beq, if◌then◌else◌,
}
use lazyssh.Strings.{has_prefix, trim_prefix}
use lazyssh.Lss.Startup.{
  daemon_launch, shell_launch, environment, setting, is_one, is_daemon, daemon_var,
}

setting-append :
    (v : Option Bytes) (xs ys : List Bytes) → setting v (xs ++ ys) ≡ setting (setting v xs) ys
unfolding setting
setting-append v [] ys = refl
setting-append v (x ∷ xs) ys =
    setting-append (if has_prefix x daemon_var then some (trim_prefix x daemon_var) else v) xs ys

-- What `new` adds to the environment makes the started program the daemon.
pub daemon-set : (base : List Bytes) → is_daemon (base ++ codes "LSS_DAEMON=1" ∷ []) ≡ true
unfolding setting has_prefix trim_prefix bytes_beq
daemon-set base = ap (λ v. is_one v) (setting-append none base (codes "LSS_DAEMON=1" ∷ []))

-- The environment of a session's shell, from that of the daemon's starter.
abbrev pub shell_env : List Bytes → Bytes → Bytes → Bytes → Bytes → List Bytes
shell_env base exe name socket shell =
    environment (environment base (daemon_launch exe name socket)) (shell_launch shell name)
