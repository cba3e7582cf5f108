-- ===== src/Lss/Startup.antt =====
-- How a session comes to be: `cmdNew` and `cmdAttach` of cmd/lss/main.go, and `runDaemon` of
-- cmd/lss/daemon.go up to its goroutines.
pub mod Waiting
pub mod Found
pub mod Nested
use lazyssh.Base.{
  ℕ, zero, suc, ◌+◌, Bool, true, false, Option, none, some, List, [], ◌∷◌, ◌++◌, Bytes, codes, ltb,
  length, ◌==◌, bytes_eq, if◌then◌else◌,
}
use lazyssh.Base.Result.{Result, ok, err}
use lazyssh.Strings.{has_prefix, trim_prefix}
use lazyssh.Lss.Commands.{sock_path, pid_file, pid_content, Action, main, File, remove_file}

-- A program that is started: its arguments, what is appended to the environment, and whether it
-- leads a session of its own.
pub record Launch : Type 0 where
  pub exe : Bytes
  pub arguments : List Bytes
  pub env : List Bytes
  pub setsid : Bool

unfoldable pub daemon_launch : Bytes → Bytes → Bytes → Launch
daemon_launch exe name socket = record {
  exe = exe;
  arguments = name ∷ socket ∷ [];
  env = codes "LSS_DAEMON=1" ∷ [];
  setsid = true;
}

pub data NewError : Type 0 where
  exists no_directory no_executable no_start late : NewError

-- What `cmdNew` meets: what the successive calls of `Stat` find, the milliseconds that a round of
-- the loop takes beside its sleep, and whether the other calls succeed.
pub record Surroundings : Type 0 where
  pub there : ℕ → Bool
  pub delay : ℕ → ℕ
  pub makes : Bool
  pub executable : Option Bytes
  pub starts : Bool

-- The loop until the deadline, at its `k`-th `Stat` and after `elapsed` milliseconds: the number
-- of the next `Stat`. `none` means that the fuel ran out.
unfoldable pub await : Surroundings → ℕ → ℕ → ℕ → Option ℕ
await s zero k elapsed = none
await s (suc fuel) k elapsed =
    let rest = await s fuel (suc k) (elapsed + s.delay k + 50) in
    if ltb elapsed 2000 then if s.there k then some (suc k) else rest else some k

abbrev pub checked : Surroundings → Launch → Option ℕ → Option (Result NewError Launch)
checked s launch none = none
checked s launch (some k) = some (if s.there k then ok launch else err late)

-- `cmd.Start()` and what follows it
abbrev pub start_daemon : ℕ → Surroundings → Launch → Option (Result NewError Launch)
start_daemon fuel s launch =
    if s.starts then checked s launch (await s fuel 1 0) else some (err no_start)

abbrev pub with_executable :
    ℕ → Surroundings → Bytes → Bytes → Option Bytes → Option (Result NewError Launch)
with_executable fuel s name socket none = some (err no_executable)
with_executable fuel s name socket (some exe) = start_daemon fuel s (daemon_launch exe name socket)

-- `cmdNew` before `runClient`: the daemon that was started, once its socket was seen.
unfoldable pub cmd_new : ℕ → Surroundings → Bytes → Bytes → Option (Result NewError Launch)
cmd_new fuel s home name =
    if s.there 0
    then some (err exists)
    else if s.makes
    then with_executable fuel s name (sock_path home name) s.executable
    else some (err no_directory)

-- The environment of a started program. Of several settings of a variable the last one counts.
abbrev pub environment : List Bytes → Launch → List Bytes
environment base l = base ++ l.env

abbrev pub daemon_var : Bytes
daemon_var = codes "LSS_DAEMON="

unfoldable pub setting : Option Bytes → List Bytes → Option Bytes
setting value [] = value
setting value (e ∷ es) =
    setting (if has_prefix e daemon_var then some (trim_prefix e daemon_var) else value) es

abbrev pub is_one : Option Bytes → Bool
is_one none = false
is_one (some v) = v == codes "1"

-- `os.Getenv("LSS_DAEMON") == "1"`
abbrev pub is_daemon : List Bytes → Bool
is_daemon env = is_one (setting none env)

-- What the started program does, from the environment of the one that starts it.
abbrev pub launched : List Bytes → Launch → Action
launched base l = main (is_daemon (environment base l)) l.arguments

-- `$SHELL`, or /bin/sh
unfoldable pub shell_of : Bytes → Bytes
shell_of [] = codes "/bin/sh"
shell_of (c ∷ s) = c ∷ s

pub data Effect : Type 0 where
  start_shell : Launch → Effect
  ignore_hup kill_shell : Effect
  remove listen : Bytes → Effect
  create : Bytes → Bytes → Effect

-- Whether the calls succeed that may fail, and the daemon's process id.
pub record Outcomes : Type 0 where
  pub shell_starts : Bool
  pub listens : Bool
  pub creates : Bool
  pub pid : ℕ

abbrev pub shell_launch : Bytes → Bytes → Launch
shell_launch shell name = record {
  exe = shell_of shell;
  arguments = codes "-l" ∷ [];
  env = codes "TERM=xterm-256color" ∷ (codes "LSS_SESSION=" ++ name) ∷ [];
  setsid = true;
}

unfoldable pub write_pid : Outcomes → Bytes → List Effect
write_pid o path = if o.creates then create path (pid_content o.pid) ∷ [] else []

pub data Started : Type 0 where
  no_shell no_socket panicked serving : Started

abbrev first_effects : Bytes → Bytes → Bytes → List Effect
first_effects shell name socket =
    start_shell (shell_launch shell name) ∷ ignore_hup ∷ remove socket ∷ []

-- The slice of the path is out of range where the path has less than five bytes.
abbrev with_listener : Outcomes → Bytes → Bytes → Bytes → List Effect × Started
with_listener o shell name socket =
    if ltb (length socket) 5
    then (first_effects shell name socket ++ listen socket ∷ [], panicked)
    else (first_effects shell name socket ++ listen socket ∷ write_pid o (pid_file socket), serving)

-- `runDaemon` up to the session: its effects, and how far it got. The first argument after the
-- outcomes is the value of SHELL.
unfoldable pub run_daemon : Outcomes → Bytes → Bytes → Bytes → List Effect × Started
run_daemon o shell name socket =
    if o.shell_starts
    then if o.listens
      then with_listener o shell name socket
      else (first_effects shell name socket ++ kill_shell ∷ [], no_socket)
    else ([], no_shell)

-- The effects on the files, by their paths. The socket holds nothing that can be read.
abbrev pub touched : List File → Effect → List File
touched fs (remove p) = remove_file fs p
touched fs (listen p) = record { name = p; content = none } ∷ fs
touched fs (create p bytes) = record { name = p; content = some bytes } ∷ remove_file fs p
touched fs (start_shell l) = fs
touched fs ignore_hup = fs
touched fs kill_shell = fs

unfoldable pub touch : List File → List Effect → List File
touch fs [] = fs
touch fs (e ∷ es) = touch (touched fs e) es
