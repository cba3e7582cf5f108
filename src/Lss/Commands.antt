-- ===== src/Lss/Commands.antt =====
-- cmd/lss/main.go: the helper's command line, its files, and the commands `new`, `list` and `kill`;
-- and the files that the daemon writes (cmd/lss/daemon.go).
pub mod Files
pub mod Listing
use lazyssh.Base.{
  ℕ, suc, ◌-◌, ◌≤◌, Bool, true, false, not, ◌&&◌, Option, none, some, List, [], ◌∷◌, ◌++◌, Bytes,
  codes, ltb, leb, length, take, ◌==◌, nat_eq, bytes_eq, if◌then◌else◌,
}
use lazyssh.Strings.{has_suffix, trim_suffix, trim_space}
use lazyssh.Strings.Decimal.{max_int, itoa, digit_run, read_digits}
use lazyssh.Paths.{join_path}

abbrev pub sock_ext : Bytes
sock_ext = codes ".sock"

abbrev pub pid_ext : Bytes
pid_ext = codes ".pid"

unfoldable pub sessions_dir : Bytes → Bytes
sessions_dir home = join_path (home ∷ codes ".lazyssh" ∷ codes "sessions" ∷ [])

unfoldable pub sock_path : Bytes → Bytes → Bytes
sock_path home name = join_path (sessions_dir home ∷ (name ++ sock_ext) ∷ [])

unfoldable pub pid_path : Bytes → Bytes → Bytes
pid_path home name = join_path (sessions_dir home ∷ (name ++ pid_ext) ∷ [])

-- `pidFile` in `runDaemon`: the last five bytes are taken for the extension.
unfoldable pub pid_file : Bytes → Bytes
pid_file socket = take (length socket - 5) socket ++ pid_ext

-- What `writePID` writes.
unfoldable pub pid_content : ℕ → Bytes
pid_content pid = itoa pid ++ 10 ∷ []

-- What `main` does with its arguments, the program's name among them.
pub data Action : Type 0 where
  daemon : Bytes → Bytes → Action
  new attach kill : Bytes → Action
  list : Action
  usage : Action
  hint : Bytes → Action

-- `requireArg`
unfoldable pub require_arg : Bytes → (Bytes → Action) → List Bytes → Action
require_arg text act [] = hint text
require_arg text act (name ∷ rest) = act name

unfoldable pub command : Bytes → List Bytes → Action
unfolding require_arg
command verb rest =
    if verb == codes "new"
    then require_arg (codes "lss new <name>") new rest
    else if verb == codes "attach"
    then require_arg (codes "lss attach <name>") attach rest
    else if verb == codes "a"
    then require_arg (codes "lss attach <name>") attach rest
    else if verb == codes "list"
    then list
    else if verb == codes "ls"
    then list
    else if verb == codes "kill"
    then require_arg (codes "lss kill <name>") kill rest
    else usage

abbrev arguments : List Bytes → Action
arguments [] = usage
arguments (verb ∷ rest) = command verb rest

-- The first argument is whether LSS_DAEMON is 1; the list is what follows the program's name.
unfoldable pub main : Bool → List Bytes → Action
unfolding command
main true (name ∷ socket ∷ []) = daemon name socket
main env args = arguments args

-- A file of the sessions directory; `none` for contents that cannot be read.
pub record File : Type 0 where
  pub name : Bytes
  pub content : Option Bytes

unfoldable pub read_file : List File → Bytes → Option Bytes
read_file [] name = none
read_file (f ∷ fs) name = let rest = read_file fs name in if f.name == name then f.content else rest

unfoldable pub remove_file : List File → Bytes → List File
remove_file [] name = []
remove_file (f ∷ fs) name =
    let rest = remove_file fs name in if f.name == name then rest else f ∷ rest

abbrev in_range : Option ℕ → ℕ
in_range none = 0
in_range (some n) = if leb n max_int then n else 0

abbrev number_of : Bytes → ℕ
number_of [] = 0
number_of (c ∷ s) = in_range (read_digits 0 (digit_run (c ∷ s)))

abbrev unsigned : Bytes → ℕ
unsigned [] = 0
unsigned (c ∷ s) = if c == b'-' then 0 else if c == b'+' then number_of s else number_of (c ∷ s)

-- `Sscanf("%d")` of the trimmed contents, where the callers treat what is not positive alike: 0
-- stands for a failed scan, and for zero and the negative numbers.
unfoldable pub scan_pid : Bytes → ℕ
scan_pid content = unsigned (trim_space content)

-- One entry of the loop of `cmdList`: the session that it adds, and the files after it.
unfoldable pub list_entry : (ℕ → Bool) → List File → Bytes → Option Bytes × List File
list_entry alive fs entry =
    let name = trim_suffix entry pid_ext in
    if has_suffix entry pid_ext
    then (elim (read_file fs entry) [
      | none ↦ (none, fs)
      | some content ↦
          let pid = scan_pid content in
          if pid == 0
          then (none, fs)
          else if alive pid
          then (some name, fs)
          else (none, remove_file (remove_file fs entry) (name ++ sock_ext))
    ])
    else (none, fs)

abbrev prepend : Option Bytes → List Bytes → List Bytes
prepend none names = names
prepend (some n) names = n ∷ names

unfoldable pub list_entries : (ℕ → Bool) → List File → List Bytes → List Bytes × List File
list_entries alive fs [] = ([], fs)
list_entries alive fs (entry ∷ entries) =
    let (found, fs') = list_entry alive fs entry in
    let (names, fs'') = list_entries alive fs' entries in (prepend found names, fs'')

abbrev pub names_of : List File → List Bytes
names_of [] = []
names_of (f ∷ fs) = f.name ∷ names_of fs

-- `cmdList` in a directory that can be read: the entries are read once, before the loop.
unfoldable pub list_sessions : (ℕ → Bool) → List File → List Bytes × List File
unfolding list_entries
list_sessions alive fs = list_entries alive fs (names_of fs)

pub data Killed : Type 0 where
  not_found no_pid : Killed
  signalled : ℕ → Killed

-- `cmdKill`
unfoldable pub kill_session : List File → Bytes → Killed
kill_session fs name = elim (read_file fs (name ++ pid_ext)) [
  | none ↦ not_found
  | some content ↦ let pid = scan_pid content in if pid == 0 then no_pid else signalled pid
]
