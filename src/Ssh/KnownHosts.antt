-- ===== src/Ssh/KnownHosts.antt =====
-- `loadTolerantKnownHosts` and `appendKnownHost` of internal/ssh/sftp.go.
mod Tests
pub mod Appended
use lazyssh.Base.{
  ℕ, ◌*◌, Bool, false, ◌||◌, Option, none, some, List, [], ◌∷◌, ◌++◌, Bytes, codes, ◌==◌, bytes_eq,
  if◌then◌else◌, leb, length,
}
use lazyssh.Base.Result.{Result, ok, err}
use lazyssh.Strings.{trim_space, has_prefix, trim_suffix, split}

-- What the callback of `knownhosts.New` says of a key.
pub data Verdict : Type 0 where
  accepted : Verdict
  absent : Verdict
  changed : Verdict
  other_error : Verdict

-- `ParseKnownHosts` on a line, `knownhosts.New` on a file's content, its callback, `knownhosts.Line`,
-- and `FingerprintSHA256`.
pub record Library : Type 0 where
  pub line_parses : Bytes → Bool
  pub builds : Bytes → Bool
  pub verify : Bytes → Bytes → Bytes → Verdict
  pub line : Bytes → Bytes → Bytes
  pub fingerprint : Bytes → Bytes

pub data Node : Type 0 where
  missing : Node
  unreadable : Node
  file : Bytes → Node

pub data KnownHostsError : Type 0 where
  not_opened : KnownHostsError
  no_temp_file : KnownHostsError
  line_too_long : KnownHostsError
  not_built : KnownHostsError

-- The lines of `bufio.Scanner`: the last one may lack its newline, and a carriage return before a
-- newline is dropped.
abbrev pub without_last : List Bytes → List Bytes
without_last [] = []
without_last (l ∷ []) = if l == [] then [] else l ∷ []
without_last (l ∷ m ∷ ls) = l ∷ without_last (m ∷ ls)

abbrev pub strip_returns : List Bytes → List Bytes
strip_returns [] = []
strip_returns (l ∷ ls) = trim_suffix l (13 ∷ []) ∷ strip_returns ls

unfoldable pub scan_lines : Bytes → List Bytes
scan_lines s = strip_returns (without_last (split s 10))

-- The scanner's buffer holds 64 KB, the line's end included.
abbrev max_line : ℕ
max_line = 64 * 1024

abbrev any_long : List Bytes → Bool
any_long [] = false
any_long (l ∷ ls) = leb max_line (length l) || any_long ls

unfoldable pub too_long : Bytes → Bool
too_long s = any_long (split s 10)

unfoldable pub keeps : Library → Bytes → Bool
keeps lib l =
    let trimmed = trim_space l in
    trimmed == [] || has_prefix trimmed (codes "#") || lib.line_parses l

unfoldable pub valid_lines : Library → List Bytes → Bytes
unfolding keeps
valid_lines lib [] = []
valid_lines lib (l ∷ ls) = (if keeps lib l then l ++ 10 ∷ [] else []) ++ valid_lines lib ls

abbrev load_file : Library → Bool → Node → Result KnownHostsError (Option Bytes)
load_file lib temp missing = ok none
load_file lib temp unreadable = err not_opened
load_file lib temp (file s) =
    if temp
    then (if too_long s
        then err line_too_long
        else (let kept = valid_lines lib (scan_lines s) in
            if lib.builds kept then ok (some kept) else err not_built))
    else err no_temp_file

-- The content that the callback is made of, or none where there is no file.
unfoldable pub load_tolerant : Library → Bool → Node → Result KnownHostsError (Option Bytes)
load_tolerant lib temp n = load_file lib temp n

-- What happens to the file where the directory and the file can be written.
abbrev pub content : Node → Bytes
content missing = []
content unreadable = []
content (file s) = s

unfoldable pub append_known_host : Library → Bool → Node → Bytes → Bytes → Option Node
append_known_host lib can_write n host key =
    if can_write then some (file (content n ++ (lib.line host key ++ 10 ∷ []))) else none
