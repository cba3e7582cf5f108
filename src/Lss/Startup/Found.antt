-- ===== src/Lss/Startup/Found.antt =====
-- The files of a started daemon (`runDaemon` and `writePID` of cmd/lss/daemon.go), where the commands
-- of cmd/lss/main.go look for them.
use lazyssh.Base.{
  ℕ, ◌<◌, ◌≤◌, true, Option, none, some, List, Bytes, ◌≡◌, arith, nat_eq, bytes_eq, bytes_beq_iff,
}
use lazyssh.Strings.Decimal.{max_int}
use lazyssh.Lss.Commands.{File, read_file, pid_path, sock_path, scan_pid}
use lazyssh.Lss.Commands.Files.{pid_file-sock_path, scan_pid-pid_content}
use lazyssh.Lss.Startup.{Outcomes, serving, run_daemon, touch, write_pid}

-- What the process id is scanned from, as `list` and `kill` do.
abbrev pub pid_in : List File → Bytes → Option ℕ
pid_in fs path = elim (read_file fs path) [ none ↦ none | some content ↦ some (scan_pid content) ]

-- A daemon that serves and could write its PID file has left its process id where `list` and `kill`
-- look for it, whatever files there were: they scan that number.
pub pid_in-run_daemon :
    (o : Outcomes) (shell home name : Bytes) (fs : List File)
    → (run_daemon o shell name (sock_path home name)).1 ≡ serving
    → o.creates ≡ true
    → 0 < o.pid
    → o.pid ≤ max_int
    → pid_in (touch fs (run_daemon o shell name (sock_path home name)).0) (pid_path home name)
      ≡ some o.pid
unfolding run_daemon touch write_pid read_file
pid_in-run_daemon o shell home name fs serves wrote pos fits = ground (
  arith,
  pid_file-sock_path home name,
  scan_pid-pid_content o.pid pos fits,
  bytes_beq_iff (pid_path home name) (pid_path home name),
)
