-- ===== src/Lss/Commands/Files.antt =====
-- The files of the daemon (cmd/lss/daemon.go), as the commands of cmd/lss/main.go look for them.
use lazyssh.Base.{
  ℕ, ◌-◌, ◌<◌, ◌≤◌, some, [], ◌∷◌, ◌++◌, Bytes, ◌≡◌, ◌≢◌, refl, ap, ◌∙◌, length, length-append,
  take, take-length-append, arith, nat_eq,
}
use lazyssh.Paths.Last.{IsExtension, stem, join_path_extended}
use lazyssh.Strings.{trim_space, is_space}
use lazyssh.Strings.Trim.{trim-append}
use lazyssh.Strings.Decimal.{
  max_int, digit_run_all, itoa-ne-nil, itoa, IsDigits, itoa-IsDigits, read_digits-itoa,
  digits-Uncut, IsDigits-head, read_digits,
}
use lazyssh.Lss.Commands.{
  sock_ext, pid_ext, sessions_dir, sock_path, pid_path, pid_file, pid_content, scan_pid,
}

sock_ext-IsExtension : IsExtension sock_ext
sock_ext-IsExtension = record { flat = omega arith; long = omega arith }

pid_ext-IsExtension : IsExtension pid_ext
pid_ext-IsExtension = record { flat = omega arith; long = omega arith }

pid_file-append : (p : Bytes) → pid_file (p ++ sock_ext) ≡ p ++ pid_ext
unfolding pid_file
pid_file-append p =
    ap (λ k. take k (p ++ sock_ext) ++ pid_ext) {x = length (p ++ sock_ext) - 5} {y = length p}
      (omega (arith, length-append p sock_ext))
    ∙ ap (λ b. b ++ pid_ext) (take-length-append p sock_ext)

-- The daemon derives the PID file's name from the socket's path by cutting five bytes off. That is
-- the path where `list` and `kill` look, whatever the home directory and the session's name are.
pub pid_file-sock_path : (home name : Bytes) → pid_file (sock_path home name) ≡ pid_path home name
unfolding sock_path pid_path
pid_file-sock_path home name =
    let d = sessions_dir home in
    rw
      (
        join_path_extended d name sock_ext sock_ext-IsExtension,
        join_path_extended d name pid_ext pid_ext-IsExtension,
      )
      (pid_file-append (stem d name))

scan_line :
    (s : Bytes) (n : ℕ)
    → s ≢ []
    → IsDigits s
    → read_digits 0 s ≡ some n
    → n ≤ max_int
    → scan_pid (s ++ 10 ∷ []) ≡ n
unfolding scan_pid trim_space
scan_line [] n given run value fits = absurd (given refl)
scan_line (c ∷ s) n given run value fits =
    rw (trim-append is_space c s 10 (digits-Uncut (c ∷ s) run) refl)
      (ground (arith, digit_run_all (c ∷ s) run, IsDigits-head c s run))

-- What the daemon writes is scanned as its process id.
pub scan_pid-pid_content : (pid : ℕ) → 0 < pid → pid ≤ max_int → scan_pid (pid_content pid) ≡ pid
unfolding scan_pid pid_content
scan_pid-pid_content pid pos h =
    scan_line (itoa pid) pid (itoa-ne-nil pid) (itoa-IsDigits pid) (read_digits-itoa pid) h
