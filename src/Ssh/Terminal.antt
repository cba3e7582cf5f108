-- ===== src/Ssh/Terminal.antt =====
-- `sshArgs` and the end of `LaunchTerminal` of internal/ssh/terminal.go.
use lazyssh.Base.{
  ℕ, Option, none, some, ◌&&◌, not, List, [], ◌∷◌, ◌++◌, Bytes, codes, ◌==◌, bytes_eq,
  if◌then◌else◌,
}
use lazyssh.Strings.Decimal.{itoa}
use lazyssh.Model.{Host, auth_type_key, effective_port, user_host}

unfoldable pub ssh_args : Host → Bytes → List Bytes
ssh_args h remote_cmd =
    let args = codes "-p" ∷ itoa (effective_port h) ∷ [] in
    let with_key =
      if h.auth_type == auth_type_key && not (h.key_path == [])
      then args ++ codes "-i" ∷ h.key_path ∷ []
      else args in
    if remote_cmd == []
    then with_key ++ user_host h ∷ []
    else with_key ++ codes "-t" ∷ user_host h ∷ remote_cmd ∷ []

-- How a run of the system's `ssh` ends: it was not started, or with its exit status.
pub data SshEnd : Type 0 where
  not_run : Bytes → SshEnd
  exited : ℕ → SshEnd

-- The error of `LaunchTerminal`: an exit status other than 0 is none.
unfoldable pub launch_error : SshEnd → Option Bytes
launch_error (not_run e) = some (codes "ssh: " ++ e)
launch_error (exited status) = none
