-- ===== src/Ui/Sessions.antt =====
-- `showSessionSelector`, `chooseSSHMode` and `openPlainSSH` of internal/ui/app.go: what is run on the
-- server.
mod Tests
pub mod Started
use lazyssh.Base.{
  ℕ, zero, suc, ◌+◌, Option, none, some, List, [], ◌∷◌, ◌++◌, Bytes, codes, get_elem?, length, ltb,
  map, ◌==◌, bytes_eq, if◌then◌else◌,
}
use lazyssh.Model.{Host}
use lazyssh.Ssh.Helper.{new_session_cmd, attach_session_cmd}
use lazyssh.Ssh.Terminal.{ssh_args}

-- What a row of the selector does: it asks for a name, or it runs a command.
pub data Picked : Type 0 where
  ask_name : Picked
  launch : Bytes → Picked

-- The rows: the first is for a new session.
unfoldable pub rows : List Bytes → List Bytes
rows sessions = codes "[+] New session" ∷ map (λ (name : Bytes). codes "  " ++ name) sessions

abbrev attached : Bytes → Option Bytes → Option Picked
attached home none = none
attached home (some name) = some (launch (attach_session_cmd home name))

unfoldable pub pick : Bytes → List Bytes → ℕ → Option Picked
pick home sessions zero = some ask_name
pick home sessions (suc i) = attached home (get_elem? sessions i)

-- The answer to the prompt for a name.
unfoldable pub name_session : Bytes → Bytes → Option Picked
name_session home name = if name == [] then none else some (launch (new_session_cmd home name))

-- The arguments of the system's `ssh`.
abbrev pub started : Host → Option Picked → Option (List Bytes)
started h none = none
started h (some ask_name) = none
started h (some (launch cmd)) = some (ssh_args h cmd)

unfoldable pub height : List Bytes → ℕ
height sessions =
    let wanted = length sessions + 5 in
    if ltb wanted 7 then 7 else if ltb 20 wanted then 20 else wanted

pub data Mode : Type 0 where
  session_mode plain_mode : Mode

-- `chooseSSHMode`, by the label of the button
unfoldable pub choose_ssh_mode : Bytes → Option Mode
choose_ssh_mode label =
    if label == codes "Sessions (lss)"
    then some session_mode
    else if label == codes "Plain SSH"
    then some plain_mode
    else none

-- `openPlainSSH`
unfoldable pub open_plain_ssh : Host → List Bytes
open_plain_ssh h = ssh_args h []
