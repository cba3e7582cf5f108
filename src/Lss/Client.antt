-- ===== src/Lss/Client.antt =====
-- cmd/lss/client.go: the two loops of an attached client and the report of the terminal's size.
use lazyssh.Base.{
  ℕ, zero, suc, ◌/◌, ◌%◌, ◌^◌, Bool, true, false, Option, none, some, List, [], ◌∷◌, ◌++◌, Bytes,
  ltb, length, ◌==◌, nat_eq, if◌then◌else◌,
}
use lazyssh.Base.Result.{ok, err}
use lazyssh.Lss.Conn.{Conn}
use lazyssh.Lss.Frame.{f_data, f_winch, f_detach, f_error, write_frame, read_frame, ReadError}

abbrev pub detach_key : ℕ
detach_key = 0x1c

-- How the loop from the server to the local screen ends: by a failing read, or by the server's
-- message.
pub data Ending : Type 0 where
  lost : ReadError → Ending
  rejected : Bytes → Ending

-- An empty payload, the keepalive, is not written.
abbrev pub shown : Bytes → Bytes
shown p = if ltb 0 (length p) then p else []

-- What the loop writes to standard output, and how it ends. Each round reads a frame from what
-- the connection still delivers; `none` means that the fuel ran out.
unfoldable pub receive : ℕ → Bytes → Bytes × Option Ending
receive zero r = ([], none)
receive (suc fuel) r = elim (read_frame r) [
  | err e ↦ ([], some (lost e))
  | ok (typ, p, r') ↦
      let rest = receive fuel r' in
      if typ == f_data
      then (shown p ++ rest.0, rest.1)
      else if typ == f_error
      then ([], some (rejected p))
      else rest
]

-- How the loop from the keyboard ends.
pub data InputEnd : Type 0 where
  detached input_closed write_failed : InputEnd

-- `for i := 0; i < n; i++ { if buf[i] == detachKey … }`
unfoldable pub has_detach_key : Bytes → Bool
has_detach_key [] = false
has_detach_key (b ∷ bs) = let rest = has_detach_key bs in if b == detach_key then true else rest

-- The chunks are what the successive reads of standard input return, before one fails.
unfoldable pub type_in : Conn → List Bytes → Conn × InputEnd
type_in c [] = (c, input_closed)
type_in c (chunk ∷ chunks) =
    let (c', sent) = write_frame c f_data chunk in
    let rest = type_in c' chunks in
    if has_detach_key chunk
    then ((write_frame c f_detach []).0, detached)
    else if sent
    then rest
    else (c', write_failed)

-- `sendWinch` at a terminal of `w` columns and `h` rows.
unfoldable pub winch_payload : ℕ → ℕ → Bytes
winch_payload w h = (h / 2 ^ 8 % 256) ∷ (h % 256) ∷ (w / 2 ^ 8 % 256) ∷ (w % 256) ∷ []

unfoldable pub send_winch : Conn → ℕ → ℕ → Conn
send_winch c w h = (write_frame c f_winch (winch_payload w h)).0

pub data ClientEnd : Type 0 where
  no_connection no_raw_mode waiting : ClientEnd
  finished : Option Bytes → ClientEnd

-- The first of the two loops that ends makes `runClient` return; the server's is looked at first.
abbrev selected : Option Ending → InputEnd → ClientEnd
selected (some (lost e)) i = finished none
selected (some (rejected p)) i = finished (some p)
selected none detached = finished none
selected none input_closed = waiting
selected none write_failed = waiting

-- `runClient`, by whether it is connected and the terminal in raw mode, and by how its loops have
-- ended. The loop from the keyboard only counts where the user has detached.
unfoldable pub run_client : Bool → Bool → Option Ending → InputEnd → ClientEnd
run_client connected raw server keyboard =
    if connected then if raw then selected server keyboard else no_raw_mode else no_connection

-- `cmdAttach`: whether it ends with an error; `cmdNew` only prints it.
unfoldable pub cmd_attach : ClientEnd → Bool
cmd_attach no_connection = true
cmd_attach no_raw_mode = true
cmd_attach waiting = false
cmd_attach (finished none) = false
cmd_attach (finished (some p)) = true
