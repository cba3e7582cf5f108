-- ===== src/Lss/Daemon.antt =====
-- cmd/lss/daemon.go: what a client's frames do to the terminal.
pub mod Keys
pub mod Winch
use Prim.Native.Nat.{bit_or}
use lazyssh.Base.{
  ℕ, zero, suc, ◌+◌, ◌*◌, ◌%◌, ◌^◌, Option, none, some, List, [], ◌∷◌, ◌++◌, Bytes, length, get_or,
  ◌==◌, nat_eq, if◌then◌else◌,
}
use lazyssh.Base.Result.{Result, ok, err}
use lazyssh.Lss.Frame.{f_data, f_winch, f_detach, read_frame, ReadError}

-- What reaches the pseudo-terminal.
pub data Effect : Type 0 where
  keys : Bytes → Effect
  resize : ℕ → ℕ → Effect

pub data Ending : Type 0 where
  lost : ReadError → Ending
  detached : Ending

-- `uint16(b[i])<<8 | uint16(b[i+1])`
unfoldable pub word : Bytes → ℕ → ℕ
word p i = bit_or (get_or p i 0 * 2 ^ 8) (get_or p (suc i) 0)

-- A dummy size first, one column wider in `uint16`, so that the size changes.
unfoldable pub winch : Bytes → List Effect
winch p =
    if length p == 4
    then resize (word p 0) ((word p 2 + 1) % 2 ^ 16) ∷ resize (word p 0) (word p 2) ∷ []
    else []

-- The loop of `handleClient`; `none` means that the fuel ran out.
unfoldable pub handle : ℕ → Bytes → List Effect × Option Ending
handle zero r = ([], none)
handle (suc fuel) r = elim (read_frame r) [
  | err e ↦ ([], some (lost e))
  | ok (typ, p, r') ↦
      let rest = handle fuel r' in
      if typ == f_data
      then (keys p ∷ rest.0, rest.1)
      else if typ == f_winch
      then (winch p ++ rest.0, rest.1)
      else if typ == f_detach
      then ([], some detached)
      else rest
]
