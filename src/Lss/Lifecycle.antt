-- ===== src/Lss/Lifecycle.antt =====
-- cmd/lss/daemon.go: `runDaemon` from the listening socket on. The goroutine that waits for the
-- shell, the keepalive and the loop that accepts clients run interleaved in any order.
mod Tests
pub mod Clean
pub mod Exit
use lazyssh.Base.{ℕ, suc, ◌+◌, Bool, true, false, ◌≡◌}

-- How the process is: `main` waits in `Accept`, or has returned, or a signal ended the process.
pub data Process : Type 0 where
  serving returned killed : Process

-- How far the goroutine got that waits for the shell. `ln.Close` unlinks the socket's file and then
-- closes the descriptor.
pub data Closer : Type 0 where
  waiting reaped told unlinked shut socket_removed finished : Closer

pub record World : Type 0 where
  pub process : Process
  pub shell : Bool
  pub closer : Closer
  pub keepalive : Bool
  pub socket : Bool
  pub pid : Bool
  pub accepted : ℕ

-- After `run_daemon` has listened; `pid` is whether the PID file could be written.
abbrev pub init : Bool → World
init pid = record {
  process = serving;
  shell = true;
  closer = waiting;
  keepalive = true;
  socket = true;
  pid = pid;
  accepted = 0;
}

-- `shellDone` is closed.
unfoldable pub is_told : Closer → Bool
is_told waiting = false
is_told reaped = false
is_told _ = true

-- `ln` is closed, and `Accept` fails.
unfoldable pub is_shut : Closer → Bool
is_shut shut = true
is_shut socket_removed = true
is_shut finished = true
is_shut _ = false

-- One call of a goroutine, or something from outside: the shell's exit, a client that connects,
-- and a signal, such as the SIGTERM of `lss kill`, that the process does not handle.
pub data Step (w : World) : World → Type 0 where
  shell_exits : w.shell ≡ true → Step w (record w { shell = false })
  signal : w.process ≡ serving → Step w (record w { process = killed })
  reap :
      w.process ≡ serving
      → w.shell ≡ false
      → w.closer ≡ waiting
      → Step w (record w { closer = reaped })
  tell : w.process ≡ serving → w.closer ≡ reaped → Step w (record w { closer = told })
  unlink :
      w.process ≡ serving
      → w.closer ≡ told
      → Step w (record w { closer = unlinked; socket = false })
  close : w.process ≡ serving → w.closer ≡ unlinked → Step w (record w { closer = shut })
  remove_socket :
      w.process ≡ serving
      → w.closer ≡ shut
      → Step w (record w { closer = socket_removed; socket = false })
  remove_pid :
      w.process ≡ serving
      → w.closer ≡ socket_removed
      → Step w (record w { closer = finished; pid = false })
  keepalive_ends :
      w.process ≡ serving
      → w.keepalive ≡ true
      → is_told w.closer ≡ true
      → Step w (record w { keepalive = false })
  accept :
      w.process ≡ serving
      → is_shut w.closer ≡ false
      → Step w (record w { accepted = suc w.accepted })
  return : w.process ≡ serving → is_shut w.closer ≡ true → Step w (record w { process = returned })

-- Runs with the number of their steps.
pub data Run (w : World) : ℕ → World → Type 0 where
  rest : Run w 0 w
  then : {n : ℕ} {v u : World} → Run w n v → Step v u → Run w (suc n) u
