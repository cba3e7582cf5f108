-- ===== src/Lss/Lifecycle/Clean.antt =====
-- The files of a session along the runs of its daemon (cmd/lss/daemon.go).
use lazyssh.Base.{ℕ, Bool, true, false, ◌≡◌, refl, some, Bytes, arith, if◌then◌else◌}
use lazyssh.Base.Result.{err}
use lazyssh.Lss.Startup.{Surroundings, cmd_new, exists}
use lazyssh.Lss.Lifecycle.{
  Closer, World, init, is_shut, Step, Run, returned, waiting, reaped, told, finished,
}

-- The listener has not unlinked its socket.
unfoldable pub is_bound : Closer → Bool
is_bound waiting = true
is_bound reaped = true
is_bound told = true
is_bound _ = false

unfoldable pub is_finished : Closer → Bool
is_finished finished = true
is_finished _ = false

unfoldable pub is_reaped : Closer → Bool
is_reaped waiting = false
is_reaped _ = true

-- `written` is whether the PID file could be written.
pub record IsConsistent (written : Bool) (w : World) : Type 0 where
  pub bound : w.socket ≡ is_bound w.closer
  pub listed : w.pid ≡ (if is_finished w.closer then false else written)
  pub dead : is_reaped w.closer ≡ true → w.shell ≡ false
  pub over : w.process ≡ returned → is_shut w.closer ≡ true

pub Step-IsConsistent :
    (written : Bool) (w v : World) → IsConsistent written w → Step w v → IsConsistent written v
unfolding is_bound is_finished is_reaped is_shut
Step-IsConsistent written w _ c (Step.shell_exits h) = ground arith
Step-IsConsistent written w _ c (Step.signal h) = ground arith
Step-IsConsistent written w _ c (Step.reap h h' h'') = ground arith
Step-IsConsistent written w _ c (Step.tell h h') = ground arith
Step-IsConsistent written w _ c (Step.unlink h h') = ground arith
Step-IsConsistent written w _ c (Step.close h h') = ground arith
Step-IsConsistent written w _ c (Step.remove_socket h h') = ground arith
Step-IsConsistent written w _ c (Step.remove_pid h h') = ground arith
Step-IsConsistent written w _ c (Step.keepalive_ends h h' h'') = ground arith
Step-IsConsistent written w _ c (Step.accept h h') = ground arith
Step-IsConsistent written w _ c (Step.return h h') = ground arith

init-IsConsistent : (written : Bool) → IsConsistent written (init written)
unfolding is_bound is_finished is_reaped is_shut
init-IsConsistent written = record {
  bound = refl;
  listed = refl;
  dead = λ h. absurd (ground (arith, h));
  over = λ h. absurd (ground (arith, h));
}

pub Run-IsConsistent :
    (written : Bool) (n : ℕ) (w : World) → Run (init written) n w → IsConsistent written w
Run-IsConsistent written _ _ Run.rest = init-IsConsistent written
Run-IsConsistent written _ _ (Run.then {n} {v} {u} r s) =
    Step-IsConsistent written v u (Run-IsConsistent written n v r) s

-- As long as the shell runs, also when a signal has ended the daemon, `new` refuses the session's
-- name if it finds the socket's file as the daemon left it.
pub Run-cmd_new :
    (written : Bool) (n : ℕ) (w : World) (fuel : ℕ) (s : Surroundings) (home name : Bytes)
    → Run (init written) n w
    → w.shell ≡ true
    → s.there 0 ≡ w.socket
    → cmd_new fuel s home name ≡ some (err exists)
unfolding is_bound is_reaped cmd_new
Run-cmd_new written n w fuel s home name r h e =
    let c = Run-IsConsistent written n w r in ground (arith, c.dead, c.bound)
