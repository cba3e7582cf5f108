-- ===== src/Lss/Lifecycle/Exit.antt =====
-- How the daemon (`runDaemon` of cmd/lss/daemon.go) comes to its end.
use lazyssh.Base.{ℕ, suc, ◌+◌, ◌≤◌, Bool, false, ◌≡◌, refl, arith, if◌then◌else◌}
use lazyssh.Lss.Lifecycle.{
  Process, Closer, World, init, is_shut, Step, Run, serving, returned, waiting, reaped, told,
  unlinked, shut, socket_removed, finished,
}
use lazyssh.Lss.Lifecycle.Clean.{
  is_bound, is_finished, IsConsistent, Run-IsConsistent, Step-IsConsistent,
}

abbrev pub IsOver : World → Type 0
IsOver w = (w.process ≡ returned) × (w.socket ≡ false) × (w.pid ≡ false)

module _ (written : Bool) (a : World) where
  -- What a daemon can come to that serves at `a`.
  record IsReached (w : World) : Type 0 where
    pub count : ℕ
    pub run : Run a count w
    pub consistent : IsConsistent written w
    pub live : w.process ≡ serving

  further : (w v : World) → IsReached w → Step w v → v.process ≡ serving → IsReached v
  further w v r s h = record {
    count = suc r.count;
    run = Run.then r.run s;
    consistent = Step-IsConsistent written w v r.consistent s;
    live = h;
  }

  abbrev HasEnd : Type 0
  HasEnd = (m : ℕ) × (v : World) × Run a m v × IsOver v

  from_finished : (w : World) → IsReached w → w.closer ≡ finished → HasEnd
  unfolding is_bound is_finished is_shut
  from_finished w r e =
      let c = r.consistent in
      let over : IsOver (record w { process = returned }) =
        (refl, ground (arith, c.bound), ground (arith, c.listed)) in
      (
        suc r.count,
        record w { process = returned },
        Run.then r.run (Step.return r.live (ground arith)),
        over,
      )

  from_socket_removed : (w : World) → IsReached w → w.closer ≡ socket_removed → HasEnd
  from_socket_removed w r e =
      let v = record w { closer = finished; pid = false } in
      from_finished v (further w v r (Step.remove_pid r.live e) r.live) refl

  from_shut : (w : World) → IsReached w → w.closer ≡ shut → HasEnd
  from_shut w r e =
      let v = record w { closer = socket_removed; socket = false } in
      from_socket_removed v (further w v r (Step.remove_socket r.live e) r.live) refl

  from_unlinked : (w : World) → IsReached w → w.closer ≡ unlinked → HasEnd
  from_unlinked w r e =
      let v = record w { closer = shut } in
      from_shut v (further w v r (Step.close r.live e) r.live) refl

  from_told : (w : World) → IsReached w → w.closer ≡ told → HasEnd
  from_told w r e =
      let v = record w { closer = unlinked; socket = false } in
      from_unlinked v (further w v r (Step.unlink r.live e) r.live) refl

  from_reaped : (w : World) → IsReached w → w.closer ≡ reaped → HasEnd
  from_reaped w r e =
      let v = record w { closer = told } in
      from_told v (further w v r (Step.tell r.live e) r.live) refl

  from_waiting : (w : World) → IsReached w → w.shell ≡ false → w.closer ≡ waiting → HasEnd
  from_waiting w r gone e =
      let v = record w { closer = reaped } in
      from_reaped v (further w v r (Step.reap r.live gone e) r.live) refl

  from_any : (w : World) (c : Closer) → IsReached w → w.shell ≡ false → w.closer ≡ c → HasEnd
  from_any w Closer.waiting r gone e = from_waiting w r gone e
  from_any w Closer.reaped r gone e = from_reaped w r e
  from_any w Closer.told r gone e = from_told w r e
  from_any w Closer.unlinked r gone e = from_unlinked w r e
  from_any w Closer.shut r gone e = from_shut w r e
  from_any w Closer.socket_removed r gone e = from_socket_removed w r e
  from_any w Closer.finished r gone e = from_finished w r e

-- A daemon that serves and whose shell has exited can always come to its end from where it is:
-- `main` returns, and neither the socket nor the PID file is left.
pub Run-ends :
    (written : Bool) (n : ℕ) (w : World)
    → Run (init written) n w
    → w.process ≡ serving
    → w.shell ≡ false
    → (m : ℕ) × (v : World) × Run w m v × IsOver v
Run-ends written n w r h gone =
    let here : IsReached written w w = record {
      count = 0;
      run = Run.rest;
      consistent = Run-IsConsistent written n w r;
      live = h;
    } in
    from_any written w w w.closer here gone refl

-- What is left to do, clients aside.
abbrev duties : Closer → ℕ
duties waiting = 6
duties reaped = 5
duties told = 4
duties unlinked = 3
duties shut = 2
duties socket_removed = 1
duties finished = 0

abbrev of_process : Process → ℕ
of_process serving = 1
of_process _ = 0

abbrev of_bool : Bool → ℕ
of_bool b = if b then 1 else 0

abbrev duties_left : World → ℕ
duties_left w = of_process w.process + of_bool w.shell + of_bool w.keepalive + duties w.closer

Step-left : (w v : World) → Step w v → suc (duties_left v + w.accepted) ≤ duties_left w + v.accepted
Step-left w _ (Step.shell_exits h) = ground arith
Step-left w _ (Step.signal h) = ground arith
Step-left w _ (Step.reap h h' h'') = ground arith
Step-left w _ (Step.tell h h') = ground arith
Step-left w _ (Step.unlink h h') = ground arith
Step-left w _ (Step.close h h') = ground arith
Step-left w _ (Step.remove_socket h h') = ground arith
Step-left w _ (Step.remove_pid h h') = ground arith
Step-left w _ (Step.keepalive_ends h h' h'') = ground arith
Step-left w _ (Step.accept h h') = ground arith
Step-left w _ (Step.return h h') = ground arith

Run-left :
    (w : World) (n : ℕ) (v : World)
    → Run w n v
    → n + (duties_left v + w.accepted) ≤ duties_left w + v.accepted
Run-left w _ _ Run.rest = omega arith
Run-left w _ _ (Run.then {n} {v} {u} r s) = omega (arith, Run-left w n v r, Step-left v u s)

-- Apart from accepting clients, the daemon and what happens to it take at most nine steps: no
-- goroutine goes round without end.
pub Run-bounded : (written : Bool) (n : ℕ) (w : World) → Run (init written) n w → n ≤ 9 + w.accepted
Run-bounded written n w r = omega (arith, Run-left (init written) n w r)
