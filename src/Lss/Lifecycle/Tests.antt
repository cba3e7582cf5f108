-- ===== src/Lss/Lifecycle/Tests.antt =====
-- The theorems about the start and the end of a session (cmd/lss) at concrete inputs, and small runs.
use lazyssh.Paths.{join_path, clean, spell, push}
use lazyssh.Strings.{has_prefix, join, split}
use lazyssh.Base.{bytes_beq, ℕ, true, false, some, [], ◌∷◌, codes, ◌≡◌, refl, arith, ltb}
use lazyssh.Base.Result.{Result, ok, err}
use lazyssh.Lss.Commands.{daemon, sock_path, pid_path, sessions_dir, File}
use lazyssh.Lss.Startup.{
  Launch, NewError, Surroundings, Outcomes, cmd_new, launched, daemon_launch, run_daemon, touch,
  late, exists, await, serving,
}
use lazyssh.Lss.Startup.Waiting.{cmd_new-returns, cmd_new-main}
use lazyssh.Lss.Startup.Found.{pid_in, pid_in-run_daemon}
use lazyssh.Lss.Lifecycle.{World, init, Step, Run, returned, killed, is_shut, Closer}
use lazyssh.Lss.Lifecycle.Clean.{Run-cmd_new}
use lazyssh.Lss.Lifecycle.Exit.{IsOver, Run-ends}

-- The socket is there from the third look on.
abbrev surroundings : Surroundings
surroundings = record {
  there = λ k. ltb 2 k;
  delay = λ k. 1;
  makes = true;
  executable = some (codes "/lss");
  starts = true;
}

abbrev launch : Launch
launch = record {
  exe = codes "/lss";
  arguments = codes "web" ∷ sock_path (codes "/h") (codes "web") ∷ [];
  env = codes "LSS_DAEMON=1" ∷ [];
  setsid = true;
}

new_attaches : cmd_new 41 surroundings (codes "/h") (codes "web") ≡ some (ok launch)
unfolding cmd_new await daemon_launch
new_attaches = refl

new_too_late :
    cmd_new 41 (record surroundings { there = λ k. false }) (codes "/h") (codes "web")
    ≡ some (err late)
unfolding cmd_new await
new_too_late = refl

cmd_new-returns_example :
    (r : Result NewError Launch) × (cmd_new 41 surroundings (codes "/h") (codes "web") ≡ some r)
cmd_new-returns_example = cmd_new-returns surroundings (codes "/h") (codes "web")

cmd_new-main_example :
    (surroundings.there 0 ≡ false)
    × (launched [] launch ≡ daemon (codes "web") (sock_path (codes "/h") (codes "web")))
    × ((k : ℕ) × (surroundings.there k ≡ true))
cmd_new-main_example =
    cmd_new-main 41 surroundings [] (codes "/h") (codes "web") launch new_attaches

abbrev outcomes : Outcomes
outcomes = record { shell_starts = true; listens = true; creates = true; pid = 4711 }

serves : (run_daemon outcomes [] (codes "web") (sock_path (codes "/h") (codes "web"))).1 ≡ serving
unfolding run_daemon sock_path sessions_dir join_path bytes_beq clean spell has_prefix join split
    push
serves = refl

pid_in-run_daemon_example :
    pid_in
      (touch [] (run_daemon outcomes [] (codes "web") (sock_path (codes "/h") (codes "web"))).0)
      (pid_path (codes "/h") (codes "web"))
    ≡ some 4711
pid_in-run_daemon_example =
    pid_in-run_daemon outcomes [] (codes "/h") (codes "web") [] serves refl (omega arith)
      (omega arith)

-- `lss attach notes` in the shell of the session web, where the directory has a file notes.
abbrev notes : File
notes = record { name = codes "notes"; content = some (codes "text") }

-- A signal ends the daemon while the shell runs.
abbrev signalled : World
signalled = record (init true) { process = killed }

signalled_run : Run (init true) 1 signalled
signalled_run = Run.then Run.rest (Step.signal refl)

Run-cmd_new_example :
    cmd_new 41 (record surroundings { there = λ k. true }) (codes "/h") (codes "web")
    ≡ some (err exists)
Run-cmd_new_example =
    Run-cmd_new true 1 signalled 41 (record surroundings { there = λ k. true }) (codes "/h")
      (codes "web") signalled_run refl refl

-- The shell has exited.
abbrev left_alone : World
left_alone = record (init true) { shell = false }

left_alone_run : Run (init true) 1 left_alone
left_alone_run = Run.then Run.rest (Step.shell_exits refl)

Run-ends_example : (m : ℕ) × (v : World) × Run left_alone m v × IsOver v
Run-ends_example = Run-ends true 1 left_alone left_alone_run refl refl

-- `main` returns as soon as `Accept` fails, and the process ends before its PID file is removed.
abbrev early : World
early = record {
  process = returned;
  shell = false;
  closer = Closer.shut;
  keepalive = true;
  socket = false;
  pid = true;
  accepted = 0;
}

early_run : Run (init true) 6 early
unfolding is_shut
early_run =
    Run.then
      (Run.then
        (Run.then
          (Run.then (Run.then left_alone_run (Step.reap refl refl refl)) (Step.tell refl refl))
          (Step.unlink refl refl))
        (Step.close refl refl))
      (Step.return refl refl)
