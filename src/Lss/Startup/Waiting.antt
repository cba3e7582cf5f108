-- ===== src/Lss/Startup/Waiting.antt =====
-- The loop of `cmdNew` (cmd/lss/main.go) that waits for the daemon's socket.
use lazyssh.Base.{
  ℕ, zero, suc, ◌+◌, ◌*◌, ◌≤◌, Bool, true, false, Option, none, some, List, Bytes, ◌≡◌, refl, sym,
  ap, ◌∙◌, ltb, if◌then◌else◌, arith,
}
use lazyssh.Lss.Startup.Nested.{daemon-set}
use lazyssh.Base.Result.{Result, ok, err}
use lazyssh.Lss.Commands.{main, daemon, sock_path}
use lazyssh.Lss.Startup.{
  Launch, daemon_launch, NewError, Surroundings, await, cmd_new, launched, exists, no_directory,
  no_start, checked, start_daemon, with_executable,
}

abbrev IsReturned {ℓ} : {A : Type ℓ} → Option A → Type ℓ
IsReturned {A = A} o = (a : A) × (o ≡ some a)

if-IsReturned :
    {A : Type 0} (b : Bool) (x y : Option A)
    → (b ≡ true → IsReturned x)
    → (b ≡ false → IsReturned y)
    → IsReturned (if b then x else y)
if-IsReturned true x y hx hy = hx refl
if-IsReturned false x y hx hy = hy refl

-- Every round sleeps 50 ms, so the time left bounds the rounds left.
await-IsReturned :
    (s : Surroundings) (fuel k elapsed : ℕ)
    → 2000 ≤ 50 * fuel + elapsed
    → IsReturned (await s (suc fuel) k elapsed)
unfolding await
await-IsReturned s zero k elapsed h =
    if-IsReturned (ltb elapsed 2000) (if s.there k then some (suc k) else none) (some k)
      (λ e. absurd (ground arith)) (λ _. (k, refl))
await-IsReturned s (suc fuel) k elapsed h =
    let rest = await s (suc fuel) (suc k) (elapsed + s.delay k + 50) in
    if-IsReturned (ltb elapsed 2000) (if s.there k then some (suc k) else rest) (some k)
      (λ _.
        if-IsReturned (s.there k) (some (suc k)) rest (λ _. (suc k, refl))
          (λ _. await-IsReturned s fuel (suc k) (elapsed + s.delay k + 50) (omega arith)))
      (λ _. (k, refl))

checked-IsReturned :
    (s : Surroundings) (l : Launch) (o : Option ℕ) → IsReturned o → IsReturned (checked s l o)
checked-IsReturned s l o (n, e) = rw e (_, refl)

start_daemon-IsReturned : (s : Surroundings) (l : Launch) → IsReturned (start_daemon 41 s l)
start_daemon-IsReturned s l =
    if-IsReturned s.starts (checked s l (await s 41 1 0)) (some (err no_start))
      (λ _. checked-IsReturned s l (await s 41 1 0) (await-IsReturned s 40 1 0 (omega arith)))
      (λ _. (_, refl))

with_executable-IsReturned :
    (s : Surroundings) (name socket : Bytes) (o : Option Bytes)
    → IsReturned (with_executable 41 s name socket o)
with_executable-IsReturned s name socket none = (_, refl)
with_executable-IsReturned s name socket (some exe) =
    start_daemon-IsReturned s (daemon_launch exe name socket)

-- However long the other calls take, `cmdNew` has its answer after at most 41 rounds.
pub cmd_new-returns :
    (s : Surroundings) (home name : Bytes)
    → (r : Result NewError Launch) × (cmd_new 41 s home name ≡ some r)
unfolding cmd_new
cmd_new-returns s home name =
    let opened = with_executable 41 s name (sock_path home name) s.executable in
    if-IsReturned (s.there 0) (some (err exists))
      (if s.makes then opened else some (err no_directory)) (λ _. (_, refl))
      (λ _.
        if-IsReturned s.makes opened (some (err no_directory))
          (λ _. with_executable-IsReturned s name (sock_path home name) s.executable)
          (λ _. (_, refl)))

abbrev IsSeen : Surroundings → Launch → Launch → Type 0
IsSeen s l l' = (l ≡ l') × ((k : ℕ) × (s.there k ≡ true))

checked-IsSeen :
    (s : Surroundings) (l l' : Launch) (o : Option ℕ) → checked s l o ≡ some (ok l') → IsSeen s l l'
checked-IsSeen s l l' none e = absurd (ground arith)
checked-IsSeen s l l' (some k) e = (ground arith, (k, ground arith))

with_executable-IsSeen :
    (fuel : ℕ) (s : Surroundings) (name socket : Bytes) (o : Option Bytes) (l' : Launch)
    → with_executable fuel s name socket o ≡ some (ok l')
    → (exe : Bytes) × IsSeen s (daemon_launch exe name socket) l'
with_executable-IsSeen fuel s name socket none l' e = absurd (ground arith)
with_executable-IsSeen fuel s name socket (some exe) l' e =
    (exe, checked-IsSeen s (daemon_launch exe name socket) l' (await s fuel 1 0) (ground arith))

launched-main :
    (base : List Bytes) (exe name socket : Bytes)
    → launched base (daemon_launch exe name socket) ≡ daemon name socket
unfolding daemon_launch main
launched-main base exe name socket = rw (daemon-set base) refl

-- When `new` goes on to attach, no session of the name was there before, a look found the
-- socket, and the process that was started is the daemon of the session's name and socket.
pub cmd_new-main :
    (fuel : ℕ) (s : Surroundings) (base : List Bytes) (home name : Bytes) (l : Launch)
    → cmd_new fuel s home name ≡ some (ok l)
    → (s.there 0 ≡ false)
      × (launched base l ≡ daemon name (sock_path home name))
      × ((k : ℕ) × (s.there k ≡ true))
unfolding cmd_new
cmd_new-main fuel s base home name l e =
    let sp = sock_path home name in
    let (exe, (launch, seen)) =
      with_executable-IsSeen fuel s name sp s.executable l (ground arith) in
    (ground arith, ap (λ k. launched base k) (sym launch) ∙ launched-main base exe name sp, seen)
