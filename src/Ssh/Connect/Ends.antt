-- ===== src/Ssh/Connect/Ends.antt =====
-- What a call of `Connect` of internal/ssh/sftp.go leaves open.
use lazyssh.Base.{
  Bool, true, false, Option, none, some, List, Bytes, ◌≡◌, refl, Bool-cases, inl, inr,
}
use lazyssh.Base.Result.{Result, ok, err}
use lazyssh.Model.{Host, addr}
use lazyssh.Ssh.Auth.{Method, AuthError, build_auth}
use lazyssh.Ssh.KnownHosts.{Node, KnownHostsError}
use lazyssh.Ssh.Connect.{
  Answer, trusted, unknown, mismatch, strict_callback, is_trusted, is_accepted, ConnectError, World,
  Surroundings, consents, start_sftp, redial, save_key, failed, first_failed, with_db, with_auth,
  connect,
}

-- What is open after a call, by its outcome.
abbrev pub Ends : Bool → World × Result ConnectError (Unit {0}) → Type 0
Ends agent (w, ok _) = (w.agent_open ≡ agent) × (w.ssh_open ≡ true) × (w.sftp_open ≡ true)
Ends agent (w, err e) = (w.agent_open ≡ agent) × (w.ssh_open ≡ false) × (w.sftp_open ≡ false)

abbrev Idle : Bool → World → Type 0
Idle agent w = (w.agent_open ≡ agent) × (w.ssh_open ≡ false) × (w.sftp_open ≡ false)

module _ (s : Surroundings) where
  start_sftp-Ends : (agent : Bool) (w : World) → Idle agent w → Ends agent (start_sftp s w)
  start_sftp-Ends agent w (h, g, f) = elim (Bool-cases s.net.sftp_starts) [
    | inl e ↦ rw e (h, refl, refl)
    | inr e ↦ rw e (h, refl, f)
  ]

  redial-Ends :
      (agent : Bool) (w : World) (a : Bytes) (ms : List Method)
      (r : Result KnownHostsError (Option Bytes))
      → Idle agent w
      → Ends agent (redial s w a ms r)
  redial-Ends agent w a ms (err e) h = h
  redial-Ends agent w a ms (ok none) h = h
  redial-Ends agent w a ms (ok (some db)) h =
      elim (Bool-cases (s.net.dial 1 a ms (λ k. is_accepted (s.lib.verify db a k))).connected) [
        | inl e ↦ rw e (start_sftp-Ends agent w h)
        | inr e ↦ rw e h
      ]

  save_key-Ends :
      (agent : Bool) (w : World) (a : Bytes) (ms : List Method) (r : Option Node)
      → Idle agent w
      → Ends agent (save_key s w a ms r)
  save_key-Ends agent w a ms none h = h
  save_key-Ends agent w a ms (some n) h = redial-Ends agent (record w { known_hosts = n }) a ms _ h

  failed-Ends :
      (agent : Bool) (w : World) (a : Bytes) (ms : List Method) (key : Bytes) (t : Answer)
      → Idle agent w
      → Ends agent (failed s w a ms key t)
  failed-Ends agent w a ms key trusted h = h
  failed-Ends agent w a ms key mismatch h = h
  failed-Ends agent w a ms key unknown h = elim (Bool-cases (consents s s.ask a key)) [
    | inl e ↦ rw e (save_key-Ends agent w a ms _ h)
    | inr e ↦ rw e h
  ]

  first_failed-Ends :
      (agent : Bool) (w : World) (a : Bytes) (ms : List Method) (db p : Option Bytes)
      → Idle agent w
      → Ends agent (first_failed s w a ms db p)
  first_failed-Ends agent w a ms db none h = h
  first_failed-Ends agent w a ms db (some key) h = failed-Ends agent w a ms key _ h

  with_db-Ends :
      (agent : Bool) (w : World) (a : Bytes) (ms : List Method)
      (r : Result KnownHostsError (Option Bytes))
      → Idle agent w
      → Ends agent (with_db s w a ms r)
  with_db-Ends agent w a ms (err e) h = h
  with_db-Ends agent w a ms (ok db) h =
      elim (Bool-cases
        (s.net.dial 0 a ms (λ k. is_trusted (strict_callback s.lib db a k))).connected) [
          | inl e ↦ rw e (start_sftp-Ends agent w h)
          | inr e ↦ rw e (first_failed-Ends agent w a ms db _ h)
        ]

  with_auth-Ends :
      (n : Node) (a : Bytes) (r : Bool × Result AuthError (List Method))
      → Ends r.0 (with_auth s n a r)
  with_auth-Ends n a (agent, err e) = (refl, refl, refl)
  with_auth-Ends n a (agent, ok ms) = with_db-Ends agent _ a ms _ (refl, refl, refl)

  -- After a call that returns a client the SSH and the SFTP connection are open, after one that fails
  -- both are closed. The agent's connection is open in either case where `buildAuth` left it open, so
  -- that a call which fails after it, without a client to close, leaks it.
  pub connect-Ends :
      (n : Node) (h : Host) (pwd : Bytes) → Ends (build_auth s.auth h pwd).0 (connect s n h pwd)
  unfolding connect
  connect-Ends n h pwd = with_auth-Ends n (addr h) (build_auth s.auth h pwd)
