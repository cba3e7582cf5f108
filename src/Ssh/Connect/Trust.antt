-- ===== src/Ssh/Connect/Trust.antt =====
-- The keys that `Connect` of internal/ssh/sftp.go rests on.
use lazyssh.Base.{
  Bool, true, false, Option, none, some, List, [], Bytes, ◌≡◌, refl, sym, ap, ◌∙◌, arith,
  Bool-cases, inl, inr,
}
use lazyssh.Base.Result.{Result, ok, err}
use lazyssh.Model.{Host, addr}
use lazyssh.Ssh.Auth.{Method, AuthError, build_auth}
use lazyssh.Ssh.KnownHosts.{
  Verdict, accepted, absent, changed, other_error, Node, KnownHostsError, load_tolerant,
  append_known_host,
}
use lazyssh.Ssh.Connect.{
  Dialled, Answer, trusted, unknown, mismatch, strict_callback, answer_of, is_trusted, is_accepted,
  ConnectError, not_connected, World, Surroundings, consents, start_sftp, redial, save_key,
  ask_user, failed, first_failed, with_db, with_auth, connect,
}

-- The methods of a call of `buildAuth`, none where it failed.
abbrev pub methods : Bool × Result AuthError (List Method) → List Method
methods (agent, ok ms) = ms
methods (agent, err e) = []

module _ (s : Surroundings) where
  abbrev pub first : Bytes → List Method → Option Bytes → Dialled
  first a ms db = s.net.dial 0 a ms (λ k. is_trusted (strict_callback s.lib db a k))

  abbrev pub second : Bytes → List Method → Bytes → Dialled
  second a ms db = s.net.dial 1 a ms (λ k. is_accepted (s.lib.verify db a k))

  -- Why a connection to the address is trusted, with the known hosts file before and after.
  pub data Verified (n : Node) (a : Bytes) (ms : List Method) (after : Node) : Type 0 where
    known :
        (db key : Bytes)
        → load_tolerant s.lib s.temp n ≡ ok (some db)
        → (first a ms (some db)).presented ≡ some key
        → s.lib.verify db a key ≡ accepted
        → after ≡ n
        → Verified n a ms after
    approved :
        (db : Option Bytes) (key : Bytes) (db' key' : Bytes)
        → load_tolerant s.lib s.temp n ≡ ok db
        → (first a ms db).presented ≡ some key
        → strict_callback s.lib db a key ≡ unknown
        → consents s s.ask a key ≡ true
        → append_known_host s.lib s.can_write n a key ≡ some after
        → load_tolerant s.lib s.temp after ≡ ok (some db')
        → (second a ms db').presented ≡ some key'
        → s.lib.verify db' a key' ≡ accepted
        → Verified n a ms after

  accepted_verdict : (v : Verdict) → is_accepted v ≡ true → v ≡ accepted
  accepted_verdict accepted e = refl
  accepted_verdict absent e = cc
  accepted_verdict changed e = cc
  accepted_verdict other_error e = cc

  trusted_verdict : (v : Verdict) → is_trusted (answer_of v) ≡ true → v ≡ accepted
  trusted_verdict accepted e = refl
  trusted_verdict absent e = cc
  trusted_verdict changed e = cc
  trusted_verdict other_error e = cc

  trusted_db :
      (db : Option Bytes) (a key : Bytes)
      → is_trusted (strict_callback s.lib db a key) ≡ true
      → (d : Bytes) × (db ≡ some d) × (s.lib.verify d a key ≡ accepted)
  unfolding strict_callback
  trusted_db none a key e = cc
  trusted_db (some d) a key e = (d, refl, trusted_verdict _ e)

  first-Verified :
      (n : Node) (a : Bytes) (ms : List Method) (db : Option Bytes) (after : Node)
      → load_tolerant s.lib s.temp n ≡ ok db
      → (first a ms db).connected ≡ true
      → after ≡ n
      → Verified n a ms after
  first-Verified n a ms db after loaded c same =
      let (key, p, t) =
        s.net.dial-checked 0 a ms (λ k. is_trusted (strict_callback s.lib db a k)) c in
      let (d, e, v) = trusted_db db a key t in
      known d key (loaded ∙ ap (λ x. ok x) e) (ap (λ x. (first a ms x).presented) (sym e) ∙ p) v
        same

  -- A step that ends with a client is one of those that `Verified` describes.
  abbrev Success : World × Result ConnectError (Unit {0}) → (Node → Type 0) → Type 0
  Success (w, err e) P = Unit {0}
  Success (w, ok _) P = P w.known_hosts

  start_sftp-Success :
      (w : World) (P : Node → Type 0) → P w.known_hosts → Success (start_sftp s w) P
  start_sftp-Success w P h = elim (Bool-cases s.net.sftp_starts) [
    | inl e ↦ rw e h
    | inr e ↦ rw e tt
  ]

  module _ (n : Node) (a : Bytes) (ms : List Method) (db : Option Bytes) (key : Bytes)
      (loaded : load_tolerant s.lib s.temp n ≡ ok db) (shown : (first a ms db).presented ≡ some key)
      (new : strict_callback s.lib db a key ≡ unknown)
      (yes_said : consents s s.ask a key ≡ true) where
    redial-Success :
        (w : World) (r : Result KnownHostsError (Option Bytes))
        → append_known_host s.lib s.can_write n a key ≡ some w.known_hosts
        → load_tolerant s.lib s.temp w.known_hosts ≡ r
        → Success (redial s w a ms r) (Verified n a ms)
    redial-Success w (err e) saved l = tt
    redial-Success w (ok none) saved l = tt
    redial-Success w (ok (some db')) saved l = elim (Bool-cases (second a ms db').connected) [
      | inr e ↦ rw e tt
      | inl e ↦
          let (key', p, t) =
            s.net.dial-checked 1 a ms (λ k. is_accepted (s.lib.verify db' a k)) e in
          rw e (
            start_sftp-Success w (Verified n a ms)
              (approved db key db' key' loaded shown new yes_said saved l p (accepted_verdict _ t)))
    ]

    save_key-Success :
        (w : World) (r : Option Node)
        → append_known_host s.lib s.can_write n a key ≡ r
        → Success (save_key s w a ms r) (Verified n a ms)
    save_key-Success w none saved = tt
    save_key-Success w (some m) saved = redial-Success (record w { known_hosts = m }) _ saved refl

  ask_user-Success :
      (n : Node) (a : Bytes) (ms : List Method) (db : Option Bytes) (key : Bytes) (w : World)
      → load_tolerant s.lib s.temp n ≡ ok db
      → (first a ms db).presented ≡ some key
      → strict_callback s.lib db a key ≡ unknown
      → w.known_hosts ≡ n
      → Success (ask_user s w a ms key) (Verified n a ms)
  ask_user-Success n a ms db key w loaded shown new same =
      elim (Bool-cases (consents s s.ask a key)) [
        | inr e ↦ rw e tt
        | inl e ↦ rw e (
            save_key-Success n a ms db key loaded shown new e w _
              (ap (λ m. append_known_host s.lib s.can_write m a key) (sym same)))
      ]

  failed-Success :
      (n : Node) (a : Bytes) (ms : List Method) (db : Option Bytes) (key : Bytes) (w : World)
      (t : Answer)
      → load_tolerant s.lib s.temp n ≡ ok db
      → (first a ms db).presented ≡ some key
      → strict_callback s.lib db a key ≡ t
      → w.known_hosts ≡ n
      → Success (failed s w a ms key t) (Verified n a ms)
  failed-Success n a ms db key w trusted loaded shown new same = tt
  failed-Success n a ms db key w mismatch loaded shown new same = tt
  failed-Success n a ms db key w unknown loaded shown new same =
      ask_user-Success n a ms db key w loaded shown new same

  first_failed-Success :
      (n : Node) (a : Bytes) (ms : List Method) (db : Option Bytes) (w : World) (p : Option Bytes)
      → load_tolerant s.lib s.temp n ≡ ok db
      → (first a ms db).presented ≡ p
      → w.known_hosts ≡ n
      → Success (first_failed s w a ms db p) (Verified n a ms)
  first_failed-Success n a ms db w none loaded shown same = tt
  first_failed-Success n a ms db w (some key) loaded shown same =
      failed-Success n a ms db key w _ loaded shown refl same

  with_db-Success :
      (n : Node) (a : Bytes) (ms : List Method) (w : World)
      (r : Result KnownHostsError (Option Bytes))
      → load_tolerant s.lib s.temp n ≡ r
      → w.known_hosts ≡ n
      → Success (with_db s w a ms r) (Verified n a ms)
  with_db-Success n a ms w (err e) loaded same = tt
  with_db-Success n a ms w (ok db) loaded same = elim (Bool-cases (first a ms db).connected) [
    | inl e ↦ rw e (
        start_sftp-Success w (Verified n a ms)
          (first-Verified n a ms db w.known_hosts loaded e same))
    | inr e ↦ rw e (first_failed-Success n a ms db w _ loaded refl same)
  ]

  with_auth-Success :
      (n : Node) (a : Bytes) (r : Bool × Result AuthError (List Method))
      → Success (with_auth s n a r) (Verified n a (methods r))
  with_auth-Success n a (agent, err e) = tt
  with_auth-Success n a (agent, ok ms) = with_db-Success n a ms _ _ refl refl

  success :
      (out : World × Result ConnectError (Unit {0})) (P : Node → Type 0)
      → Success out P
      → out.1 ≡ ok tt
      → P out.0.known_hosts
  success (w, err e) P h is_ok = cc
  success (w, ok _) P h is_ok = h

  -- A client is returned only over a connection to a server that showed a key which the known hosts
  -- file holds for the address: it was there, and the file is unchanged, or the host was unknown, the
  -- user consented to the key shown first, and the file is the old one with the line of that key.
  pub connect-Verified :
      (n : Node) (h : Host) (pwd : Bytes)
      → (connect s n h pwd).1 ≡ ok tt
      → Verified n (addr h) (methods (build_auth s.auth h pwd)) (connect s n h pwd).0.known_hosts
  unfolding connect
  connect-Verified n h pwd e =
      success (with_auth s n (addr h) (build_auth s.auth h pwd))
        (Verified n (addr h) (methods (build_auth s.auth h pwd)))
        (with_auth-Success n (addr h) (build_auth s.auth h pwd)) e

  refused :
      (a : Bytes) (ms : List Method) (db key : Bytes)
      → (first a ms (some db)).presented ≡ some key
      → s.lib.verify db a key ≡ changed
      → (first a ms (some db)).connected ≡ false
  refused a ms db key shown v = elim (Bool-cases (first a ms (some db)).connected) [
    | inr e ↦ e
    | inl e ↦
        let (key', p, t) =
          s.net.dial-checked 0 a ms (λ k. is_trusted (strict_callback s.lib (some db) a k)) e in
        unfold strict_callback in ground (arith, shown, p, t, v)
  ]

  -- Where the known hosts file holds another key for the address than the server shows, the call
  -- fails, whatever the user would have said, and the file is unchanged.
  pub connect_changed :
      (n : Node) (h : Host) (pwd : Bytes) (agent : Bool) (ms : List Method) (db key : Bytes)
      → build_auth s.auth h pwd ≡ (agent, ok ms)
      → load_tolerant s.lib s.temp n ≡ ok (some db)
      → (first (addr h) ms (some db)).presented ≡ some key
      → s.lib.verify db (addr h) key ≡ changed
      → let (after, error) = connect s n h pwd in
        (error ≡ err not_connected) × (after.known_hosts ≡ n)
  connect_changed n h pwd agent ms db key auth loaded shown v =
      let e : strict_callback s.lib (some db) (addr h) key ≡ mismatch =
        unfold strict_callback in rw v refl in
      unfold connect in rw (auth, loaded, refused (addr h) ms db key shown v, shown, e) (refl, refl)
