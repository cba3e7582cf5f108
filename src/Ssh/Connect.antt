-- ===== src/Ssh/Connect.antt =====
-- `Connect` and `Close` of internal/ssh/sftp.go: the host key's verification, with trust on first use.
pub mod Trust
pub mod Ends
use lazyssh.Base.{
  ℕ, Bool, true, false, ◌&&◌, Option, none, some, List, [], ◌∷◌, ◌++◌, Bytes, if◌then◌else◌, ◌≡◌,
}
use lazyssh.Base.Result.{Result, ok, err}
use lazyssh.Model.{Host, addr}
use lazyssh.Ssh.Auth.{AuthEnv, Method, AuthError, build_auth}
use lazyssh.Ssh.KnownHosts
use lazyssh.Ssh.KnownHosts.{
  Verdict, accepted, absent, changed, other_error, Library, Node, load_tolerant, append_known_host,
}

-- One call of `ssh.Dial`: the key that the callback was called with, where the handshake came so
-- far, and whether a connection was made.
pub record Dialled : Type 0 where
  pub presented : Option Bytes
  pub connected : Bool

-- `ssh.Dial` and `sftp.NewClient`. A connection is made only where the callback was called with the
-- server's key and accepted it.
pub record Network : Type 0 where
  pub dial : ℕ → Bytes → List Method → (Bytes → Bool) → Dialled
  pub sftp_starts : Bool
  pub dial-checked :
      (n : ℕ) (a : Bytes) (ms : List Method) (accept : Bytes → Bool)
      → (dial n a ms accept).connected ≡ true
      → (k : Bytes) × ((dial n a ms accept).presented ≡ some k) × (accept k ≡ true)

-- What the callback answers: it takes the key, it fails and marks the host as unknown, or it fails.
pub data Answer : Type 0 where
  trusted : Answer
  unknown : Answer
  mismatch : Answer

abbrev pub answer_of : Verdict → Answer
answer_of accepted = trusted
answer_of absent = unknown
answer_of changed = mismatch
answer_of other_error = unknown

unfoldable pub strict_callback : Library → Option Bytes → Bytes → Bytes → Answer
strict_callback lib none host key = unknown
strict_callback lib (some db) host key = answer_of (lib.verify db host key)

abbrev pub is_trusted : Answer → Bool
is_trusted trusted = true
is_trusted unknown = false
is_trusted mismatch = false

abbrev pub is_accepted : Verdict → Bool
is_accepted accepted = true
is_accepted absent = false
is_accepted changed = false
is_accepted other_error = false

pub data ConnectError : Type 0 where
  auth_failed : AuthError → ConnectError
  known_hosts_not_loaded : ConnectError
  not_trusted : ConnectError
  known_hosts_not_saved : ConnectError
  known_hosts_empty : ConnectError
  not_connected : ConnectError
  no_sftp : ConnectError

-- The connections held, and the known hosts file.
pub record World : Type 0 where
  pub known_hosts : Node
  pub agent_open : Bool
  pub ssh_open : Bool
  pub sftp_open : Bool

pub record Surroundings : Type 0 where
  pub auth : AuthEnv
  pub lib : Library
  pub net : Network
  -- A temporary file can be made; the known hosts file can be written.
  pub temp : Bool
  pub can_write : Bool
  -- `onUnknownHost`, where it is not nil.
  pub ask : Option (Bytes → Bytes → Bool)

module _ (s : Surroundings) where
  abbrev pub consents : Option (Bytes → Bytes → Bool) → Bytes → Bytes → Bool
  consents none host key = false
  consents (some f) host key = f host (s.lib.fingerprint key)

  -- The SSH connection is made; the SFTP session on it may fail.
  abbrev pub start_sftp : World → World × Result ConnectError (Unit {0})
  start_sftp w =
      if s.net.sftp_starts
      then (record w { ssh_open = true; sftp_open = true }, ok tt)
      else (record w { ssh_open = false }, err no_sftp)

  abbrev pub after_dial : World → Dialled → World × Result ConnectError (Unit {0})
  after_dial w d = if d.connected then start_sftp w else (w, err not_connected)

  abbrev pub redial :
      World
      → Bytes
      → List Method
      → Result KnownHosts.KnownHostsError (Option Bytes)
      → World × Result ConnectError (Unit {0})
  redial w a ms (err e) = (w, err known_hosts_not_loaded)
  redial w a ms (ok none) = (w, err known_hosts_empty)
  redial w a ms (ok (some db)) =
      after_dial w (s.net.dial 1 a ms (λ k. is_accepted (s.lib.verify db a k)))

  abbrev pub save_key :
      World → Bytes → List Method → Option Node → World × Result ConnectError (Unit {0})
  save_key w a ms none = (w, err known_hosts_not_saved)
  save_key w a ms (some n) =
      redial (record w { known_hosts = n }) a ms (load_tolerant s.lib s.temp n)

  abbrev pub ask_user : World → Bytes → List Method → Bytes → World × Result ConnectError (Unit {0})
  ask_user w a ms key =
      if consents s.ask a key
      then save_key w a ms (append_known_host s.lib s.can_write w.known_hosts a key)
      else (w, err not_trusted)

  -- A failed dial, by what the callback answered to the key, where it was called.
  abbrev pub failed :
      World → Bytes → List Method → Bytes → Answer → World × Result ConnectError (Unit {0})
  failed w a ms key trusted = (w, err not_connected)
  failed w a ms key unknown = ask_user w a ms key
  failed w a ms key mismatch = (w, err not_connected)

  abbrev pub first_failed :
      World
      → Bytes
      → List Method
      → Option Bytes
      → Option Bytes
      → World × Result ConnectError (Unit {0})
  first_failed w a ms db none = (w, err not_connected)
  first_failed w a ms db (some key) = failed w a ms key (strict_callback s.lib db a key)

  abbrev pub first_dial :
      World → Bytes → List Method → Option Bytes → Dialled → World × Result ConnectError (Unit {0})
  first_dial w a ms db d = if d.connected then start_sftp w else first_failed w a ms db d.presented

  abbrev pub with_db :
      World
      → Bytes
      → List Method
      → Result KnownHosts.KnownHostsError (Option Bytes)
      → World × Result ConnectError (Unit {0})
  with_db w a ms (err e) = (w, err known_hosts_not_loaded)
  with_db w a ms (ok db) =
      first_dial w a ms db (s.net.dial 0 a ms (λ k. is_trusted (strict_callback s.lib db a k)))

  abbrev pub with_auth :
      Node → Bytes → Bool × Result AuthError (List Method) → World × Result ConnectError (Unit {0})
  with_auth n a (agent, err e) = (
    record { known_hosts = n; agent_open = agent; ssh_open = false; sftp_open = false },
    err (auth_failed e),
  )
  with_auth n a (agent, ok ms) =
      with_db (record { known_hosts = n; agent_open = agent; ssh_open = false; sftp_open = false })
        a ms (load_tolerant s.lib s.temp n)

  -- The world after the call, and its error: `ok` is a client that holds the world's connections.
  unfoldable pub connect : Node → Host → Bytes → World × Result ConnectError (Unit {0})
  connect n h pwd = with_auth n (addr h) (build_auth s.auth h pwd)

unfoldable pub close : World → World
close w = record w { agent_open = false; ssh_open = false; sftp_open = false }
