-- ===== src/Ui/Preparing.antt =====
-- `prepareSession` of internal/ui/app.go: from a connected client to the list of sessions.
pub mod Closing
use lazyssh.Base.{
  ℕ, Bool, true, false, Option, none, some, List, [], ◌∷◌, ◌++◌, Bytes, ◌==◌, bytes_eq,
  if◌then◌else◌,
}
use lazyssh.Base.Result.{Result, ok, err}
use lazyssh.Ssh.Helper.{
  HelperError, Digest, Remote, detect_arch, remote_home, helper_ready, upload_helper, list_sessions,
}

-- The embedded binary for an architecture, empty in a build without it; the remote commands, as they
-- run on the server's files; the decoding of the session list; the user's answer to the offer.
pub record Session : Type 0 where
  pub digest : Digest
  pub helper : Bytes → Bytes
  pub run : Remote → Bytes → Option Bytes
  pub unmarshal : Bytes → Option (List Bytes)
  pub accepts : Bool

pub data Screen : Type 0 where
  plain_shell : Screen
  offer_shell : Screen
  home_error : Screen
  back : Screen
  deploy_error : Screen
  selector : Bytes → List Bytes → Screen

-- The server's files, whether the client was closed, and what is shown.
pub record Prepared : Type 0 where
  pub remote : Remote
  pub closed : Bool
  pub screen : Screen

abbrev ended : Remote → Bool → Screen → Prepared
ended r c s = record { remote = r; closed = c; screen = s }

abbrev names : Result HelperError (List Bytes) → List Bytes
names (ok ns) = ns
names (err e) = []

abbrev select : Session → Remote → Bytes → Prepared
select s r home = ended r true (selector home (names (list_sessions s.unmarshal (s.run r) home)))

abbrev deployed : Session → Bytes → Remote × Result HelperError (Unit {0}) → Prepared
deployed s home (r, ok _) = select s r home
deployed s home (r, err e) = ended r false deploy_error

abbrev deploy : Session → Remote → Bytes → Bytes → Prepared
deploy s r home bin =
    if bin == []
    then ended r true offer_shell
    else if s.accepts
    then deployed s home (upload_helper s.digest r home bin)
    else ended r false back

abbrev with_home : Session → Remote → Bytes → Result HelperError Bytes → Prepared
with_home s r arch (err e) = ended r false home_error
with_home s r arch (ok home) =
    let bin = s.helper arch in
    if helper_ready s.digest r home bin then select s r home else deploy s r home bin

abbrev with_arch : Session → Remote → Result HelperError Bytes → Prepared
with_arch s r (err e) = ended r true plain_shell
with_arch s r (ok arch) = with_home s r arch (remote_home (s.run r))

unfoldable pub prepare_session : Session → Remote → Prepared
prepare_session s r = with_arch s r (detect_arch (s.run r))
