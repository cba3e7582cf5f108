-- ===== src/Ui/Connecting.antt =====
-- `connectSFTPwithPwd` of internal/ui/app.go: which passwords a connection is tried with. The answers of
-- the user to the prompts are a list, none where a prompt is cancelled.
pub mod Tried
use lazyssh.Base.{
  ℕ, Bool, true, false, ◌&&◌, not, Option, none, some, List, [], ◌∷◌, ◌++◌, Bytes, ◌==◌, bytes_eq,
  if◌then◌else◌,
}
use lazyssh.Base.Result.{Result, ok, err}
use lazyssh.Model.{Host, auth_type_password}
use lazyssh.Config.Crypto.{Aead, is_encrypted, decrypt, CryptoError}

-- What `Connect` answers to a password.
pub data Reply : Type 0 where
  connected : Reply
  auth_error : Reply
  other_error : Reply

pub data Choice : Type 0 where
  use_password : Bytes → Choice
  ask_master : Choice
  not_decrypted : Choice

pub data Ending : Type 0 where
  client : Ending
  cancelled : Ending
  waiting : Ending
  shown_error : Ending

-- The master password cached after the call, the passwords tried in turn, and how it ended.
pub record Outcome : Type 0 where
  pub master_pwd : Bytes
  pub tried : List Bytes
  pub ending : Ending

abbrev decrypted : Result CryptoError Bytes → Choice
decrypted (ok p) = use_password p
decrypted (err e) = not_decrypted

unfoldable pub choose : Aead → Host → Bytes → Bytes → Choice
choose aead h master forced =
    if not (forced == [])
    then use_password forced
    else if h.auth_type == auth_type_password && not (h.password == [])
    then (if is_encrypted h.password
        then (if master == [] then ask_master else decrypted (decrypt aead master h.password))
        else use_password h.password)
    else use_password []

abbrev also_tried : Bytes → Outcome → Outcome
also_tried p o = record o { tried = p ∷ o.tried }

abbrev stop : Bytes → List Bytes → Ending → Outcome
stop master tried e = record { master_pwd = master; tried = tried; ending = e }

abbrev retry : Bytes → Bytes → (Bytes → Bytes → Bool → Outcome) → Outcome
retry master pwd again = if pwd == [] then stop master [] shown_error else again master pwd true

-- What follows a reply, with the next answer of the user, where there is one.
abbrev after_reply :
    Bytes → Bool → Reply → Option (Option Bytes) → (Bytes → Bytes → Bool → Outcome) → Outcome
after_reply master retried connected next again = stop master [] client
after_reply master retried other_error next again = stop master [] shown_error
after_reply master true auth_error next again = stop master [] shown_error
after_reply master false auth_error none again = stop master [] waiting
after_reply master false auth_error (some none) again = stop master [] cancelled
after_reply master false auth_error (some (some pwd)) again = retry master pwd again

abbrev after_choice :
    (Bytes → Reply)
    → Bytes
    → Bool
    → Choice
    → Option (Option Bytes)
    → (Bytes → Bytes → Bool → Outcome)
    → Outcome
after_choice dial master retried (use_password p) next again =
    also_tried p (after_reply master retried (dial p) next again)
after_choice dial master retried ask_master none again = stop master [] waiting
after_choice dial master retried ask_master (some none) again = stop master [] cancelled
after_choice dial master retried ask_master (some (some pwd)) again = again pwd [] false
after_choice dial master retried not_decrypted next again = stop [] [] shown_error

-- Without an answer left, a prompt waits.
unfoldable pub connect_sftp :
    Aead → (Bytes → Reply) → Host → List (Option Bytes) → Bytes → Bytes → Bool → Outcome
unfolding choose
connect_sftp aead dial h [] master forced retried =
    after_choice dial master retried (choose aead h master forced) none (λ m f r. stop m [] waiting)
connect_sftp aead dial h (a ∷ answers) master forced retried =
    let again = λ (m f : Bytes) (r : Bool). connect_sftp aead dial h answers m f r in
    after_choice dial master retried (choose aead h master forced) (some a) again
