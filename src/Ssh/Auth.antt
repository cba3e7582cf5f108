-- ===== src/Ssh/Auth.antt =====
-- `buildAuth`, `expandHome` and `IsAuthError` of internal/ssh/sftp.go.
pub mod Laws
use lazyssh.Base.{
  ℕ, Bool, true, false, not, ◌&&◌, ◌||◌, Option, none, some, List, [], ◌∷◌, ◌++◌, Bytes, codes,
  ◌==◌, bytes_eq, if◌then◌else◌, ltb, length,
}
use lazyssh.Base.Result.{Result, ok, err, ◌>>=◌}
use lazyssh.Strings.{contains, has_prefix}
use lazyssh.Paths.{join_path}
use lazyssh.Model.{Host, auth_type_key}

-- A key that `ParsePrivateKey` made, or one that the agent holds.
abbrev pub Signer : Type 0
Signer = Bytes

pub data Method : Type 0 where
  public_keys : List Signer → Method
  password_auth : Bytes → Method
  keyboard_interactive : Bytes → Method

-- What the surroundings answer: the variables HOME and SSH_AUTH_SOCK, whether the agent's socket can
-- be dialled, its signers, the files that can be read and the keys that can be parsed.
pub record AuthEnv : Type 0 where
  pub home : Bytes
  pub auth_sock : Bytes
  pub agent_answers : Bool
  pub agent_signers : Option (List Signer)
  pub read_file : Bytes → Option Bytes
  pub parse_key : Bytes → Option Signer

pub data AuthError : Type 0 where
  key_not_read : AuthError
  key_not_parsed : AuthError
  no_method : AuthError

abbrev tail : Bytes → Bytes
tail [] = []
tail (c ∷ s) = s

unfoldable pub expand_home : Bytes → Bytes → Bytes
expand_home home p =
    if ltb 1 (length p) && has_prefix p (codes "~") then join_path (home ∷ tail p ∷ []) else p

-- The agent's method and whether its connection stays open.
abbrev agent_method : Option (List Signer) → List Method × Bool
agent_method none = ([], false)
agent_method (some []) = ([], false)
agent_method (some (s ∷ ss)) = (public_keys (s ∷ ss) ∷ [], true)

unfoldable pub agent_auth : AuthEnv → List Method × Bool
agent_auth env =
    if env.auth_sock == []
    then ([], false)
    else if env.agent_answers
    then agent_method env.agent_signers
    else ([], false)

abbrev parsed : Option Signer → Result AuthError (List Method)
parsed none = err key_not_parsed
parsed (some k) = ok (public_keys (k ∷ []) ∷ [])

abbrev key_file : AuthEnv → Option Bytes → Result AuthError (List Method)
key_file env none = err key_not_read
key_file env (some content) = parsed (env.parse_key content)

unfoldable pub explicit_key : AuthEnv → Host → Result AuthError (List Method)
explicit_key env h =
    if h.auth_type == auth_type_key && not (h.key_path == [])
    then key_file env (env.read_file (expand_home env.home h.key_path))
    else ok []

abbrev pub default_key_names : List Bytes
default_key_names = codes "id_ed25519" ∷ codes "id_rsa" ∷ codes "id_ecdsa" ∷ codes "id_dsa" ∷ []

-- A default file that cannot be read or parsed is passed over.
abbrev or_none : Result AuthError (List Method) → List Method
or_none (ok ms) = ms
or_none (err e) = []

abbrev default_keys_of : AuthEnv → List Bytes → List Method
default_keys_of env [] = []
default_keys_of env (n ∷ ns) =
    or_none (key_file env (env.read_file (join_path (env.home ∷ codes ".ssh" ∷ n ∷ []))))
    ++ default_keys_of env ns

unfoldable pub default_keys : AuthEnv → Host → List Method
default_keys env h = if h.key_path == [] then default_keys_of env default_key_names else []

unfoldable pub password_methods : Bytes → List Method
password_methods pwd = if pwd == [] then [] else password_auth pwd ∷ keyboard_interactive pwd ∷ []

-- The connection to the agent, kept with the methods, is closed on each error.
abbrev nonempty : List Method → Bool → Bool × Result AuthError (List Method)
nonempty [] agent = (false, err no_method)
nonempty (m ∷ ms) agent = (agent, ok (m ∷ ms))

abbrev with_keys :
    AuthEnv
    → Host
    → Bytes
    → List Method × Bool
    → Result AuthError (List Method)
    → Bool × Result AuthError (List Method)
with_keys env h pwd (ms, agent) (err e) = (false, err e)
with_keys env h pwd (ms, agent) (ok ks) =
    nonempty (ms ++ (ks ++ (default_keys env h ++ password_methods pwd))) agent

-- Whether the agent's connection is open after the call, and the methods.
unfoldable pub build_auth : AuthEnv → Host → Bytes → Bool × Result AuthError (List Method)
build_auth env h pwd = with_keys env h pwd (agent_auth env) (explicit_key env h)

unfoldable pub is_auth_error : Option Bytes → Bool
is_auth_error none = false
is_auth_error (some msg) =
    contains msg (codes "unable to authenticate")
    || contains msg (codes "no supported methods remain")
    || contains msg (codes "no auth method")
