-- ===== src/Model.antt =====
-- internal/model/host.go: a saved connection, and the store of them.
pub mod Address
pub mod Folders
pub mod Ids
pub mod Tests
use lazyssh.Base.{
  ℕ, zero, suc, Bool, List, [], ◌∷◌, ◌++◌, Bytes, codes, ◌==◌, bytes_eq, if◌then◌else◌,
}
use lazyssh.Base.Int.{ℤ, pos, negsuc}
use lazyssh.Strings.{trim, is_slash, split}
use lazyssh.Strings.Decimal.{itoa}

abbrev pub auth_type_key : Bytes
auth_type_key = codes "key"

abbrev pub auth_type_password : Bytes
auth_type_password = codes "password"

pub record Host : Type 0 where
  pub id : Bytes
  pub name : Bytes
  pub hostname : Bytes
  pub port : ℤ
  pub user : Bytes
  pub auth_type : Bytes
  pub key_path : Bytes
  pub password : Bytes
  pub folder : Bytes
  pub tags : List Bytes

pub record Store : Type 0 where
  pub version : Bytes
  pub hosts : List Host

abbrev pub new_store : Store
new_store = record { version = codes "1"; hosts = [] }

abbrev pub port_or_default : ℤ → ℕ
port_or_default (pos zero) = 22
port_or_default (pos (suc n)) = suc n
port_or_default (negsuc n) = 22

unfoldable pub effective_port : Host → ℕ
effective_port h = port_or_default h.port

unfoldable pub addr : Host → Bytes
addr h = h.hostname ++ (b':' ∷ itoa (effective_port h))

unfoldable pub user_host : Host → Bytes
user_host h = h.user ++ (b'@' ∷ h.hostname)

-- The result of `nil` and of an empty slice are alike.
unfoldable pub folder_segments : Host → List Bytes
folder_segments h =
    let cleaned = trim is_slash h.folder in if cleaned == [] then [] else split cleaned b'/'
