-- ===== src/Config/Crypto.antt =====
-- internal/config/crypto.go: stored passwords, encrypted under a master password. The key derivation
-- and the authenticated cipher are a parameter, the bytes that the random source gives an argument.
pub mod RoundTrip
use lazyssh.Base.{
  ℕ, ◌+◌, ◌<◌, Bool, true, false, Option, none, some, List, [], ◌∷◌, ◌++◌, Bytes, codes, ◌≡◌,
  length, take, drop, ltb, if◌then◌else◌,
}
use lazyssh.Base.Result.{Result, ok, err, ◌>>=◌}
use lazyssh.Strings.{has_prefix, trim_prefix}
use lazyssh.Config.Base64
use lazyssh.Config.Base64.RoundTrip.{AreBytes}

-- `argon2.IDKey` at the parameters of `deriveKey`, `aes.NewCipher` and AES-GCM, as documented.
pub record Aead : Type 0 where
  pub derive_key : Bytes → Bytes → Bytes
  pub is_key : Bytes → Bool
  pub seal : Bytes → Bytes → Bytes → Bytes
  pub unseal : Bytes → Bytes → Bytes → Option Bytes
  pub key-IsKey : (pwd salt : Bytes) → is_key (derive_key pwd salt) ≡ true
  pub unseal-seal : (key nonce plain : Bytes) → unseal key nonce (seal key nonce plain) ≡ some plain
  pub sealed_long : (key nonce plain : Bytes) → 0 < length (seal key nonce plain)
  pub sealed_bytes : (key nonce plain : Bytes) → AreBytes plain → AreBytes (seal key nonce plain)

abbrev pub enc_prefix : Bytes
enc_prefix = codes "enc:"

abbrev pub salt_len : ℕ
salt_len = 16

abbrev pub nonce_len : ℕ
nonce_len = 12

pub data CryptoError : Type 0 where
  no_random : CryptoError
  bad_key : CryptoError
  bad_encoding : CryptoError
  too_short : CryptoError
  wrong_password : CryptoError

unfoldable pub is_encrypted : Bytes → Bool
is_encrypted s = has_prefix s enc_prefix

-- `io.ReadFull(rand.Reader, …)`
abbrev pub random : Option Bytes → Result CryptoError Bytes
random none = err no_random
random (some bs) = ok bs

abbrev pub new_gcm : Aead → Bytes → Result CryptoError Bytes
new_gcm aead key = if aead.is_key key then ok key else err bad_key

abbrev pub pack : Bytes → Bytes → Bytes → Bytes
pack salt nonce ct = salt ++ (nonce ++ ct)

unfoldable pub encrypt :
    Aead → Option Bytes → Option Bytes → Bytes → Bytes → Result CryptoError Bytes
encrypt aead salt_source nonce_source master plaintext = do
  salt ← random salt_source
  key ← new_gcm aead (aead.derive_key master salt)
  nonce ← random nonce_source
  ok (enc_prefix ++ Base64.encode (pack salt nonce (aead.seal key nonce plaintext)))

abbrev decoded : Option Bytes → Result CryptoError Bytes
decoded none = err bad_encoding
decoded (some bs) = ok bs

abbrev opened : Option Bytes → Result CryptoError Bytes
opened none = err wrong_password
opened (some bs) = ok bs

unfoldable pub unpack : Aead → Bytes → Bytes → Result CryptoError Bytes
unpack aead master packed =
    if ltb (length packed) (salt_len + nonce_len + 1) then err too_short else (do
      let salt = take salt_len packed
      let nonce = take nonce_len (drop salt_len packed)
      let ct = drop (salt_len + nonce_len) packed
      key ← new_gcm aead (aead.derive_key master salt)
      opened (aead.unseal key nonce ct))

unfoldable pub decrypt : Aead → Bytes → Bytes → Result CryptoError Bytes
decrypt aead master v =
    if is_encrypted v
    then decoded (Base64.decode (trim_prefix v enc_prefix)) >>= unpack aead master
    else ok v
