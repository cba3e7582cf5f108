-- ===== src/Config/Crypto/RoundTrip.antt =====
-- `Encrypt` and then `Decrypt` of internal/config/crypto.go.
use lazyssh.Base.{
  ℕ, ◌+◌, ◌<◌, true, false, some, ◌++◌, Bytes, ◌≡◌, refl, ap, ◌∙◌, length, take, drop, ltb, arith,
  length-append, take-length-append, drop-length-append, All-append, append_assoc,
}
use lazyssh.Base.Result.{ok}
use lazyssh.Strings.{has_prefix, trim_prefix}
use lazyssh.Config.Base64
use lazyssh.Config.Base64.RoundTrip.{AreBytes, decode-encode}
use lazyssh.Config.Crypto.{
  Aead, enc_prefix, salt_len, nonce_len, is_encrypted, encrypt, decrypt, unpack, pack,
}

is_encrypted-append : (s : Bytes) → is_encrypted (enc_prefix ++ s) ≡ true
unfolding is_encrypted has_prefix
is_encrypted-append s = refl

trim_prefix-append : (s : Bytes) → trim_prefix (enc_prefix ++ s) enc_prefix ≡ s
unfolding trim_prefix has_prefix
trim_prefix-append s = refl

take-append_of_len : (n : ℕ) (a b : Bytes) → length a ≡ n → take n (a ++ b) ≡ a
take-append_of_len n a b e = ap (λ k. take k (a ++ b)) (e⁻ e) ∙ take-length-append a b
  where
    e⁻ : length a ≡ n → n ≡ length a
    e⁻ h = omega arith

drop-append_of_len : (n : ℕ) (a b : Bytes) → length a ≡ n → drop n (a ++ b) ≡ b
drop-append_of_len n a b e = ap (λ k. drop k (a ++ b)) (e⁻ e) ∙ drop-length-append a b
  where
    e⁻ : length a ≡ n → n ≡ length a
    e⁻ h = omega arith

pack_len : (salt nonce ct : Bytes) → length (salt ++ nonce) ≡ length salt + length nonce
pack_len salt nonce ct = length-append salt nonce

unpack-pack :
    (aead : Aead) (master salt nonce plain : Bytes)
    → length salt ≡ salt_len
    → length nonce ≡ nonce_len
    → unpack aead master (pack salt nonce (aead.seal (aead.derive_key master salt) nonce plain))
      ≡ ok plain
unfolding unpack
unpack-pack aead master salt nonce plain hs hn =
    let key = aead.derive_key master salt in
    let ct = aead.seal key nonce plain in
    let long : ltb (length (pack salt nonce ct)) 29 ≡ false = ground (
      arith,
      length-append salt (nonce ++ ct),
      length-append nonce ct,
      aead.sealed_long key nonce plain,
    ) in
    let at_ct : drop 28 (pack salt nonce ct) ≡ ct =
      ap (λ p. drop 28 p) {x = pack salt nonce ct} {y = (salt ++ nonce) ++ ct} (simp append_assoc)
      ∙ drop-append_of_len 28 (salt ++ nonce) ct (omega (arith, length-append salt nonce)) in
    rw
      (
        long,
        at_ct,
        take-append_of_len 16 salt (nonce ++ ct) hs,
        drop-append_of_len 16 salt (nonce ++ ct) hs,
        take-append_of_len 12 nonce ct hn,
        aead.key-IsKey master salt,
        aead.unseal-seal key nonce plain,
      )
      refl

-- Where the random source gives a salt of 16 and a nonce of 12 bytes, encryption succeeds, its result
-- is recognised as encrypted, and decryption under the same master password gives the plaintext back,
-- also a plaintext that itself starts with `enc:`.
pub decrypt-encrypt :
    (aead : Aead) (salt nonce master plain : Bytes)
    → length salt ≡ salt_len
    → length nonce ≡ nonce_len
    → AreBytes salt
    → AreBytes nonce
    → AreBytes plain
    → (v : Bytes) × (encrypt aead (some salt) (some nonce) master plain ≡ ok v)
      × (is_encrypted v ≡ true)
      × (decrypt aead master v ≡ ok plain)
decrypt-encrypt aead salt nonce master plain hs hn bs bn bp =
    let key = aead.derive_key master salt in
    let packed = pack salt nonce (aead.seal key nonce plain) in
    let fine : AreBytes packed =
      All-append (λ b. b < 256) salt _ bs
        (All-append (λ b. b < 256) nonce _ bn (aead.sealed_bytes key nonce plain bp)) in
    (
      enc_prefix ++ Base64.encode packed,
      unfold encrypt in rw (aead.key-IsKey master salt) refl,
      is_encrypted-append (Base64.encode packed),
      unfold decrypt in
          rw
            (
              is_encrypted-append (Base64.encode packed),
              trim_prefix-append (Base64.encode packed),
              decode-encode packed fine,
            )
            (unpack-pack aead master salt nonce plain hs hn),
    )
