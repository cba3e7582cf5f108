-- ===== src/Config/Tests.antt =====
-- The theorems about internal/config at concrete stores, disks and passwords.
use lazyssh.Base.{
  ℕ, ◌%◌, true, Option, none, some, List, [], ◌∷◌, ◌++◌, Bytes, codes, ◌≡◌, refl, length, replicate,
  ◌==◌, nat_eq, bytes_eq, bytes_beq, if◌then◌else◌, arith,
}
use lazyssh.Base.Int.{pos}
use lazyssh.Base.Result.{ok, err}
use lazyssh.Model.{Host, Store}
use lazyssh.Config.Base64.{encode, decode, letter}
use lazyssh.Config.Base64.RoundTrip.{decode-encode}
use lazyssh.Config.Crypto.{Aead, is_encrypted, encrypt, decrypt}
use lazyssh.Config.Crypto.RoundTrip.{decrypt-encrypt}
use lazyssh.Config.Merge.{merge, place, existing, index_hosts}
use lazyssh.Config.Merge.Merged.{replaced, added}
use lazyssh.Config.Storage.{Yaml, file, Disk, Env, path, load, save, export_hosts, not_decoded}
use lazyssh.Config.Storage.Laws.{load-save, export_hosts-own_path}

decode-encode_example : decode (encode (102 ∷ 111 ∷ 255 ∷ 0 ∷ [])) ≡ some (102 ∷ 111 ∷ 255 ∷ 0 ∷ [])
decode-encode_example = decode-encode (102 ∷ 111 ∷ 255 ∷ 0 ∷ []) (omega arith)

base64_text : encode (codes "fooba") ≡ codes "Zm9vYmE="
unfolding encode letter
base64_text = refl

-- A cipher that marks the text with the length of the key.
abbrev pub mark : Bytes → ℕ
mark key = length key % 256

abbrev pub unmark : Bytes → Bytes → Option Bytes
unmark key [] = none
unmark key (c ∷ s) = if c == mark key then some s else none

pub unmark-mark : (key plain : Bytes) → unmark key (mark key ∷ plain) ≡ some plain
unmark-mark key plain = ground arith

abbrev pub marking : Aead
marking = record {
  derive_key = λ pwd salt. pwd ++ salt;
  is_key = λ k. true;
  seal = λ key nonce plain. mark key ∷ plain;
  unseal = λ key nonce ct. unmark key ct;
  key-IsKey = λ pwd salt. refl;
  unseal-seal = λ key nonce plain. unmark-mark key plain;
  sealed_long = λ key nonce plain. omega arith;
  sealed_bytes = λ key nonce plain h. (omega arith, h);
}

decrypt-encrypt_example :
    (v : Bytes) × (encrypt marking
        (some (replicate 16 1))
        (some (replicate 12 2))
        (codes "master")
        (codes "enc:x")
      ≡ ok v)
    × (is_encrypted v ≡ true)
    × (decrypt marking (codes "master") v ≡ ok (codes "enc:x"))
decrypt-encrypt_example =
    decrypt-encrypt marking (replicate 16 1) (replicate 12 2) (codes "master") (codes "enc:x") refl
      refl (omega arith) (omega arith) (omega arith)

abbrev named : Bytes → Bytes → Host
named id name = record {
  id = id;
  name = name;
  hostname = codes "h";
  port = pos 22;
  user = codes "u";
  auth_type = codes "key";
  key_path = [];
  password = [];
  folder = [];
  tags = [];
}

abbrev two_hosts : List Host
two_hosts = named (codes "1") (codes "a") ∷ named (codes "2") (codes "b") ∷ []

abbrev imported_hosts : List Host
imported_hosts = named (codes "2") (codes "c") ∷ named (codes "3") (codes "d") ∷ []

merged_hosts :
    merge two_hosts imported_hosts
    ≡ named (codes "1") (codes "a")
      ∷ named (codes "2") (codes "c")
      ∷ named (codes "3") (codes "d")
      ∷ []
unfolding merge place existing index_hosts bytes_beq
merged_hosts = refl

abbrev merged_store : Store
merged_store = record {
  version = codes "1";
  hosts = replaced two_hosts imported_hosts ++ added two_hosts imported_hosts;
}

abbrev decode_merged : Bytes → Option Store
decode_merged [] = none
decode_merged (c ∷ s) =
    if c == b'm'
    then some merged_store
    else some (record { version = codes "1"; hosts = imported_hosts })

abbrev yaml : Yaml
yaml = record { encode = λ s. codes "m"; decode = λ bs. decode_merged bs; decode_empty = refl }

abbrev env : Env
env = record { xdg_config_home = codes "/c"; home = codes "/root" }

abbrev disk : Disk
disk = record {
  node = λ p. file (codes "hosts");
  can_mkdir = λ p. true;
  can_write = λ p. true;
  room = 100;
}

load-save_example :
    let after = save yaml env disk merged_store in
    (after.1 ≡ ok tt)
    × (load yaml env after.0 ≡ ok merged_store)
    × ((q : Bytes)
        → after.0.node q ≡ (if path env == q then file (yaml.encode merged_store) else disk.node q))
load-save_example = load-save yaml env disk merged_store refl refl refl (omega arith)

export_hosts-own_path_example :
    let after = export_hosts env disk (path env) in
    (after.1 ≡ ok tt)
    × (after.0.node (path env) ≡ file [])
    × (load yaml env after.0 ≡ err not_decoded)
export_hosts-own_path_example = export_hosts-own_path yaml env disk (codes "hosts") refl refl
