-- ===== src/Config/Storage/Laws.antt =====
-- `Save`, `Load`, `Export` and `Import` of internal/config/config.go, one after another.
use lazyssh.Base.{
  if◌then◌else◌, ◌==◌, bytes_eq, ℕ, ◌≤◌, true, false, some, [], ◌∷◌, Bytes, bytes_eq, ◌≡◌, refl,
  length, take, arith, bytes_beq, bytes_beq_refl, le→leb, zero, suc,
}
use lazyssh.Base.Result.{ok, err}
use lazyssh.Paths.{dir}
use lazyssh.Model.{Store}
use lazyssh.Config.Storage.{
  Yaml, file, Disk, not_decoded, Env, path, write, load, save, export_hosts,
}

take_all : (n : ℕ) (bs : Bytes) → length bs ≤ n → take n bs ≡ bs
take_all zero [] h = refl
take_all (suc n) [] h = refl
take_all zero (b ∷ bs) h = absurd (omega arith)
take_all (suc n) (b ∷ bs) h = rw (take_all n bs (omega arith)) refl

-- Where YAML decodes the store from its encoding, the directory can be made, the file opened and the encoding fits on the disk, saving
-- succeeds, a load after it gives the saved store, and every other path is as it was.
pub load-save :
    (yaml : Yaml) (env : Env) (d : Disk) (s : Store)
    → yaml.decode (yaml.encode s) ≡ some s
    → d.can_mkdir (dir (path env)) ≡ true
    → d.can_write (path env) ≡ true
    → length (yaml.encode s) ≤ d.room
    → let after = save yaml env d s in
      (after.1 ≡ ok tt)
      × (load yaml env after.0 ≡ ok s)
      × ((q : Bytes) → after.0.node q ≡ (if path env == q then file (yaml.encode s) else d.node q))
unfolding save load write
load-save yaml env d s read hm hw fits =
    rw (hm, hw, le→leb _ _ fits, take_all _ _ fits, bytes_beq_refl (path env), read)
      (refl, refl, λ q. refl)

-- Exporting to the hosts file's own path truncates it and then copies nothing: no error is reported,
-- and a load finds no store any more.
pub export_hosts-own_path :
    (yaml : Yaml) (env : Env) (d : Disk) (bs : Bytes)
    → d.node (path env) ≡ file bs
    → d.can_write (path env) ≡ true
    → let after = export_hosts env d (path env) in
      (after.1 ≡ ok tt)
      × (after.0.node (path env) ≡ file [])
      × (load yaml env after.0 ≡ err not_decoded)
unfolding export_hosts load write
export_hosts-own_path yaml env d bs there hw =
    rw (there, hw, bytes_beq_refl (path env), take_all d.room [] (omega arith), yaml.decode_empty)
      (rw (le→leb 0 d.room (omega arith)) refl, refl, refl)

-- Exporting to another path that can be written, with room for the file, copies the hosts file and
-- leaves it as it was.
pub export_hosts_elsewhere :
    (env : Env) (d : Disk) (dest bs : Bytes)
    → d.node (path env) ≡ file bs
    → d.can_write dest ≡ true
    → length bs ≤ d.room
    → bytes_beq dest (path env) ≡ false
    → let after = export_hosts env d dest in
      (after.1 ≡ ok tt) × (after.0.node dest ≡ file bs) × (after.0.node (path env) ≡ file bs)
unfolding export_hosts write
export_hosts_elsewhere env d dest bs there hw fits ne =
    rw (there, hw, ne, there, take_all _ _ fits, le→leb _ _ fits, bytes_beq_refl dest)
      (refl, refl, refl)
