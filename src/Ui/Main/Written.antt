-- ===== src/Ui/Main/Written.antt =====
-- The hosts file under the calls of the main screen (internal/config/config.go).
use lazyssh.Base.{
  ◌≤◌, Bool, true, false, Option, none, some, [], Bytes, ◌≡◌, refl, length, take, bytes_eq,
  bytes_beq, if◌then◌else◌, arith,
}
use lazyssh.Base.Result.{Result, ok, err}
use lazyssh.Paths.{dir}
use lazyssh.Model.{Store}
use lazyssh.Config.Merge.{merge}
use lazyssh.Config.Storage.{
  Yaml, Node, missing, unreadable, file, Disk, Env, ConfigError, not_created, contents, path, put,
  write, load, save, import_hosts, import_decoded, import_node, saved, export_hosts, export_node,
  copy_open,
}
use lazyssh.Config.Storage.Laws.{load-save}

-- The hosts file can be opened for writing.
pub record Takes (env : Env) (d : Disk) : Type 0 where
  pub made : d.can_mkdir (dir (path env)) ≡ true
  pub opens : d.can_write (path env) ≡ true

-- A load gives this store.
abbrev pub Keeps : Yaml → Env → Disk → Store → Type 0
Keeps yaml env d s = Takes env d × (load yaml env d ≡ ok s)

-- The store's encoding fits on the disk and is decoded to the store.
abbrev pub Fits : Yaml → Store → Disk → Type 0
Fits yaml s d = (yaml.decode (yaml.encode s) ≡ some s) × (length (yaml.encode s) ≤ d.room)

module _ (yaml : Yaml) (env : Env) where
  write-Takes : (d : Disk) (p bs : Bytes) → Takes env d → Takes env (write d p bs).0
  unfolding write
  write-Takes d p bs t = record { made = t.made; opens = t.opens }

  pub save-Keeps :
      (d : Disk) (s : Store) → Takes env d → Fits yaml s d → Keeps yaml env (save yaml env d s).0 s
  save-Keeps d s t (r, f) =
      let (e, l, o) = load-save yaml env d s r t.made t.opens f in
      (unfold save in rw (t.made, t.opens) (write-Takes d (path env) (yaml.encode s) t), l)

  save-ok : (d : Disk) (s : Store) → Takes env d → Fits yaml s d → (save yaml env d s).1 ≡ ok tt
  save-ok d s t (r, f) = (load-save yaml env d s r t.made t.opens f).0

  -- After an import the file holds what is in memory; where it failed, that is what it was.
  abbrev pub IsImported : Store → Store × Disk × Result ConfigError (Unit {0}) → Type 0
  IsImported s (s', d', ok u) = Keeps yaml env d' s'
  IsImported s (s', d', err e) = Keeps yaml env d' s' × (s' ≡ s)

  saved-IsImported :
      (s s' : Store) (r : Disk × Result ConfigError (Unit {0}))
      → Keeps yaml env r.0 s'
      → r.1 ≡ ok tt
      → IsImported s (saved yaml s' r)
  saved-IsImported s s' (d, ok u) k e = k
  saved-IsImported s s' (d, err x) k e = absurd (ground arith)

  decoded-IsImported :
      (d : Disk) (s : Store) (o : Option Store)
      → Fits yaml (import_decoded yaml env d s o).0 d
      → Keeps yaml env d s
      → IsImported s (import_decoded yaml env d s o)
  decoded-IsImported d s none f k = (k, refl)
  decoded-IsImported d s (some i) f k =
      let merged = record s { hosts = merge s.hosts i.hosts } in
      saved-IsImported s merged (save yaml env d merged) (save-Keeps d merged k.0 f)
        (save-ok d merged k.0 f)

  node-IsImported :
      (d : Disk) (s : Store) (n : Node)
      → Fits yaml (import_node yaml env d s n).0 d
      → Keeps yaml env d s
      → IsImported s (import_node yaml env d s n)
  node-IsImported d s missing f k = (k, refl)
  node-IsImported d s unreadable f k = (k, refl)
  node-IsImported d s (file bs) f k = decoded-IsImported d s (yaml.decode bs) f k

  pub import-IsImported :
      (d : Disk) (s : Store) (src : Bytes)
      → Fits yaml (import_hosts yaml env d s src).0 d
      → Keeps yaml env d s
      → IsImported s (import_hosts yaml env d s src)
  unfolding import_hosts
  import-IsImported d s src f k = node-IsImported d s (d.node src) f k

  if-Keeps :
      (b : Bool) (x y : Disk × Result ConfigError (Unit {0})) (s : Store)
      → Keeps yaml env x.0 s
      → Keeps yaml env y.0 s
      → Keeps yaml env (if b then x else y).0 s
  if-Keeps true x y s hx hy = hx
  if-Keeps false x y s hx hy = hy

  -- A write to another path
  put-Keeps :
      (d : Disk) (q bs : Bytes) (s : Store)
      → bytes_beq q (path env) ≡ false
      → Keeps yaml env d s
      → Keeps yaml env (put d q bs) s
  unfolding load
  put-Keeps d q bs s other (t, l) = (record { made = t.made; opens = t.opens }, rw other l)

  node-exported :
      (d : Disk) (dest : Bytes) (s : Store) (n : Node)
      → bytes_beq dest (path env) ≡ false
      → Keeps yaml env d s
      → Keeps yaml env (export_node env d dest n).0 s
  unfolding write
  node-exported d dest s missing other k = k
  node-exported d dest s unreadable other k = k
  node-exported d dest s (file bs) other k =
      let cut = put d dest [] in
      let bytes = take cut.room (contents (cut.node (path env))) in
      if-Keeps (d.can_write dest) (copy_open env d dest) (d, err not_created) s
        (put-Keeps cut dest bytes s other (put-Keeps d dest [] s other k)) k

  pub export_hosts-Keeps :
      (d : Disk) (dest : Bytes) (s : Store)
      → bytes_beq dest (path env) ≡ false
      → Keeps yaml env d s
      → Keeps yaml env (export_hosts env d dest).0 s
  unfolding export_hosts
  export_hosts-Keeps d dest s other k = node-exported d dest s (d.node (path env)) other k
