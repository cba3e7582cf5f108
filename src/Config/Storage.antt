-- ===== src/Config/Storage.antt =====
-- internal/config/config.go: the hosts file. YAML is a parameter; a disk maps a path to what stands
-- there, and two paths name one file only where they are equal.
pub mod Laws
use lazyssh.Base.{
  ℕ, Bool, true, false, Option, none, some, List, [], ◌∷◌, ◌++◌, Bytes, codes, ◌==◌, bytes_eq,
  if◌then◌else◌, ◌≡◌, leb, length, take,
}
use lazyssh.Base.Result.{Result, ok, err}
use lazyssh.Paths.{join_path, dir}
use lazyssh.Model.{Host, Store, new_store}
use lazyssh.Config.Merge.{merge}

-- `yaml.v3`, whose decoder ends with an error at an empty document.
pub record Yaml : Type 0 where
  pub encode : Store → Bytes
  pub decode : Bytes → Option Store
  pub decode_empty : decode [] ≡ none

pub data Node : Type 0 where
  missing : Node
  unreadable : Node
  file : Bytes → Node

-- What stands at each path, the directories that cannot be made, the paths that cannot be opened
-- for writing, and the bytes that the disk still takes at once.
pub record Disk : Type 0 where
  pub node : Bytes → Node
  pub can_mkdir : Bytes → Bool
  pub can_write : Bytes → Bool
  pub room : ℕ

pub data ConfigError : Type 0 where
  not_opened : ConfigError
  not_decoded : ConfigError
  not_made : ConfigError
  not_created : ConfigError
  not_written : ConfigError

pub record Env : Type 0 where
  pub xdg_config_home : Bytes
  pub home : Bytes

unfoldable pub path : Env → Bytes
path env = join_path (
    (if env.xdg_config_home == []
      then join_path (env.home ∷ codes ".config" ∷ [])
      else env.xdg_config_home)
    ∷ codes "lazyssh"
    ∷ codes "hosts.yaml"
    ∷ [])

abbrev pub put : Disk → Bytes → Bytes → Disk
put d p bs = record d { node = λ q. if p == q then file bs else d.node q }

-- What a reader of the path finds.
abbrev pub contents : Node → Bytes
contents (file bs) = bs
contents missing = []
contents unreadable = []

-- A write to a file just truncated: what fits is written, the rest is an error.
unfoldable pub write : Disk → Bytes → Bytes → Disk × Result ConfigError (Unit {0})
write d p bs = (put d p (take d.room bs), if leb (length bs) d.room then ok tt else err not_written)

module _ (yaml : Yaml) where
  abbrev decoded : Option Store → Result ConfigError Store
  decoded none = err not_decoded
  decoded (some s) = ok s

  abbrev pub load_node : Node → Result ConfigError Store
  load_node missing = ok new_store
  load_node unreadable = err not_opened
  load_node (file bs) = decoded (yaml.decode bs)

  unfoldable pub load : Env → Disk → Result ConfigError Store
  load env d = load_node (d.node (path env))

  unfoldable pub save : Env → Disk → Store → Disk × Result ConfigError (Unit {0})
  save env d s =
      let p = path env in
      if d.can_mkdir (dir p)
      then (if d.can_write p then write d p (yaml.encode s) else (d, err not_created))
      else (d, err not_made)

  -- The store, the disk and the error after the call.
  abbrev pub saved :
      Store → Disk × Result ConfigError (Unit {0}) → Store × Disk × Result ConfigError (Unit {0})
  saved s (d, r) = (s, d, r)

  abbrev pub import_decoded :
      Env → Disk → Store → Option Store → Store × Disk × Result ConfigError (Unit {0})
  import_decoded env d s none = (s, d, err not_decoded)
  import_decoded env d s (some imported) =
      let merged = record s { hosts = merge s.hosts imported.hosts } in
      saved merged (save env d merged)

  abbrev pub import_node : Env → Disk → Store → Node → Store × Disk × Result ConfigError (Unit {0})
  import_node env d s missing = (s, d, err not_opened)
  import_node env d s unreadable = (s, d, err not_opened)
  import_node env d s (file bs) = import_decoded env d s (yaml.decode bs)

  unfoldable pub import_hosts :
      Env → Disk → Store → Bytes → Store × Disk × Result ConfigError (Unit {0})
  import_hosts env d s src = import_node env d s (d.node src)

-- The copy reads the source after the destination was truncated.
abbrev pub copy_open : Env → Disk → Bytes → Disk × Result ConfigError (Unit {0})
copy_open env d dest =
    let truncated = put d dest [] in write truncated dest (contents (truncated.node (path env)))

abbrev pub export_node : Env → Disk → Bytes → Node → Disk × Result ConfigError (Unit {0})
export_node env d dest missing = (d, err not_opened)
export_node env d dest unreadable = (d, err not_opened)
export_node env d dest (file bs) =
    if d.can_write dest then copy_open env d dest else (d, err not_created)

unfoldable pub export_hosts : Env → Disk → Bytes → Disk × Result ConfigError (Unit {0})
unfolding write
export_hosts env d dest = export_node env d dest (d.node (path env))
