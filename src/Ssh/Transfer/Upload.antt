-- ===== src/Ssh/Transfer/Upload.antt =====
-- `UploadDir` of internal/ssh/sftp.go: the walk of a local tree. The faults are those of a download,
-- with local paths to list and to read, and remote ones to make.
pub mod Complete
use lazyssh.Base.{
  ℕ, Bool, true, false, Option, none, some, List, [], ◌∷◌, ◌++◌, Bytes, codes, ◌==◌, bytes_eq,
  if◌then◌else◌,
}
use lazyssh.Paths.{join_path}
use lazyssh.Ssh.Transfer.{Tree, leaf, link, folder, Entries, done, entry, child}
use lazyssh.Ssh.Transfer.Download.{
  Faults, Progress, TransferError, not_listed, not_made, Outcome, and_then, check, demand, show,
  make, download_file,
}

-- `filepath.Rel` of an entry's path to the root of the walk.
abbrev pub rel_child : Bytes → Bytes → Bytes
rel_child rel n = if rel == codes "." then n else rel ++ (b'/' ∷ n)

-- `Upload` opens, creates and copies as `Download` does, with the sides exchanged.
abbrev pub upload_file : Faults → Bytes → Bytes → Bytes → Progress → Outcome
upload_file f local remote content s = download_file f local remote content s

-- A directory that cannot be listed is reported to the callback with its error, before the context
-- is looked at. Symbolic links, which all are `link` here, are passed over.
unfoldable mutual
  pub upload_tree : Faults → Bytes → Bytes → Bytes → Tree → Progress → Outcome
  upload_tree f remote local rel (leaf content) s =
      and_then (check f s) (λ s1. upload_file f local (child remote rel) content (show rel s1))
  upload_tree f remote local rel link s = check f s
  upload_tree f remote local rel (folder es) s =
      and_then (demand (f.unlisted local) not_listed s) (λ s1. and_then (check f s1) (λ s2.
        and_then (demand (f.no_mkdir (child remote rel)) not_made s2)
          (λ s3. upload_entries f remote local rel es (make (child remote rel) s3))))

  pub upload_entries : Faults → Bytes → Bytes → Bytes → Entries → Progress → Outcome
  upload_entries f remote local rel done s = (s, none)
  upload_entries f remote local rel (entry n t es) s =
      and_then (upload_tree f remote (join_path (local ∷ n ∷ [])) (rel_child rel n) t s)
        (λ s1. upload_entries f remote local rel es s1)

unfoldable pub upload_dir : Faults → Bytes → Bytes → Tree → Progress → Outcome
upload_dir f local remote t s = upload_tree f remote local (codes ".") t s

-- The files of the tree at their remote paths.
unfoldable mutual
  pub uploads : Bytes → Bytes → Tree → List (Bytes × Bytes)
  uploads remote rel (leaf content) = (child remote rel, content) ∷ []
  uploads remote rel link = []
  uploads remote rel (folder es) = uploads_below remote rel es

  pub uploads_below : Bytes → Bytes → Entries → List (Bytes × Bytes)
  uploads_below remote rel done = []
  uploads_below remote rel (entry n t es) =
      uploads remote (rel_child rel n) t ++ uploads_below remote rel es
