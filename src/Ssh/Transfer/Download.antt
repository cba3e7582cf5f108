-- ===== src/Ssh/Transfer/Download.antt =====
-- `DownloadDir` of internal/ssh/sftp.go.
pub mod Complete
use lazyssh.Base.{
  take, ℕ, suc, Bool, true, false, Option, none, some, List, [], ◌∷◌, ◌++◌, Bytes, if◌then◌else◌,
  ◌≡◌, refl, ap, ◌∙◌, arith, append_assoc, append-nil, Bool-cases, inl, inr,
}
use lazyssh.Base.Result.{Result, ok, err}
use lazyssh.Paths.{join_path}
use lazyssh.Ssh.Transfer.{Tree, leaf, link, folder, Entries, done, entry, child}

-- Whether the context is done at its n-th check, what cannot be read or made, and the bytes after
-- which the copying of a remote file breaks off.
pub record Faults : Type 0 where
  pub cancelled : ℕ → Bool
  pub unlisted : Bytes → Bool
  pub unreadable : Bytes → Bool
  pub no_mkdir : Bytes → Bool
  pub no_create : Bytes → Bool
  pub breaks : Bytes → Option ℕ

-- The checks of the context so far, the local directories and files made, and the names shown.
pub record Progress : Type 0 where
  pub checks : ℕ
  pub made : List Bytes
  pub written : List (Bytes × Bytes)
  pub shown : List Bytes

pub data TransferError : Type 0 where
  context_done : TransferError
  not_listed : TransferError
  not_read : TransferError
  not_made : TransferError
  not_created : TransferError
  not_copied : TransferError

abbrev pub Outcome : Type 0
Outcome = Progress × Option TransferError

-- The next step, where there was no error.
abbrev pub and_then : Outcome → (Progress → Outcome) → Outcome
and_then (s, none) f = f s
and_then (s, some e) f = (s, some e)

abbrev pub check : Faults → Progress → Outcome
check f s =
    (record s { checks = suc s.checks }, if f.cancelled s.checks then some context_done else none)

abbrev pub demand : Bool → TransferError → Progress → Outcome
demand refused e s = if refused then (s, some e) else (s, none)

abbrev copied : Bytes → Bytes → Progress → Option ℕ → Outcome
copied local content s none = (record s { written = s.written ++ (local, content) ∷ [] }, none)
copied local content s (some n) =
    (record s { written = s.written ++ (local, take n content) ∷ [] }, some not_copied)

unfoldable pub download_file : Faults → Bytes → Bytes → Bytes → Progress → Outcome
download_file f remote local content s =
    if f.unreadable remote
    then (s, some not_read)
    else if f.no_create local
    then (s, some not_created)
    else copied local content s (f.breaks remote)

abbrev pub show : Bytes → Progress → Progress
show name s = record s { shown = s.shown ++ name ∷ [] }

abbrev pub make : Bytes → Progress → Progress
make local s = record s { made = s.made ++ local ∷ [] }

-- The directory is listed and made, before the loop over its entries.
abbrev enter : Faults → Bytes → Bytes → (Progress → Outcome) → Progress → Outcome
enter f remote local loop s = and_then (check f s) (λ s1.
    and_then (demand (f.unlisted remote) not_listed s1)
      (λ s2. and_then (demand (f.no_mkdir local) not_made s2) (λ s3. loop (make local s3))))

unfoldable mutual
  unfolding download_file

  pub download_entries : Faults → Bytes → Bytes → Entries → Progress → Outcome
  download_entries f remote local done s = (s, none)
  download_entries f remote local (entry n t es) s = and_then (check f s) (λ s1.
      and_then (download_entry f remote local n t s1) (λ s2. download_entries f remote local es s2))

  pub download_entry : Faults → Bytes → Bytes → Bytes → Tree → Progress → Outcome
  download_entry f remote local n (folder es) s =
      enter f (child remote n) (join_path (local ∷ n ∷ []))
        (λ s1. download_entries f (child remote n) (join_path (local ∷ n ∷ [])) es s1) s
  download_entry f remote local n (leaf content) s =
      download_file f (child remote n) (join_path (local ∷ n ∷ [])) content (show n s)
  download_entry f remote local n link s = (show n s, some not_read)

unfoldable pub download_dir : Faults → Bytes → Bytes → Entries → Progress → Outcome
unfolding download_entries
download_dir f remote local es s =
    enter f remote local (λ s1. download_entries f remote local es s1) s

-- The files of the tree at the local paths, and the directories, in the order of the listing.
unfoldable mutual
  pub copies : Bytes → Entries → List (Bytes × Bytes)
  copies local done = []
  copies local (entry n t es) = copies_of (join_path (local ∷ n ∷ [])) t ++ copies local es

  pub copies_of : Bytes → Tree → List (Bytes × Bytes)
  copies_of local (leaf content) = (local, content) ∷ []
  copies_of local link = []
  copies_of local (folder es) = copies local es
