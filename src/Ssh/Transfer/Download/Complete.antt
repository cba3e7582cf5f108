-- ===== src/Ssh/Transfer/Download/Complete.antt =====
-- The files that `DownloadDir` of internal/ssh/sftp.go writes, and its error.
use lazyssh.Base.{
  ℕ, Bool, true, false, none, some, List, [], ◌∷◌, ◌++◌, Bytes, ◌≡◌, refl, ap, ◌∙◌, arith,
  append_assoc, append-nil,
}
use lazyssh.Paths.{join_path}
use lazyssh.Ssh.Transfer.{Tree, leaf, link, folder, Entries, done, entry, child}
use lazyssh.Ssh.Transfer.Download.{
  Faults, Progress, TransferError, Outcome, and_then, check, demand, download_file, show, make,
  enter, download_entries, download_entry, download_dir, copies, copies_of,
}

-- Without an error, the files written are those before and the given ones.
abbrev pub Wrote : Progress → Outcome → List (Bytes × Bytes) → Type 0
Wrote s out cs = out.1 ≡ none → out.0.written ≡ s.written ++ cs

pub and_then-Wrote :
    (s : Progress) (out : Outcome) (g : Progress → Outcome) (cs ds : List (Bytes × Bytes))
    → Wrote s out cs
    → ((s1 : Progress) → Wrote s1 (g s1) ds)
    → Wrote s (and_then out g) (cs ++ ds)
and_then-Wrote s (s1, none) g cs ds h k e =
    k s1 e ∙ ap (λ w. w ++ ds) (h refl) ∙ append_assoc s.written cs ds
and_then-Wrote s (s1, some x) g cs ds h k e = cc

pub check-Wrote : (f : Faults) (s : Progress) → Wrote s (check f s) []
check-Wrote f s e = rw (append-nil s.written) refl

pub demand-Wrote : (b : Bool) (x : TransferError) (s : Progress) → Wrote s (demand b x s) []
demand-Wrote true x s e = cc
demand-Wrote false x s e = rw (append-nil s.written) refl

pub download_file-Wrote :
    (f : Faults) (remote local content : Bytes) (s : Progress)
    → Wrote s (download_file f remote local content s) ((local, content) ∷ [])
unfolding download_file
download_file-Wrote f remote local content s e = ground (arith, e)

enter-Wrote :
    (f : Faults) (remote local : Bytes) (loop : Progress → Outcome) (s : Progress)
    (cs : List (Bytes × Bytes))
    → ((s1 : Progress) → Wrote s1 (loop s1) cs)
    → Wrote s (enter f remote local loop s) cs
enter-Wrote f remote local loop s cs h =
    and_then-Wrote s (check f s) _ [] cs (check-Wrote f s) (λ s1.
      and_then-Wrote s1 (demand (f.unlisted remote) _ s1) _ [] cs (demand-Wrote _ _ s1) (λ s2.
        and_then-Wrote s2 (demand (f.no_mkdir local) _ s2) _ [] cs (demand-Wrote _ _ s2)
          (λ s3. h (make local s3))))

mutual
  unfolding download_entries download_entry copies copies_of

  pub download_entries-Wrote :
      (f : Faults) (remote local : Bytes) (es : Entries) (s : Progress)
      → Wrote s (download_entries f remote local es s) (copies local es)
  download_entries-Wrote f remote local done s = λ e. rw (append-nil s.written) refl
  download_entries-Wrote f remote local (entry n t es) s =
      and_then-Wrote s (check f s) _ []
        (copies_of (join_path (local ∷ n ∷ [])) t ++ copies local es) (check-Wrote f s)
        (λ s1.
          and_then-Wrote s1 (download_entry f remote local n t s1) _
            (copies_of (join_path (local ∷ n ∷ [])) t) (copies local es)
            (download_entry-Wrote f remote local n t s1)
            (λ s2. download_entries-Wrote f remote local es s2))

  pub download_entry-Wrote :
      (f : Faults) (remote local n : Bytes) (t : Tree) (s : Progress)
      → Wrote s (download_entry f remote local n t s) (copies_of (join_path (local ∷ n ∷ [])) t)
  download_entry-Wrote f remote local n (folder es) s =
      enter-Wrote f (child remote n) (join_path (local ∷ n ∷ []))
        (λ x. download_entries f (child remote n) (join_path (local ∷ n ∷ [])) es x) s
        (copies (join_path (local ∷ n ∷ [])) es)
        (λ s1. download_entries-Wrote f (child remote n) (join_path (local ∷ n ∷ [])) es s1)
  download_entry-Wrote f remote local n (leaf content) s =
      download_file-Wrote f (child remote n) (join_path (local ∷ n ∷ [])) content (show n s)
  download_entry-Wrote f remote local n link s = λ e. cc

-- Nothing is in the way.
pub record Faultless (f : Faults) : Type 0 where
  pub running : (k : ℕ) → f.cancelled k ≡ false
  pub listed : (p : Bytes) → f.unlisted p ≡ false
  pub readable : (p : Bytes) → f.unreadable p ≡ false
  pub makeable : (p : Bytes) → f.no_mkdir p ≡ false
  pub creatable : (p : Bytes) → f.no_create p ≡ false
  pub unbroken : (p : Bytes) → f.breaks p ≡ none

unfoldable mutual
  pub Linkless : Entries → Type 0
  Linkless done = Unit {0}
  Linkless (entry n t es) = LinklessTree t × Linkless es

  pub LinklessTree : Tree → Type 0
  LinklessTree (leaf c) = Unit {0}
  LinklessTree link = false ≡ true
  LinklessTree (folder es) = Linkless es

pub and_then_ok :
    (out : Outcome) (g : Progress → Outcome)
    → out.1 ≡ none
    → ((s1 : Progress) → (g s1).1 ≡ none)
    → (and_then out g).1 ≡ none
and_then_ok (s1, none) g h k = k s1
and_then_ok (s1, some x) g h k = cc

module _ (f : Faults) (h : Faultless f) where
  pub check_ok : (s : Progress) → (check f s).1 ≡ none
  check_ok s = rw (h.running s.checks) refl

  pub demand_ok :
      (b : Bool) (x : TransferError) (s : Progress) → b ≡ false → (demand b x s).1 ≡ none
  demand_ok b x s e = rw e refl

  pub download_file_ok :
      (remote local content : Bytes) (s : Progress)
      → (download_file f remote local content s).1 ≡ none
  unfolding download_file
  download_file_ok remote local content s =
      rw (h.readable remote, h.creatable local, h.unbroken remote) refl

  enter_ok :
      (remote local : Bytes) (loop : Progress → Outcome) (s : Progress)
      → ((s1 : Progress) → (loop s1).1 ≡ none)
      → (enter f remote local loop s).1 ≡ none
  enter_ok remote local loop s k = and_then_ok (check f s) _ (check_ok s) (λ s1.
      and_then_ok (demand (f.unlisted remote) _ s1) _ (demand_ok _ _ s1 (h.listed remote)) (λ s2.
        and_then_ok (demand (f.no_mkdir local) _ s2) _ (demand_ok _ _ s2 (h.makeable local))
          (λ s3. k (make local s3))))

  mutual
    unfolding download_entries download_entry Linkless LinklessTree

    pub download_entries_ok :
        (remote local : Bytes) (es : Entries) (s : Progress)
        → Linkless es
        → (download_entries f remote local es s).1 ≡ none
    download_entries_ok remote local done s l = refl
    download_entries_ok remote local (entry n t es) s (lt, l) =
        and_then_ok (check f s) _ (check_ok s) (λ s1.
          and_then_ok (download_entry f remote local n t s1) _
            (download_entry_ok remote local n t s1 lt)
            (λ s2. download_entries_ok remote local es s2 l))

    pub download_entry_ok :
        (remote local n : Bytes) (t : Tree) (s : Progress)
        → LinklessTree t
        → (download_entry f remote local n t s).1 ≡ none
    download_entry_ok remote local n (folder es) s l =
        enter_ok (child remote n) (join_path (local ∷ n ∷ []))
          (λ x. download_entries f (child remote n) (join_path (local ∷ n ∷ [])) es x) s
          (λ s1. download_entries_ok (child remote n) (join_path (local ∷ n ∷ [])) es s1 l)
    download_entry_ok remote local n (leaf content) s l =
        download_file_ok (child remote n) (join_path (local ∷ n ∷ [])) content (show n s)
    download_entry_ok remote local n link s l = cc

-- A download that reports no error has written every file of the tree at its local path, in the order
-- of the listing, and nothing else.
pub download_dir-copies :
    (f : Faults) (remote local : Bytes) (es : Entries) (s : Progress)
    → (download_dir f remote local es s).1 ≡ none
    → (download_dir f remote local es s).0.written ≡ s.written ++ copies local es
unfolding download_dir
download_dir-copies f remote local es s =
    enter-Wrote f remote local (λ x. download_entries f remote local es x) s (copies local es)
      (λ s1. download_entries-Wrote f remote local es s1)
