-- ===== src/Ssh/Transfer/Upload/Complete.antt =====
-- The files that `UploadDir` of internal/ssh/sftp.go writes, and its error.
use lazyssh.Base.{none, [], ◌∷◌, Bytes, ◌≡◌, refl, append-nil}
use lazyssh.Paths.{join_path}
use lazyssh.Ssh.Transfer.{Tree, leaf, link, folder, Entries, done, entry, child}
use lazyssh.Ssh.Transfer.Download.{
  Faults, Progress, not_listed, not_made, check, demand, show, make,
}
use lazyssh.Ssh.Transfer.Download.Complete.{
  Wrote, and_then-Wrote, check-Wrote, demand-Wrote, download_file-Wrote, Faultless, and_then_ok,
  check_ok, demand_ok, download_file_ok,
}
use lazyssh.Ssh.Transfer.Upload.{
  rel_child, upload_file, upload_tree, upload_entries, uploads, uploads_below,
}

module _ (f : Faults) (remote : Bytes) where
  mutual
    unfolding upload_tree upload_entries uploads uploads_below

    pub upload_tree-Wrote :
        (local rel : Bytes) (t : Tree) (s : Progress)
        → Wrote s (upload_tree f remote local rel t s) (uploads remote rel t)
    upload_tree-Wrote local rel (leaf content) s =
        and_then-Wrote s (check f s)
          (λ x. upload_file f local (child remote rel) content (show rel x)) []
          (uploads remote rel (leaf content)) (check-Wrote f s)
          (λ s1. download_file-Wrote f local (child remote rel) content (show rel s1))
    upload_tree-Wrote local rel link s = check-Wrote f s
    upload_tree-Wrote local rel (folder es) s =
        and_then-Wrote s (demand (f.unlisted local) not_listed s) _ [] (uploads_below remote rel es)
          (demand-Wrote _ _ s)
          (λ s1.
            and_then-Wrote s1 (check f s1) _ [] (uploads_below remote rel es) (check-Wrote f s1)
              (λ s2.
                and_then-Wrote s2 (demand (f.no_mkdir (child remote rel)) not_made s2)
                  (λ x. upload_entries f remote local rel es (make (child remote rel) x)) []
                  (uploads_below remote rel es) (demand-Wrote _ _ s2)
                  (λ s3. upload_entries-Wrote local rel es (make (child remote rel) s3))))

    pub upload_entries-Wrote :
        (local rel : Bytes) (es : Entries) (s : Progress)
        → Wrote s (upload_entries f remote local rel es s) (uploads_below remote rel es)
    upload_entries-Wrote local rel done s = λ e. rw (append-nil s.written) refl
    upload_entries-Wrote local rel (entry n t es) s =
        and_then-Wrote s (upload_tree f remote (join_path (local ∷ n ∷ [])) (rel_child rel n) t s)
          (λ x. upload_entries f remote local rel es x) (uploads remote (rel_child rel n) t)
          (uploads_below remote rel es)
          (upload_tree-Wrote (join_path (local ∷ n ∷ [])) (rel_child rel n) t s)
          (λ s1. upload_entries-Wrote local rel es s1)

  module _ (h : Faultless f) where
    mutual
      unfolding upload_tree upload_entries

      pub upload_tree_ok :
          (local rel : Bytes) (t : Tree) (s : Progress)
          → (upload_tree f remote local rel t s).1 ≡ none
      upload_tree_ok local rel (leaf content) s =
          and_then_ok (check f s) (λ x. upload_file f local (child remote rel) content (show rel x))
            (check_ok f h s)
            (λ s1. download_file_ok f h local (child remote rel) content (show rel s1))
      upload_tree_ok local rel link s = check_ok f h s
      upload_tree_ok local rel (folder es) s =
          and_then_ok (demand (f.unlisted local) not_listed s) _
            (demand_ok f h _ _ s (h.listed local))
            (λ s1. and_then_ok (check f s1) _ (check_ok f h s1) (λ s2.
              and_then_ok (demand (f.no_mkdir (child remote rel)) not_made s2)
                (λ x. upload_entries f remote local rel es (make (child remote rel) x))
                (demand_ok f h _ _ s2 (h.makeable (child remote rel)))
                (λ s3. upload_entries_ok local rel es (make (child remote rel) s3))))

      pub upload_entries_ok :
          (local rel : Bytes) (es : Entries) (s : Progress)
          → (upload_entries f remote local rel es s).1 ≡ none
      upload_entries_ok local rel done s = refl
      upload_entries_ok local rel (entry n t es) s =
          and_then_ok (upload_tree f remote (join_path (local ∷ n ∷ [])) (rel_child rel n) t s)
            (λ x. upload_entries f remote local rel es x)
            (upload_tree_ok (join_path (local ∷ n ∷ [])) (rel_child rel n) t s)
            (λ s1. upload_entries_ok local rel es s1)
