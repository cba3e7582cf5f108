-- ===== src/Ssh/Helper/Deploy.antt =====
-- `UploadHelper` and then `HelperReady` of internal/ssh/persist.go.
use lazyssh.Base.{
  ℕ, ◌+◌, true, false, some, [], ◌∷◌, Bytes, codes, bytes_eq, ◌≡◌, ◌≢◌, refl, ap, arith, length,
  length-append, bytes_beq, bytes_beq_iff, bytes_beq_refl, Bool-cases, inl, inr, nat_eq,
}
use lazyssh.Base.Result.{ok}
use lazyssh.Paths.{join_path}
use lazyssh.Paths.Last.{IsExtension, stem, join_path_extended}
use lazyssh.Strings.{trim_space}
use lazyssh.Ssh.Helper.{
  unlink, lss_rel_path, lss_hash_file, Digest, Remote, helper_ready, upload_helper, write_hash,
  make_executable,
}

abbrev pub binary : Bytes → Bytes
binary home = join_path (home ∷ lss_rel_path ∷ [])

abbrev pub hash : Bytes → Bytes
hash home = join_path (home ∷ lss_hash_file ∷ [])

lss-IsExtension : IsExtension (codes "lss")
lss-IsExtension = record { flat = omega arith; long = omega arith }

hash-IsExtension : IsExtension (codes "lss.sha256")
hash-IsExtension = record { flat = omega arith; long = omega arith }

length-paths : (home : Bytes) → length (hash home) ≡ length (binary home) + 7
length-paths home =
    let d = stem home (codes ".lazyssh/bin/") in
    rw
      (
        join_path_extended home (codes ".lazyssh/bin/") (codes "lss") lss-IsExtension,
        join_path_extended home (codes ".lazyssh/bin/") (codes "lss.sha256") hash-IsExtension,
      )
      (omega (arith, length-append d (codes "lss"), length-append d (codes "lss.sha256")))

paths_differ : (home : Bytes) → bytes_beq (hash home) (binary home) ≡ false
paths_differ home = elim (Bool-cases (bytes_beq (hash home) (binary home))) [
  | inr e ↦ e
  | inl e ↦ absurd (
      omega (
        arith,
        length-paths home,
        ap (length {A = ℕ}) ((bytes_beq_iff (hash home) (binary home)).0 e),
      ))
]

-- Where the server refuses nothing, the deployed helper is executable and holds the content, and it
-- is taken for the embedded one exactly where the two have the same digest, so that the next connect
-- deploys another version again. A digest has no white space at its ends.
pub helper_ready-upload_helper :
    (digest : Digest) (r : Remote) (home content expected : Bytes)
    → ((p : Bytes)
        → (r.can_mkdir p ≡ true)
          × (r.can_open p ≡ true)
          × (r.can_write p ≡ true)
          × (r.can_chmod p ≡ true))
    → trim_space (digest content) ≡ digest content
    → expected ≢ []
    → let (after, error) = upload_helper digest r home content in
      (error ≡ ok tt)
      × (after.files (binary home) ≡ some content)
      × (after.executable (binary home) ≡ true)
      × (helper_ready digest after home expected ≡ bytes_beq (digest content) (digest expected))
unfolding upload_helper helper_ready write_hash make_executable unlink bytes_beq
helper_ready-upload_helper digest r home content [] willing trimmed given = absurd (given refl)
helper_ready-upload_helper digest r home content (b ∷ expected) willing trimmed given =
    let (m, _, _, _) = willing (join_path (home ∷ codes ".lazyssh" ∷ codes "bin" ∷ [])) in
    let (_, o, w, c) = willing (binary home) in
    let (_, o', w', _) = willing (hash home) in
    rw
      (
        m,
        o,
        w,
        c,
        o',
        w',
        paths_differ home,
        bytes_beq_refl (binary home),
        bytes_beq_refl (hash home),
        trimmed,
      )
      (refl, refl, refl, refl)
