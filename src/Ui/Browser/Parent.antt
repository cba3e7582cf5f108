-- ===== src/Ui/Browser/Parent.antt =====
-- `openRemoteRow` and `remoteParent` of internal/ui/filebrowser.go, one after the other.
use lazyssh.Base.{
  ℕ, some, [], ◌∷◌, ◌++◌, Bytes, ◌≡◌, refl, ap, length, take-length-append, arith, nat_eq,
}
use lazyssh.Strings.{trim_right, is_slash}
use lazyssh.Strings.Split.{Lacks}
use lazyssh.Model.Address.{last_index_at}
use lazyssh.Ui.Browser.{child, parent_at, remote_parent}

trim_right_plain : (b : ℕ) (s : Bytes) → Lacks b'/' (b ∷ s) → trim_right is_slash (b ∷ s) ≡ b ∷ s
unfolding trim_right
trim_right_plain b [] (h, _) = ground arith
trim_right_plain b (c ∷ s) (h, hs) = rw (trim_right_plain c s hs) refl

trim_right_behind :
    (p : Bytes) (c b : ℕ) (s : Bytes)
    → trim_right is_slash (b ∷ s) ≡ b ∷ s
    → trim_right is_slash (p ++ c ∷ b ∷ s) ≡ p ++ c ∷ b ∷ s
unfolding trim_right
trim_right_behind [] c b s h = rw h refl
trim_right_behind (d ∷ []) c b s h = rw (trim_right_behind [] c b s h) refl
trim_right_behind (d ∷ e ∷ p) c b s h = rw (trim_right_behind (e ∷ p) c b s h) refl

abbrev pub or_root : Bytes → Bytes
or_root [] = b'/' ∷ []
or_root (c ∷ s) = c ∷ s

-- Going into a directory whose name is not empty and holds no slash, and then up, leads back to the
-- directory before, without the slashes at its end, and from the root to the root.
pub remote_parent-child :
    (d : Bytes) (b : ℕ) (name : Bytes)
    → Lacks b'/' (b ∷ name)
    → remote_parent (child d (b ∷ name)) ≡ or_root (trim_right is_slash d)
unfolding remote_parent
remote_parent-child d b name h =
    let t = trim_right is_slash d in
    rw
      (
        trim_right_behind t b'/' b name (trim_right_plain b name h),
        last_index_at t (b ∷ name) b'/' h,
      )
      (parent t)
  where
    parent : (t : Bytes) → parent_at (t ++ b'/' ∷ b ∷ name) (some (length t)) ≡ or_root t
    parent [] = refl
    parent (c ∷ s) = ap (λ l. c ∷ l) (take-length-append s (b'/' ∷ b ∷ name))
