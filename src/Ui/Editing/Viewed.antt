-- ===== src/Ui/Editing/Viewed.antt =====
-- The viewer of internal/ui/filebrowser.go.
use lazyssh.Base.{
  ℕ, zero, suc, ◌≤◌, Option, none, some, [], ◌∷◌, Bytes, ◌≡◌, refl, ap, take, length, length-take,
  arith, Bool-cases, inl, inr, ltb,
}
use lazyssh.Ui.Editing.{view_limit, viewed_to, view_local_file, view_remote_file, read_remote_file}

take_whole : (n : ℕ) (s : Bytes) → length s ≤ n → take n s ≡ s
take_whole zero [] h = refl
take_whole zero (c ∷ s) h = absurd (omega arith)
take_whole (suc n) [] h = refl
take_whole (suc n) (c ∷ s) h = rw (take_whole n s (omega arith))

take-take : (n : ℕ) (s : Bytes) → take n (take (suc n) s) ≡ take n s
take-take zero s = refl
take-take (suc n) [] = refl
take-take (suc n) (c ∷ s) = rw (take-take n s)

-- One byte more than is shown is enough to know that there is more.
viewed_to-take : (n : ℕ) (s : Bytes) → viewed_to n (take (suc n) s) ≡ viewed_to n s
viewed_to-take n s = elim (Bool-cases (ltb n (length s))) [
  | inl long ↦ ground (arith, length-take (suc n) s, take-take n s)
  | inr short ↦ ap (λ t. viewed_to n t) (take_whole (suc n) s (ground (arith, short)))
]

-- The viewer shows the same of a file on either side: the file, or its first 512 KB and the note.
pub view_remote_file-view_local_file :
    (content : Option Bytes) → view_remote_file content ≡ view_local_file content
unfolding view_remote_file view_local_file read_remote_file
view_remote_file-view_local_file none = refl
view_remote_file-view_local_file (some s) = ap (λ t. some t) (viewed_to-take view_limit s)
