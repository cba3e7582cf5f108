-- ===== src/Model/Folders.antt =====
-- `FolderSegments` of internal/model/host.go.
use lazyssh.Base.{[], ◌∷◌, ◌≡◌, sym, All, bytes_eq, bytes_beq, bytes_beq_iff, Bool-cases, inl, inr}
use lazyssh.Strings.{trim, is_slash, join}
use lazyssh.Strings.Split.{Lacks, split-Lacks, join-split}
use lazyssh.Model.{Host, folder_segments}

-- No segment holds a slash, and joined again they are the folder without its outer slashes.
pub folder_segments_lem :
    (h : Host)
    → All (Lacks b'/') (folder_segments h)
      × (join (folder_segments h) (b'/' ∷ []) ≡ trim is_slash h.folder)
unfolding folder_segments
folder_segments_lem h = elim (Bool-cases (bytes_beq (trim is_slash h.folder) [])) [
  | inl e ↦ rw e (tt, (unfold join in sym ((bytes_beq_iff (trim is_slash h.folder) []).0 e)))
  | inr e ↦
      rw e (split-Lacks (trim is_slash h.folder) b'/', join-split (trim is_slash h.folder) b'/')
]
