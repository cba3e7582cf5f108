-- ===== src/Config/Merge.antt =====
-- `Import` of internal/config/config.go: the imported hosts, merged by their ids.
pub mod Merged
use mathlib.Core.List.{foldl}
use lazyssh.Base.{
  ℕ, suc, Bool, true, false, Option, none, some, List, [], ◌∷◌, ◌++◌, Bytes, set, ◌==◌, bytes_eq,
  if◌then◌else◌,
}
use lazyssh.Model.{Host}

-- The map `existing` from an id to a position. A later host with the same id takes its place.
unfoldable pub index_hosts : List Host → ℕ → (Bytes → Option ℕ) → Bytes → Option ℕ
index_hosts [] i m = m
index_hosts (h ∷ hs) i m = index_hosts hs (suc i) (λ k. if h.id == k then some i else m k)

unfoldable pub existing : List Host → Bytes → Option ℕ
unfolding index_hosts
existing hs = index_hosts hs 0 (λ k. none)

abbrev pub place_at : Option ℕ → List Host → Host → List Host
place_at (some i) hosts h = set hosts i h
place_at none hosts h = hosts ++ h ∷ []

unfoldable pub place : (Bytes → Option ℕ) → List Host → Host → List Host
place index hosts h = place_at (index h.id) hosts h

unfoldable pub merge : List Host → List Host → List Host
merge hosts imported = foldl (place (existing hosts)) hosts imported
