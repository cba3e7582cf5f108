-- ===== src/Ui/Hosts/Cursor.antt =====
-- The cursor of `selectAfterRebuild` of internal/ui/hostlist.go.
use lazyssh.Base.{
  true, false, Option, none, some, List, [], ◌∷◌, Bytes, ◌≡◌, refl, bytes_beq, ◌⊎◌, Bool-cases, inl,
  inr, bytes_eq, bytes_beq_iff,
}
use lazyssh.Model.{Host}
use lazyssh.Ui.Hosts.{Node, folder_node, host_node, Marks, mark, walk, select_after_rebuild}

-- Some host of the nodes has the id.
abbrev pub HasHost : Bytes → List Node → Type 0
HasHost id [] = false ≡ true
HasHost id (folder_node p ∷ ns) = HasHost id ns
HasHost id (host_node h ∷ ns) = (h.id ≡ id) ⊎ HasHost id ns

abbrev Matched : Bytes → Option Node → Type 0
Matched id o = (h : Host) × (o ≡ some (host_node h)) × (h.id ≡ id)

-- A mark stays or gives way to another of the same id.
walk_kept :
    (prev : Host) (m : Marks) (ns : List Node)
    → Matched prev.id m.match
    → Matched prev.id (walk (some prev) m ns).match
unfolding walk mark
walk_kept prev m [] k = k
walk_kept prev m (folder_node p ∷ ns) k = walk_kept prev (mark (some prev) m (folder_node p)) ns k
walk_kept prev m (host_node h ∷ ns) (g, e, i) =
    walk_kept prev (mark (some prev) m (host_node h)) ns
      (elim (Bool-cases (bytes_beq h.id prev.id)) [
        | inl t ↦ (h, rw t refl, (bytes_beq_iff h.id prev.id).0 t)
        | inr f ↦ (g, rw f e, i)
      ])

walk_found :
    (prev : Host) (m : Marks) (ns : List Node)
    → HasHost prev.id ns
    → Matched prev.id (walk (some prev) m ns).match
unfolding walk mark
walk_found prev m [] h = cc
walk_found prev m (folder_node p ∷ ns) h = walk_found prev (mark (some prev) m (folder_node p)) ns h
walk_found prev m (host_node g ∷ ns) (inr h) =
    walk_found prev (mark (some prev) m (host_node g)) ns h
walk_found prev m (host_node g ∷ ns) (inl e) =
    walk_kept prev (mark (some prev) m (host_node g)) ns
      (g, rw ((bytes_beq_iff g.id prev.id).1 e) refl, e)

-- After a rebuild the cursor is on a host with the id of the one selected before, wherever the new
-- tree has one, with a filter or without.
pub select_after_rebuild_lem :
    (filter_text : Bytes) (nodes : List Node) (prev : Host)
    → HasHost prev.id nodes
    → (h : Host) × (select_after_rebuild filter_text nodes (some prev) ≡ some (host_node h))
      × (h.id ≡ prev.id)
select_after_rebuild_lem filter_text nodes prev h =
    let (g, e, i) =
      walk_found prev (record { first_any = none; first_host = none; match = none }) nodes h in
    (g, unfold select_after_rebuild in rw e refl, i)
