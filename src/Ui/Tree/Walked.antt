-- ===== src/Ui/Tree/Walked.antt =====
-- The walk over the tree, and the cursor after `rebuild` of internal/ui/hostlist.go.
use lazyssh.Base.{
  ℕ, zero, suc, ◌+◌, ◌≤◌, Bool, true, false, some, List, [], ◌∷◌, ◌++◌, Bytes, ◌≡◌, sym, subst,
  length, ◌==◌, nat_eq, bytes_eq, bytes_beq_iff, arith, Bool-cases, inl, inr, if◌then◌else◌, leb,
}
use lazyssh.Model.{Host}
use lazyssh.Ui.Hosts.{Node, folder_node, host_node, visible}
use lazyssh.Ui.Hosts.Cursor.{HasHost, select_after_rebuild_lem}
use lazyssh.Ui.Tree.{
  Edge, parent_path, is_folder, build, layer, nodes_below, nodes_under, deepest, walk_tree, rebuild,
}
use lazyssh.Ui.Tree.Grown.{IsTree, is_known, parent_path_shorter, hosts_of, build-IsTree}
use lazyssh.Ui.Tree.Placed.{linked, Holds, HasId, IsTree-linked, IsTree-Holds}

HasHost-append-left : (id : Bytes) (ns ms : List Node) → HasHost id ns → HasHost id (ns ++ ms)
HasHost-append-left id [] ms h = cc
HasHost-append-left id (folder_node p ∷ ns) ms h = HasHost-append-left id ns ms h
HasHost-append-left id (host_node g ∷ ns) ms (inl e) = inl e
HasHost-append-left id (host_node g ∷ ns) ms (inr h) = inr (HasHost-append-left id ns ms h)

HasHost-append-right : (id : Bytes) (ns ms : List Node) → HasHost id ms → HasHost id (ns ++ ms)
HasHost-append-right id [] ms h = h
HasHost-append-right id (folder_node p ∷ ns) ms h = HasHost-append-right id ns ms h
HasHost-append-right id (host_node g ∷ ns) ms h = inr (HasHost-append-right id ns ms h)

HasHost-append_mono :
    (id : Bytes) (ns ns' ms ms' : List Node)
    → (HasHost id ns → HasHost id ns')
    → (HasHost id ms → HasHost id ms')
    → HasHost id (ns ++ ms)
    → HasHost id (ns' ++ ms')
HasHost-append_mono id [] ns' ms ms' hn hm h = HasHost-append-right id ns' ms' (hm h)
HasHost-append_mono id (folder_node p ∷ ns) ns' ms ms' hn hm h =
    HasHost-append_mono id ns ns' ms ms' hn hm h
HasHost-append_mono id (host_node g ∷ ns) ns' ms ms' hn hm (inl e) =
    HasHost-append-left id ns' ms' (hn (inl e))
HasHost-append_mono id (host_node g ∷ ns) ns' ms ms' hn hm (inr h) =
    HasHost-append_mono id ns ns' ms ms' (λ x. hn (inr x)) hm h

-- One node's part of a layer: its children and the nodes after it.
abbrev turn : Bool → Node → List Node → List Node → List Node
turn b n ms rest = if b then n ∷ (ms ++ rest) else rest

turn-rest :
    (id : Bytes) (b : Bool) (n : Node) (ms rest : List Node)
    → HasHost id rest
    → HasHost id (turn b n ms rest)
turn-rest id false n ms rest h = h
turn-rest id true (folder_node p) ms rest h = HasHost-append-right id ms rest h
turn-rest id true (host_node g) ms rest h = inr (HasHost-append-right id ms rest h)

turn_mono :
    (id : Bytes) (b : Bool) (n : Node) (ms ms' rest rest' : List Node)
    → (HasHost id ms → HasHost id ms')
    → (HasHost id rest → HasHost id rest')
    → HasHost id (turn b n ms rest)
    → HasHost id (turn b n ms' rest')
turn_mono id false n ms ms' rest rest' hm hr h = hr h
turn_mono id true (folder_node p) ms ms' rest rest' hm hr h =
    HasHost-append_mono id ms ms' rest rest' hm hr h
turn_mono id true (host_node g) ms ms' rest rest' hm hr (inl e) = inl e
turn_mono id true (host_node g) ms ms' rest rest' hm hr (inr h) =
    inr (HasHost-append_mono id ms ms' rest rest' hm hr h)

turn-node :
    (id : Bytes) (b : Bool) (n : Node) (ms rest : List Node)
    → b ≡ true
    → HasHost id (n ∷ [])
    → HasHost id (turn b n ms rest)
turn-node id false n ms rest e h = absurd (ground arith)
turn-node id true (folder_node p) ms rest e h = absurd (ground (arith, h))
turn-node id true (host_node g) ms rest e (inl h) = inl h
turn-node id true (host_node g) ms rest e (inr h) = absurd (ground (arith, h))

turn-below :
    (id : Bytes) (b : Bool) (n : Node) (below : Bytes → List Node) (p : Bytes) (rest : List Node)
    → b ≡ true
    → is_folder p n ≡ true
    → HasHost id (below p)
    → HasHost id (turn b n (nodes_below below n) rest)
turn-below id false n below p rest e f h = absurd (ground arith)
turn-below id true (host_node g) below p rest e f h = absurd (ground arith)
turn-below id true (folder_node q) below p rest e f h =
    HasHost-append-left id (below q) rest
      (subst (λ r. HasHost id (below r)) (sym ((bytes_beq_iff q p).0 f)) h)

nodes_below_mono :
    (b c : Bytes → List Node) (id : Bytes) (n : Node)
    → ((p : Bytes) → HasHost id (b p) → HasHost id (c p))
    → HasHost id (nodes_below b n)
    → HasHost id (nodes_below c n)
nodes_below_mono b c id (folder_node p) le h = le p h
nodes_below_mono b c id (host_node g) le h = cc

-- A deeper walk finds no less.
layer_mono :
    (b c : Bytes → List Node) (id : Bytes) (es : List Edge) (f : Bytes)
    → ((p : Bytes) → HasHost id (b p) → HasHost id (c p))
    → HasHost id (layer b es f)
    → HasHost id (layer c es f)
unfolding layer
layer_mono b c id [] f le h = cc
layer_mono b c id (e ∷ es) f le h =
    turn_mono id (e.parent == f) e.node (nodes_below b e.node) (nodes_below c e.node) (layer b es f)
      (layer c es f) (nodes_below_mono b c id e.node le) (layer_mono b c id es f le) h

-- What is below a folder is found with it.
layer-linked :
    (below : Bytes → List Node) (id : Bytes) (es : List Edge) (p : Bytes)
    → linked es p ≡ true
    → HasHost id (below p)
    → HasHost id (layer below es (parent_path p))
unfolding layer
layer-linked below id [] p l h = absurd (ground arith)
layer-linked below id (e ∷ es) p l h = elim (Bool-cases (linked es p)) [
  | inl later ↦
      turn-rest id (e.parent == parent_path p) e.node (nodes_below below e.node)
        (layer below es (parent_path p)) (layer-linked below id es p later h)
  | inr here ↦
      turn-below id (e.parent == parent_path p) e.node below p (layer below es (parent_path p))
        (ground (arith, here)) (ground (arith, here)) h
]

layer-Holds :
    (below : Bytes → List Node) (id : Bytes) (es : List Edge) (f : Bytes)
    → Holds es f id
    → HasHost id (layer below es f)
unfolding layer
layer-Holds below id [] f h = cc
layer-Holds below id (e ∷ es) f (inl (p, h)) =
    turn-node id (e.parent == f) e.node (nodes_below below e.node) (layer below es f)
      ((bytes_beq_iff e.parent f).1 p) h
layer-Holds below id (e ∷ es) f (inr h) =
    turn-rest id (e.parent == f) e.node (nodes_below below e.node) (layer below es f)
      (layer-Holds below id es f h)

nodes_under_mono :
    (d : ℕ) (es : List Edge) (f id : Bytes)
    → HasHost id (nodes_under d es f)
    → HasHost id (nodes_under (suc d) es f)
unfolding nodes_under
nodes_under_mono zero es f id h = absurd (ground (arith, h))
nodes_under_mono (suc d) es f id h =
    layer_mono (λ p. nodes_under d es p) (λ p. nodes_under (suc d) es p) id es f
      (λ p h. nodes_under_mono d es p id h) h

nodes_under-deeper :
    (d m : ℕ) (es : List Edge) (f id : Bytes)
    → d ≤ m
    → HasHost id (nodes_under d es f)
    → HasHost id (nodes_under m es f)
nodes_under-deeper d zero es f id le h =
    subst (λ k. HasHost id (nodes_under k es f)) {x = d} {y = 0} (omega arith) h
nodes_under-deeper d (suc m) es f id le h = elim (Bool-cases (leb d m)) [
  | inl small ↦
      nodes_under_mono m es f id (nodes_under-deeper d m es f id (ground (arith, small)) h)
  | inr big ↦
      subst (λ k. HasHost id (nodes_under k es f)) {x = d} {y = suc m} (ground (arith, big)) h
]

-- From a folder up to the root.
from_root :
    (n d m : ℕ) (es : List Edge) (p id : Bytes)
    → IsTree es
    → length p ≤ n
    → d + n ≤ m
    → is_known es p ≡ true
    → HasHost id (nodes_under d es p)
    → HasHost id (nodes_under m es [])
from_root n d m es [] id t le deep k h = nodes_under-deeper d m es [] id (omega arith) h
from_root zero d m es (c ∷ p) id t le deep k h = absurd (omega arith)
from_root (suc n) d m es (c ∷ p) id t le deep k h =
    let path = c ∷ p in
    let (l, k') = IsTree-linked es path t (ground (arith, bytes_beq_iff (c ∷ p) [])) in
    let up : HasHost id (nodes_under (suc d) es (parent_path path)) =
      unfold nodes_under in layer-linked (λ q. nodes_under d es q) id es path l h in
    let shorter = parent_path_shorter path (λ e. ground arith) in
    from_root n (suc d) m es (parent_path path) id t (omega arith) (omega arith) k' up

Holds-deepest : (es : List Edge) (f id : Bytes) → Holds es f id → length f ≤ deepest es
Holds-deepest [] f id h = absurd (ground (arith, h))
Holds-deepest (e ∷ es) f id (inl (p, h)) = ground (arith, p)
Holds-deepest (e ∷ es) f id (inr h) = ground (arith, Holds-deepest es f id h)

walk_tree-HasHost :
    (es : List Edge) (id : Bytes) → IsTree es → HasId id (hosts_of es) → HasHost id (walk_tree es)
unfolding walk_tree
walk_tree-HasHost es id t h =
    let (f, holds, k) = IsTree-Holds es id t h in
    let here : HasHost id (nodes_under 1 es f) =
      unfold nodes_under in layer-Holds (λ q. nodes_under 0 es q) id es f holds in
    from_root (deepest es) 1 (suc (deepest es)) es f id t (Holds-deepest es f id holds)
      (omega arith) k here

-- After a rebuild the cursor is on a host with the id of the one selected before, wherever the
-- filter keeps one, in whatever folder it is.
pub rebuild-cursor :
    (hosts : List Host) (filter_text : Bytes) (prev : Host)
    → HasId prev.id (visible hosts filter_text)
    → (h : Host) × ((rebuild hosts filter_text (some prev)).1 ≡ some (host_node h))
      × (h.id ≡ prev.id)
unfolding rebuild
rebuild-cursor hosts filter_text prev h =
    let es = build hosts filter_text in
    let (t, all) = build-IsTree hosts filter_text in
    select_after_rebuild_lem filter_text (walk_tree es) prev
      (walk_tree-HasHost es prev.id t (subst (λ l. HasId prev.id l) (sym all) h))
