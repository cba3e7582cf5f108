-- ===== src/Ui/Tree/Placed.antt =====
-- Where the nodes of the tree of internal/ui/hostlist.go are.
use lazyssh.Base.{
  Bool, true, false, ◌||◌, ◌&&◌, List, [], ◌∷◌, ◌++◌, Bytes, ◌≡◌, refl, subst, ◌∙◌, ◌==◌, nat_eq,
  bytes_eq, bytes_beq_iff, arith, Bool-cases, inl, inr, ◌⊎◌, append-nil,
}
use lazyssh.Model.{Host}
use lazyssh.Ui.Hosts.{folder_node, host_node}
use lazyssh.Ui.Hosts.Cursor.{HasHost}
use lazyssh.Ui.Tree.{Edge, has_folder, parent_path, is_folder}
use lazyssh.Ui.Tree.Grown.{IsTree, is_known, has_folder-snoc, hosts_of, hosts_of-append}

-- The folder was added under its parent.
abbrev pub linked : List Edge → Bytes → Bool
linked [] p = false
linked (e ∷ es) p = (is_folder p e.node && (e.parent == parent_path p)) || linked es p

linked-snoc :
    (es : List Edge) (e : Edge) (p : Bytes)
    → linked (es ++ e ∷ []) p ≡ (linked es p || (is_folder p e.node && (e.parent == parent_path p)))
linked-snoc [] e p = ground arith
linked-snoc (d ∷ es) e p = ground (arith, linked-snoc es e p)

-- A host with the id was added under the path.
abbrev pub Holds : List Edge → Bytes → Bytes → Type 0
Holds [] f id = false ≡ true
Holds (e ∷ es) f id = ((e.parent ≡ f) × HasHost id (e.node ∷ [])) ⊎ Holds es f id

abbrev pub HasId : Bytes → List Host → Type 0
HasId id [] = false ≡ true
HasId id (h ∷ hs) = (h.id ≡ id) ⊎ HasId id hs

Holds-snoc : (es : List Edge) (e : Edge) (f id : Bytes) → Holds es f id → Holds (es ++ e ∷ []) f id
Holds-snoc [] e f id h = cc
Holds-snoc (d ∷ es) e f id (inl h) = inl h
Holds-snoc (d ∷ es) e f id (inr h) = inr (Holds-snoc es e f id h)

Holds-last :
    (es : List Edge) (e : Edge) (f id : Bytes)
    → e.parent ≡ f
    → HasHost id (e.node ∷ [])
    → Holds (es ++ e ∷ []) f id
Holds-last [] e f id p h = inl (p, h)
Holds-last (d ∷ es) e f id p h = inr (Holds-last es e f id p h)

HasId-snoc :
    (id : Bytes) (hs : List Host) (h : Host) → HasId id (hs ++ h ∷ []) → HasId id hs ⊎ (h.id ≡ id)
HasId-snoc id [] h (inl e) = inr e
HasId-snoc id [] h (inr e) = absurd (ground (arith, e))
HasId-snoc id (g ∷ hs) h (inl e) = inl (inl e)
HasId-snoc id (g ∷ hs) h (inr e) = elim (HasId-snoc id hs h e) [
  | inl l ↦ inl (inr l)
  | inr r ↦ inr r
]

-- A folder of the tree hangs under a folder of the tree, the one of its path.
pub IsTree-linked :
    (es : List Edge) (p : Bytes)
    → IsTree es
    → has_folder es p ≡ true
    → (linked es p ≡ true) × (is_known es (parent_path p) ≡ true)
IsTree-linked _ p IsTree.root h = absurd (unfold has_folder in ground (arith, h))
IsTree-linked _ p (IsTree.grow_folder {es} path t k new) h =
    let e : Edge = record { parent = parent_path path; node = folder_node path } in
    elim (Bool-cases (has_folder es p)) [
      | inl old ↦
          let (l, n) = IsTree-linked es p t old in
          (ground (arith, linked-snoc es e p), ground (arith, has_folder-snoc es e (parent_path p)))
      | inr fresh ↦
          let same : path ≡ p = ground (arith, has_folder-snoc es e p, bytes_beq_iff path p) in
          (
            ground (
              arith,
              linked-snoc es e p,
              bytes_beq_iff path p,
              bytes_beq_iff (parent_path path) (parent_path p),
            ),
            ground (arith, has_folder-snoc es e (parent_path p)),
          )
    ]
IsTree-linked _ p (IsTree.grow_host {es} g t k) h =
    let e : Edge = record { parent = g.folder; node = host_node g } in
    let (l, n) = IsTree-linked es p t (ground (arith, has_folder-snoc es e p)) in
    (ground (arith, linked-snoc es e p), ground (arith, has_folder-snoc es e (parent_path p)))

is_known-snoc :
    (es : List Edge) (e : Edge) (p : Bytes)
    → is_known es p ≡ true
    → is_known (es ++ e ∷ []) p ≡ true
is_known-snoc es e p h = ground (arith, has_folder-snoc es e p)

-- A host of the tree is in a folder of the tree.
pub IsTree-Holds :
    (es : List Edge) (id : Bytes)
    → IsTree es
    → HasId id (hosts_of es)
    → (f : Bytes) × Holds es f id × (is_known es f ≡ true)
IsTree-Holds _ id IsTree.root h = absurd (ground (arith, h))
IsTree-Holds _ id (IsTree.grow_folder {es} path t k new) h =
    let e : Edge = record { parent = parent_path path; node = folder_node path } in
    let (f, o, n) =
      IsTree-Holds es id t
        (subst (λ l. HasId id l) (hosts_of-append es (e ∷ []) ∙ append-nil (hosts_of es)) h) in
    (f, Holds-snoc es e f id o, is_known-snoc es e f n)
IsTree-Holds _ id (IsTree.grow_host {es} g t k) h =
    let e : Edge = record { parent = g.folder; node = host_node g } in
    elim (HasId-snoc id (hosts_of es) g (subst (λ l. HasId id l) (hosts_of-append es (e ∷ [])) h)) [
      | inl old ↦
          let (f, o, n) = IsTree-Holds es id t old in
          (f, Holds-snoc es e f id o, is_known-snoc es e f n)
      | inr same ↦
          (g.folder, Holds-last es e g.folder id refl (inl same), is_known-snoc es e g.folder k)
    ]
