-- ===== src/Ui/Tree/Grown.antt =====
-- The tree that `rebuild` of internal/ui/hostlist.go grows.
use lazyssh.Base.{
  ℕ, zero, suc, ◌<◌, Bool, true, false, ◌||◌, Option, none, some, List, [], ◌∷◌, ◌++◌, Bytes, ◌≡◌,
  ◌≢◌, refl, sym, ap, ◌∙◌, length, length-take, ◌==◌, nat_eq, bytes_eq, bytes_beq, bytes_beq_iff,
  arith, Bool-cases, Option-cases, inl, inr, append-nil, append_assoc,
}
use lazyssh.Strings.{last_index}
use lazyssh.Model.{Host}
use lazyssh.Ui.Hosts.{Node, folder_node, host_node, visible}
use lazyssh.Ui.Tree.{
  Edge, has_folder, parent_path, get_folder, add_host, add_hosts, build, is_folder, before_slash,
  with_folder,
}

abbrev pub is_known : List Edge → Bytes → Bool
is_known es path = path == [] || has_folder es path

-- Grown from the root: a folder is made once, under the folder of its path up to the last slash,
-- and a host is put under the folder that it names; the folder above is there before.
pub data IsTree : List Edge → Type 0 where
  root : IsTree []
  grow_folder :
      {es : List Edge} (path : Bytes)
      → IsTree es
      → is_known es (parent_path path) ≡ true
      → is_known es path ≡ false
      → IsTree (es ++ record { parent = parent_path path; node = folder_node path } ∷ [])
  grow_host :
      {es : List Edge} (h : Host)
      → IsTree es
      → is_known es h.folder ≡ true
      → IsTree (es ++ record { parent = h.folder; node = host_node h } ∷ [])

last_index_lt : (s : Bytes) (c i : ℕ) → last_index s c ≡ some i → i < length s
unfolding last_index
last_index_lt [] c i e = ground arith
last_index_lt (b ∷ s) c i e = elim (Option-cases (last_index s c)) [
  | inl n ↦ ground (arith, n)
  | inr (j, ej) ↦ ground (arith, ej, last_index_lt s c j ej)
]

before_slash_shorter :
    (path : Bytes) (o : Option ℕ)
    → path ≢ []
    → ((i : ℕ) → o ≡ some i → i < length path)
    → length (before_slash path o) < length path
before_slash_shorter [] o ne h = absurd (ne refl)
before_slash_shorter (c ∷ path) none ne h = omega arith
before_slash_shorter (c ∷ path) (some i) ne h = omega (arith, length-take i (c ∷ path), h i refl)

pub parent_path_shorter : (path : Bytes) → path ≢ [] → length (parent_path path) < length path
unfolding parent_path
parent_path_shorter path ne =
    before_slash_shorter path (last_index path b'/') ne (λ i e. last_index_lt path b'/' i e)

pub has_folder-snoc :
    (es : List Edge) (e : Edge) (p : Bytes)
    → has_folder (es ++ e ∷ []) p ≡ (has_folder es p || is_folder p e.node)
unfolding has_folder
has_folder-snoc [] e p = ground arith
has_folder-snoc (d ∷ es) e p = ground (arith, has_folder-snoc es e p)

longer_differs : (p q : Bytes) → length q < length p → bytes_beq q p ≡ false
longer_differs p q h = ground (arith, bytes_beq_iff q p, λ (e : q ≡ p). ap (λ l. length l) e)

-- A folder that is longer than the one asked for is not made.
get_folder_longer :
    (fuel : ℕ) (q : Bytes) (es : List Edge) (p : Bytes)
    → length q < length p
    → has_folder (get_folder fuel q es) p ≡ has_folder es p
unfolding get_folder
get_folder_longer zero q es p h = refl
get_folder_longer (suc fuel) q es p h = elim (Bool-cases (is_known es q)) [
  | inl known ↦ rw known
  | inr new ↦
      let above = get_folder fuel (parent_path q) es in
      let ne : q ≢ [] = λ e. ground (arith, bytes_beq_iff q []) in
      rw new (
        has_folder-snoc above (record { parent = parent_path q; node = folder_node q }) p
        ∙ ground (
          arith,
          longer_differs p q h,
          get_folder_longer fuel (parent_path q) es p (omega (arith, parent_path_shorter q ne)),
        ))
]

-- What is known stays known.
get_folder-known :
    (fuel : ℕ) (q : Bytes) (es : List Edge) (p : Bytes)
    → is_known es p ≡ true
    → is_known (get_folder fuel q es) p ≡ true
unfolding get_folder
get_folder-known zero q es p h = h
get_folder-known (suc fuel) q es p h = elim (Bool-cases (is_known es q)) [
  | inl known ↦ rw known h
  | inr new ↦
      let above = get_folder fuel (parent_path q) es in
      rw new (
        ground (
          arith,
          has_folder-snoc above (record { parent = parent_path q; node = folder_node q }) p,
          get_folder-known fuel (parent_path q) es p h,
        ))
]

-- With fuel for every part of the path, the folder is there afterwards.
get_folder-IsTree :
    (fuel : ℕ) (q : Bytes) (es : List Edge)
    → length q < fuel
    → IsTree es
    → IsTree (get_folder fuel q es) × (is_known (get_folder fuel q es) q ≡ true)
unfolding get_folder
get_folder-IsTree zero q es h t = absurd (omega arith)
get_folder-IsTree (suc fuel) q es h t = elim (Bool-cases (is_known es q)) [
  | inl known ↦ rw known (t, known)
  | inr new ↦
      let above = get_folder fuel (parent_path q) es in
      let ne : q ≢ [] = λ e. ground (arith, bytes_beq_iff q []) in
      let shorter = parent_path_shorter q ne in
      let (t', k) = get_folder-IsTree fuel (parent_path q) es (omega arith) t in
      let fresh : is_known above q ≡ false =
        ground (arith, get_folder_longer fuel (parent_path q) es q shorter, new) in
      rw new (
        IsTree.grow_folder q t' k fresh,
        ground (
          arith,
          has_folder-snoc above (record { parent = parent_path q; node = folder_node q }) q,
          bytes_beq_iff q q,
        ),
      )
]

-- The hosts of the tree, in the order in which they were added.
abbrev pub host_of : Node → List Host
host_of (folder_node p) = []
host_of (host_node h) = h ∷ []

abbrev pub hosts_of : List Edge → List Host
hosts_of [] = []
hosts_of (e ∷ es) = host_of e.node ++ hosts_of es

pub hosts_of-append : (es ds : List Edge) → hosts_of (es ++ ds) ≡ hosts_of es ++ hosts_of ds
hosts_of-append [] ds = refl
hosts_of-append (e ∷ es) ds =
    rw (hosts_of-append es ds) (sym (append_assoc (host_of e.node) (hosts_of es) (hosts_of ds)))

hosts_of-get_folder :
    (fuel : ℕ) (q : Bytes) (es : List Edge) → hosts_of (get_folder fuel q es) ≡ hosts_of es
unfolding get_folder
hosts_of-get_folder zero q es = refl
hosts_of-get_folder (suc fuel) q es = elim (Bool-cases (is_known es q)) [
  | inl known ↦ rw known
  | inr new ↦
      let above = get_folder fuel (parent_path q) es in
      rw new (
        hosts_of-append above (record { parent = parent_path q; node = folder_node q } ∷ [])
        ∙ append-nil (hosts_of above)
        ∙ hosts_of-get_folder fuel (parent_path q) es)
]

add_host-IsTree : (es : List Edge) (h : Host) → IsTree es → IsTree (add_host es h)
add_host-IsTree es h t =
    let (t', k) = get_folder-IsTree (suc (length h.folder)) h.folder es (omega arith) t in
    IsTree.grow_host h t' k

hosts_of-add_host : (es : List Edge) (h : Host) → hosts_of (add_host es h) ≡ hosts_of es ++ h ∷ []
hosts_of-add_host es h =
    rw
      (
        hosts_of-append (with_folder h.folder es)
            (record { parent = h.folder; node = host_node h } ∷ []),
        hosts_of-get_folder (suc (length h.folder)) h.folder es,
      )
      refl

add_hosts-IsTree : (es : List Edge) (hs : List Host) → IsTree es → IsTree (add_hosts es hs)
unfolding add_hosts
add_hosts-IsTree es [] t = t
add_hosts-IsTree es (h ∷ hs) t = add_hosts-IsTree (add_host es h) hs (add_host-IsTree es h t)

hosts_of-add_hosts :
    (es : List Edge) (hs : List Host) → hosts_of (add_hosts es hs) ≡ hosts_of es ++ hs
unfolding add_hosts
hosts_of-add_hosts es [] = sym (append-nil (hosts_of es))
hosts_of-add_hosts es (h ∷ hs) =
    hosts_of-add_hosts (add_host es h) hs
    ∙ ap (λ l. l ++ hs) (hosts_of-add_host es h)
    ∙ append_assoc (hosts_of es) (h ∷ []) hs

-- The tree is well grown, and its hosts are exactly those that the filter keeps, in the store's order.
pub build-IsTree :
    (hosts : List Host) (filter_text : Bytes)
    → IsTree (build hosts filter_text)
      × (hosts_of (build hosts filter_text) ≡ visible hosts filter_text)
unfolding build
build-IsTree hosts filter_text = (
  add_hosts-IsTree [] (visible hosts filter_text) IsTree.root,
  hosts_of-add_hosts [] (visible hosts filter_text),
)
