-- ===== src/Ui/Tree.antt =====
-- `rebuild` of internal/ui/hostlist.go: the tree of folders and hosts. The tree is the list of its
-- nodes in the order in which they were added, each under the folder whose path it is with; the root
-- has the empty path.
mod Tests
pub mod Grown
pub mod Placed
pub mod Walked
use lazyssh.Base.{
  ℕ, zero, suc, Bool, true, false, ◌||◌, Option, none, some, List, [], ◌∷◌, ◌++◌, Bytes, length,
  take, ◌==◌, bytes_eq, leb, if◌then◌else◌,
}
use lazyssh.Strings.{last_index}
use lazyssh.Model.{Host}
use lazyssh.Ui.Hosts.{Node, folder_node, host_node, visible, select_after_rebuild}

-- A node that was added to another.
pub record Edge : Type 0 where
  pub parent : Bytes
  pub node : Node

abbrev pub is_folder : Bytes → Node → Bool
is_folder path (folder_node p) = p == path
is_folder path (host_node h) = false

-- `folderNodes[path]`
unfoldable pub has_folder : List Edge → Bytes → Bool
has_folder [] path = false
has_folder (e ∷ es) path = is_folder path e.node || has_folder es path

abbrev pub before_slash : Bytes → Option ℕ → Bytes
before_slash path none = []
before_slash path (some i) = take i path

unfoldable pub parent_path : Bytes → Bytes
parent_path path = before_slash path (last_index path b'/')

abbrev pub add_folder : List Edge → Bytes → List Edge
add_folder es path = es ++ record { parent = parent_path path; node = folder_node path } ∷ []

-- The nodes after `getFolder(path)`. The fuel is for the recursion on the parent's path.
unfoldable pub get_folder : ℕ → Bytes → List Edge → List Edge
get_folder zero path es = es
get_folder (suc fuel) path es =
    let above = get_folder fuel (parent_path path) es in
    if path == [] || has_folder es path then es else add_folder above path

-- The parent's path is shorter, so the path's length is enough.
abbrev pub with_folder : Bytes → List Edge → List Edge
with_folder path es = get_folder (suc (length path)) path es

abbrev pub add_host : List Edge → Host → List Edge
add_host es h = with_folder h.folder es ++ record { parent = h.folder; node = host_node h } ∷ []

-- The loop over the hosts that the filter keeps.
unfoldable pub add_hosts : List Edge → List Host → List Edge
add_hosts es [] = es
add_hosts es (h ∷ hs) = add_hosts (add_host es h) hs

unfoldable pub build : List Host → Bytes → List Edge
build hosts filter_text = add_hosts [] (visible hosts filter_text)

abbrev pub nodes_below : (Bytes → List Node) → Node → List Node
nodes_below below (folder_node p) = below p
nodes_below below (host_node h) = []

-- The nodes that were added under a path, each with what is below it.
unfoldable pub layer : (Bytes → List Node) → List Edge → Bytes → List Node
layer below [] path = []
layer below (e ∷ es) path =
    let rest = layer below es path in
    if e.parent == path then e.node ∷ (nodes_below below e.node ++ rest) else rest

-- `Walk` from the nodes under a folder, down to a depth.
unfoldable pub nodes_under : ℕ → List Edge → Bytes → List Node
nodes_under zero es path = []
nodes_under (suc depth) es path = layer (λ p. nodes_under depth es p) es path

-- No node is deeper than its path is long.
abbrev pub deepest : List Edge → ℕ
deepest [] = 0
deepest (e ∷ es) =
    let rest = deepest es in if leb rest (length e.parent) then length e.parent else rest

unfoldable pub walk_tree : List Edge → List Node
walk_tree es = nodes_under (suc (deepest es)) es []

-- The new tree and the node that the cursor is put on. The last argument is the host that was
-- selected before.
unfoldable pub rebuild : List Host → Bytes → Option Host → List Edge × Option Node
rebuild hosts filter_text prev =
    let es = build hosts filter_text in (es, select_after_rebuild filter_text (walk_tree es) prev)
