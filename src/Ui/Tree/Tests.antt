-- ===== src/Ui/Tree/Tests.antt =====
-- The theorems about the tree of hosts (internal/ui/hostlist.go) at concrete inputs, and small runs.
use lazyssh.Base.{some, List, [], ◌∷◌, Bytes, codes, ◌≡◌, refl, inl, inr, bytes_eq, bytes_beq}
use lazyssh.Model.{Host}
use lazyssh.Model.Tests.{web}
use lazyssh.Ui.Hosts.{folder_node, host_node, visible}
use lazyssh.Ui.Tree.{
  build, rebuild, walk_tree, nodes_under, layer, add_hosts, get_folder, has_folder, parent_path,
}
use lazyssh.Strings.{to_lower, last_index}
use lazyssh.Ui.Tree.Grown.{IsTree, hosts_of, build-IsTree}
use lazyssh.Ui.Tree.Walked.{rebuild-cursor}

abbrev host_in : Bytes → Bytes → Host
host_in id folder = record web { id = id; folder = folder }

abbrev hosts : List Host
hosts =
    host_in (codes "1") (codes "a/b")
    ∷ host_in (codes "2") []
    ∷ host_in (codes "3") (codes "a")
    ∷ []

all_visible : visible hosts [] ≡ hosts
unfolding visible bytes_beq to_lower
all_visible = refl

walked :
    walk_tree (build hosts [])
    ≡ folder_node (codes "a")
      ∷ folder_node (codes "a/b")
      ∷ host_node (host_in (codes "1") (codes "a/b"))
      ∷ host_node (host_in (codes "3") (codes "a"))
      ∷ host_node (host_in (codes "2") [])
      ∷ []
unfolding walk_tree build visible nodes_under layer add_hosts bytes_beq to_lower get_folder
    has_folder parent_path last_index
walked = refl

build-IsTree_example : IsTree (build hosts []) × (hosts_of (build hosts []) ≡ visible hosts [])
build-IsTree_example = build-IsTree hosts []

rebuild-cursor_example :
    (h : Host) × ((rebuild hosts [] (some (host_in (codes "3") (codes "old")))).1
      ≡ some (host_node h))
    × (h.id ≡ codes "3")
rebuild-cursor_example =
    rebuild-cursor hosts [] (host_in (codes "3") (codes "old"))
      (rw all_visible (inr (inr (inl refl))))
