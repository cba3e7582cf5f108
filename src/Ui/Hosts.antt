-- ===== src/Ui/Hosts.antt =====
-- internal/ui/hostlist.go: the filter, the deletion of a host and the cursor.
pub mod Cursor
use lazyssh.Base.{
  ℕ, Bool, true, false, ◌||◌, ◌&&◌, not, Option, none, some, List, [], ◌∷◌, ◌++◌, Bytes, ◌==◌,
  bytes_eq, if◌then◌else◌,
}
use lazyssh.Strings.{contains, to_lower}
use lazyssh.Model.{Host}

unfoldable pub delete_host : List Host → Bytes → List Host
delete_host [] id = []
delete_host (h ∷ hs) id = (if h.id == id then [] else h ∷ []) ++ delete_host hs id

abbrev tags_match : List Bytes → Bytes → Bool
tags_match [] lower = false
tags_match (t ∷ ts) lower = contains (to_lower t) lower || tags_match ts lower

unfoldable pub host_matches_filter : Host → Bytes → Bool
host_matches_filter h lower =
    contains (to_lower h.name) lower
    || contains (to_lower h.hostname) lower
    || contains (to_lower h.folder) lower
    || tags_match h.tags lower

-- The hosts that `rebuild` puts into the tree.
abbrev kept_by : Bytes → Host → Bool
kept_by lower h = lower == [] || host_matches_filter h lower

abbrev filtered : Bytes → List Host → List Host
filtered lower [] = []
filtered lower (h ∷ hs) = (if kept_by lower h then h ∷ [] else []) ++ filtered lower hs

unfoldable pub visible : List Host → Bytes → List Host
visible hosts filter_text = filtered (to_lower filter_text) hosts

-- A node of the tree in the order of its walk: a folder, or a host.
pub data Node : Type 0 where
  folder_node : Bytes → Node
  host_node : Host → Node

-- What the walk of `selectAfterRebuild` finds: the first node, the first host and the last host with
-- the id of the one selected before.
pub record Marks : Type 0 where
  pub first_any : Option Node
  pub first_host : Option Node
  pub match : Option Node

abbrev or_else : Option Node → Node → Option Node
or_else none n = some n
or_else (some m) n = some m

abbrev is_prev : Option Host → Host → Bool
is_prev none h = false
is_prev (some p) h = h.id == p.id

unfoldable pub mark : Option Host → Marks → Node → Marks
mark prev m (folder_node p) = record m { first_any = or_else m.first_any (folder_node p) }
mark prev m (host_node h) = record {
  first_any = or_else m.first_any (host_node h);
  first_host = or_else m.first_host (host_node h);
  match = if is_prev prev h then some (host_node h) else m.match;
}

unfoldable pub walk : Option Host → Marks → List Node → Marks
walk prev m [] = m
walk prev m (n ∷ ns) = walk prev (mark prev m n) ns

abbrev otherwise : Bytes → Option Node → Option Node → Option Node
otherwise filter_text none any = any
otherwise filter_text (some h) any = if filter_text == [] then any else some h

abbrev pick : Bytes → Marks → Option Node → Option Node
pick filter_text m (some n) = some n
pick filter_text m none = otherwise filter_text m.first_host m.first_any

-- The node that the cursor is put on, none where the tree has none.
unfoldable pub select_after_rebuild : Bytes → List Node → Option Host → Option Node
select_after_rebuild filter_text nodes prev =
    let m = walk prev (record { first_any = none; first_host = none; match = none }) nodes in
    pick filter_text m m.match
