-- ===== src/Ssh/Transfer/Removal.antt =====
-- `RemoveRemoteAll` of internal/ssh/sftp.go.
use lazyssh.Base.{
  Bool, true, false, Option, none, some, Bytes, if◌then◌else◌, ◌≡◌, refl, ◌⊎◌, Bool-cases, inl, inr,
}
use lazyssh.Ssh.Transfer.{Tree, leaf, link, folder, Entries, done, entry, child}

-- The paths whose removal the server refuses, and the directories that it does not list.
pub record Refusals : Type 0 where
  pub kept : Bytes → Bool
  pub unlisted : Bytes → Bool

-- `Remove` takes a file, a link or an empty directory away. What is left, none where it succeeds.
abbrev is_empty : Tree → Bool
is_empty (leaf c) = true
is_empty link = true
is_empty (folder done) = true
is_empty (folder (entry n t es)) = false

unfoldable pub remove : Refusals → Bytes → Tree → Option Tree
remove r p t = if is_empty t then (if r.kept p then some t else none) else some t

-- After a child was removed, the loop goes on; where it was not, the call fails there.
abbrev pub after_child : Bytes → Entries → Option Tree → Entries → Entries
after_child n es none rest = rest
after_child n es (some t) rest = entry n t es

-- What is left of the entries. The loop runs to its end where nothing is.
abbrev finish : Refusals → Bytes → Entries → Option Tree
finish r p done = remove r p (folder done)
finish r p (entry n t es) = some (folder (entry n t es))

unfoldable mutual
  unfolding remove

  pub remove_all : Refusals → Bytes → Tree → Option Tree
  remove_all r p (leaf c) = remove r p (leaf c)
  remove_all r p link = remove r p link
  remove_all r p (folder es) =
      let left = remove_entries r p es in
      if r.unlisted p then remove r p (folder es) else finish r p left

  pub remove_entries : Refusals → Bytes → Entries → Entries
  remove_entries r p done = done
  remove_entries r p (entry n t es) =
      let rest = remove_entries r p es in after_child n es (remove_all r (child p n) t) rest

-- Some path of the tree is one that the server refuses to remove or to list.
unfoldable mutual
  pub Refused : Refusals → Bytes → Tree → Type 0
  Refused r p (leaf c) = r.kept p ≡ true
  Refused r p link = r.kept p ≡ true
  Refused r p (folder es) = (r.kept p ≡ true) ⊎ ((r.unlisted p ≡ true) ⊎ RefusedBelow r p es)

  pub RefusedBelow : Refusals → Bytes → Entries → Type 0
  RefusedBelow r p done = false ≡ true
  RefusedBelow r p (entry n t es) = Refused r (child p n) t ⊎ RefusedBelow r p es

remove_lem :
    (r : Refusals) (p : Bytes) (t : Tree)
    → is_empty t ≡ true
    → (remove r p t ≡ none) ⊎ (r.kept p ≡ true)
unfolding remove
remove_lem r p t e = elim (Bool-cases (r.kept p)) [ inl k ↦ inr k | inr k ↦ inl (rw (e, k) refl) ]

folder_lem :
    (r : Refusals) (p : Bytes) (es : Entries)
    → (remove_entries r p es ≡ done) ⊎ RefusedBelow r p es
    → (remove_all r p (folder es) ≡ none) ⊎ Refused r p (folder es)
unfolding remove_all Refused
folder_lem r p es (inr h) = inr (inr (inr h))
folder_lem r p es (inl e) = elim (Bool-cases (r.unlisted p)) [
  | inl u ↦ inr (inr (inl u))
  | inr u ↦ elim (remove_lem r p (folder done) refl) [
    | inr k ↦ inr (inl k)
    | inl g ↦ inl (rw (u, e) g)
  ]
]

entry_lem :
    (r : Refusals) (p n : Bytes) (t : Tree) (es : Entries)
    → (remove_all r (child p n) t ≡ none) ⊎ Refused r (child p n) t
    → (remove_entries r p es ≡ done) ⊎ RefusedBelow r p es
    → (remove_entries r p (entry n t es) ≡ done) ⊎ RefusedBelow r p (entry n t es)
unfolding remove_entries RefusedBelow
entry_lem r p n t es (inr h) _ = inr (inl h)
entry_lem r p n t es (inl e) (inr h) = inr (inr h)
entry_lem r p n t es (inl e) (inl f) = inl (rw (e, f) refl)

mutual
  unfolding remove_all remove_entries Refused RefusedBelow

  pub removed : (r : Refusals) (p : Bytes) (t : Tree) → (remove_all r p t ≡ none) ⊎ Refused r p t
  removed r p (leaf c) = remove_lem r p (leaf c) refl
  removed r p link = remove_lem r p link refl
  removed r p (folder es) = folder_lem r p es (removed_below r p es)

  pub removed_below :
      (r : Refusals) (p : Bytes) (es : Entries)
      → (remove_entries r p es ≡ done) ⊎ RefusedBelow r p es
  removed_below r p done = inl refl
  removed_below r p (entry n t es) =
      entry_lem r p n t es (removed r (child p n) t) (removed_below r p es)

-- Recursive removal leaves nothing of a tree in which the server refuses no removal and no listing.
pub remove_all-none :
    (r : Refusals) (p : Bytes) (t : Tree) → ¬ Refused r p t → remove_all r p t ≡ none
remove_all-none r p t h = elim (removed r p t) [ inl e ↦ e | inr f ↦ absurd (h f) ]
