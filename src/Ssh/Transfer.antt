-- ===== src/Ssh/Transfer.antt =====
-- Listing, removing and downloading of internal/ssh/sftp.go. A remote or local tree is given by its
-- entries in the order of their listing; what cannot be done is an argument.
pub mod Listing
pub mod Counting
pub mod Removal
pub mod Download
pub mod Upload
use lazyssh.Base.{ℕ, Bool, List, [], ◌∷◌, ◌++◌, Bytes}

-- A leaf is a file, or a link that leads to one, with what a reader gets. A link is one that leads to
-- no file; it stands below a folder only.
mutual
  pub data Tree : Type 0 where
    leaf : Bytes → Tree
    link : Tree
    folder : Entries → Tree

  pub data Entries : Type 0 where
    done : Entries
    entry : Bytes → Tree → Entries → Entries

-- The path of an entry, as the source spells it.
abbrev pub child : Bytes → Bytes → Bytes
child p name = p ++ (b'/' ∷ name)
