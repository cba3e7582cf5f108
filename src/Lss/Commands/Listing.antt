-- ===== src/Lss/Commands/Listing.antt =====
-- `lss list` of cmd/lss/main.go: the names that are listed, and the files that are left.
use lazyssh.Base.{
  ℕ, ◌+◌, ◌-◌, Bool, true, false, Option, none, some, List, [], ◌∷◌, ◌++◌, Bytes, codes, ◌≡◌, ◌≢◌,
  refl, sym, ap, ◌∙◌, length, length-append, drop, drop-length-append, drop-drop, arith, ◌==◌,
  nat_eq, bytes_eq, bytes_beq, bytes_beq_iff, All, Bool-cases, inl, inr, if◌then◌else◌, ◌&&◌,
}
use lazyssh.Strings.{has_suffix, trim_suffix}
use lazyssh.Lss.Commands.{
  sock_ext, pid_ext, scan_pid, File, read_file, remove_file, list_entry, prepend, list_entries,
  names_of, list_sessions,
}

-- A PID file whose process is gone.
abbrev pub stale_content : (ℕ → Bool) → Option Bytes → Bool
stale_content alive none = false
stale_content alive (some content) =
    if scan_pid content == 0 then false else if alive (scan_pid content) then false else true

abbrev pub live_content : (ℕ → Bool) → Option Bytes → Bool
live_content alive none = false
live_content alive (some content) =
    if scan_pid content == 0 then false else alive (scan_pid content)

-- The sessions of the PID files whose process runs, in the directory's order.
unfoldable pub live_names : (ℕ → Bool) → List File → List Bytes
live_names alive [] = []
live_names alive (f ∷ fs) =
    let rest = live_names alive fs in
    if has_suffix f.name pid_ext && live_content alive f.content
    then trim_suffix f.name pid_ext ∷ rest
    else rest

-- A directory's entries have different names.
abbrev pub IsDirectory : List File → Type 0
IsDirectory [] = Unit
IsDirectory (f ∷ fs) = All (λ (g : File). f.name ≢ g.name) fs × IsDirectory fs

abbrev IsPid : Bytes → Type 0
IsPid y = has_suffix y pid_ext ≡ true

pub read_file-remove_file :
    (fs : List File) (x y : Bytes)
    → read_file (remove_file fs x) y ≡ (if bytes_beq x y then none else read_file fs y)
unfolding read_file remove_file
read_file-remove_file [] x y = ground arith
read_file-remove_file (f ∷ fs) x y = ground (
  arith,
  read_file-remove_file fs x y,
  bytes_beq_iff f.name x,
  bytes_beq_iff f.name y,
  bytes_beq_iff x y,
)

sock-not-pid : (name : Bytes) → has_suffix (name ++ sock_ext) pid_ext ≡ false
unfolding has_suffix
sock-not-pid name =
    let xs = name ++ sock_ext in
    let tail : drop (length xs - 4) xs ≡ codes "sock" =
      ap (λ k. drop k xs) {x = length xs - 4} {y = length name + 1}
        (omega (arith, length-append name sock_ext))
      ∙ sym (drop-drop 1 (length name) xs)
      ∙ ap (drop 1) (drop-length-append name sock_ext) in
    let differ : bytes_beq (codes "sock") pid_ext ≡ false = unfold bytes_beq in refl in
    ground (arith, tail, differ)

sock-ne-pid : (name y : Bytes) → IsPid y → bytes_beq (name ++ sock_ext) y ≡ false
sock-ne-pid name y pid = ground (arith, bytes_beq_iff (name ++ sock_ext) y, sock-not-pid name)

module _ (alive : ℕ → Bool) where
  -- An entry's turn leaves the other PID files alone.
  read_file-list_entry :
      (fs : List File) (entry y : Bytes)
      → entry ≢ y
      → IsPid y
      → read_file (list_entry alive fs entry).1 y ≡ read_file fs y
  unfolding list_entry
  read_file-list_entry fs entry y ne pid =
      let sock = trim_suffix entry pid_ext ++ sock_ext in
      ground (
        arith,
        read_file-remove_file (remove_file fs entry) sock y,
        read_file-remove_file fs entry y,
        sock-ne-pid (trim_suffix entry pid_ext) y pid,
        bytes_beq_iff entry y,
      )

  -- The directory still holds what the snapshot says of the PID files.
  abbrev Agrees : List File → List File → Type 0
  Agrees now = All (λ (f : File). IsPid f.name → read_file now f.name ≡ f.content)

  Agrees-list_entry :
      (now rest : List File) (f : File)
      → All (λ (g : File). f.name ≢ g.name) rest
      → Agrees now rest
      → Agrees (list_entry alive now f.name).1 rest
  Agrees-list_entry now [] f d h = tt
  Agrees-list_entry now (g ∷ rest) f (d, ds) (h, hs) = (
    λ pid. read_file-list_entry now f.name g.name d pid ∙ h pid,
    Agrees-list_entry now rest f ds hs,
  )

  list_entry_live :
      (now : List File) (f : File) (names : List Bytes)
      → (IsPid f.name → read_file now f.name ≡ f.content)
      → prepend (list_entry alive now f.name).0 names ≡ (
          if has_suffix f.name pid_ext && live_content alive f.content
          then trim_suffix f.name pid_ext ∷ names
          else names)
  unfolding list_entry
  list_entry_live now f names h = elim (Bool-cases (has_suffix f.name pid_ext)) [
    | inl pid ↦ ground (arith, h pid)
    | inr other ↦ rw other
  ]

  list_entries-live_names :
      (now rest : List File)
      → IsDirectory rest
      → Agrees now rest
      → (list_entries alive now (names_of rest)).0 ≡ live_names alive rest
  unfolding list_entries live_names
  list_entries-live_names now [] d h = refl
  list_entries-live_names now (f ∷ rest) (d, ds) (h, hs) =
      let now' = (list_entry alive now f.name).1 in
      ap (λ l. prepend (list_entry alive now f.name).0 l)
        (list_entries-live_names now' rest ds (Agrees-list_entry now rest f d hs))
      ∙ list_entry_live now f (live_names alive rest) h

  Agrees-cons :
      (f : File) (fs rest : List File)
      → All (λ (g : File). f.name ≢ g.name) rest
      → Agrees fs rest
      → Agrees (f ∷ fs) rest
  unfolding read_file
  Agrees-cons f fs [] d h = tt
  Agrees-cons f fs (g ∷ rest) (d, ds) (h, hs) =
      (λ pid. ground (arith, bytes_beq_iff f.name g.name, h pid), Agrees-cons f fs rest ds hs)

  Agrees-self : (fs : List File) → IsDirectory fs → Agrees fs fs
  Agrees-self [] d = tt
  Agrees-self (f ∷ fs) (d, ds) = (
    λ _. unfold read_file in ground (arith, bytes_beq_iff f.name f.name),
    Agrees-cons f fs fs d (Agrees-self fs ds),
  )

  -- In a directory whose entries have different names, exactly the sessions whose process runs
  -- are listed, in the directory's order.
  pub list_sessions-live_names :
      (fs : List File) → IsDirectory fs → (list_sessions alive fs).0 ≡ live_names alive fs
  unfolding list_sessions
  list_sessions-live_names fs d = list_entries-live_names fs fs d (Agrees-self fs d)

  -- A PID file whose process is gone goes with its turn, and any other PID file stays as it was.
  abbrev after_turn : Option Bytes → Option Bytes
  after_turn content = if stale_content alive content then none else content

  read_file-list_entry_self :
      (now : List File) (f : File)
      → IsPid f.name
      → read_file now f.name ≡ f.content
      → read_file (list_entry alive now f.name).1 f.name ≡ after_turn f.content
  unfolding list_entry
  read_file-list_entry_self now f pid h =
      let sock = trim_suffix f.name pid_ext ++ sock_ext in
      ground (
        arith,
        h,
        read_file-remove_file (remove_file now f.name) sock f.name,
        read_file-remove_file now f.name f.name,
        bytes_beq_iff f.name f.name,
      )

  -- What a whole run does to a PID file that is not among the entries.
  read_file-list_entries :
      (now rest : List File) (y : Bytes)
      → IsPid y
      → All (λ (g : File). y ≢ g.name) rest
      → read_file (list_entries alive now (names_of rest)).1 y ≡ read_file now y
  unfolding list_entries
  read_file-list_entries now [] y pid d = refl
  read_file-list_entries now (g ∷ rest) y pid (d, ds) =
      let now' = (list_entry alive now g.name).1 in
      read_file-list_entries now' rest y pid ds
      ∙ read_file-list_entry now g.name y (λ e. d (sym e)) pid

  list_entries-after :
      (now rest : List File)
      → IsDirectory rest
      → Agrees now rest
      → All
          (λ (f : File).
            IsPid f.name
            → read_file (list_entries alive now (names_of rest)).1 f.name ≡ after_turn f.content)
          rest
  unfolding list_entries
  list_entries-after now [] d h = tt
  list_entries-after now (f ∷ rest) (d, ds) (h, hs) =
      let now' = (list_entry alive now f.name).1 in
      (
        λ pid.
            read_file-list_entries now' rest f.name pid d
            ∙ read_file-list_entry_self now f pid (h pid),
        list_entries-after now' rest ds (Agrees-list_entry now rest f d hs),
      )

  -- After a listing the PID files of dead processes are gone, and every other PID file, also one
  -- that cannot be read or holds no process id, is what it was.
  pub list_sessions-after :
      (fs : List File)
      → IsDirectory fs
      → All
          (λ (f : File).
            has_suffix f.name pid_ext ≡ true
            → read_file (list_sessions alive fs).1 f.name
              ≡ (if stale_content alive f.content then none else f.content))
          fs
  unfolding list_sessions
  list_sessions-after fs d = list_entries-after fs fs d (Agrees-self fs d)
