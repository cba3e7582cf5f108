-- ===== src/Ui/Format.antt =====
-- How internal/ui/filebrowser.go shows an entry: `formatEntryName`, `formatSize` and
-- `formatPerms`, and which local entries there are. Sizes
-- are below 2^53, so that `float64` holds them, and dividing by a power of two is exact.
mod Tests
pub mod Near
use lazyssh.Base.{
  ℕ, suc, Option, none, some, ◌+◌, ◌*◌, ◌/◌, ◌%◌, Bool, true, false, List, [], ◌∷◌, ◌++◌, Bytes,
  codes, ltb, take, ◌==◌, nat_eq, if◌then◌else◌,
}
use lazyssh.Strings.Decimal.{itoa}
use lazyssh.Ssh.Transfer.Listing.{FileInfo, list_dir}

-- "▶", in UTF-8
abbrev arrow : Bytes
arrow = 226 ∷ 150 ∷ 182 ∷ []

unfoldable pub format_entry_name : Bytes → Bool → Bytes
format_entry_name name is_dir =
    if is_dir
    then codes "[blue]" ++ arrow ++ codes " " ++ name ++ codes "/[-]"
    else codes "  " ++ name

-- The tenths of `n / d`, as "%.1f" rounds them: to the nearest, and a tie to the even one.
unfoldable pub tenths : ℕ → ℕ → ℕ
tenths n d =
    let q = 10 * n / d in
    let r = 10 * n % d in
    if ltb (2 * r) d then q else if ltb d (2 * r) then q + 1 else if q % 2 == 0 then q else q + 1

unfoldable pub one_decimal : ℕ → Bytes
one_decimal t = itoa (t / 10) ++ (b'.' ∷ itoa (t % 10))

abbrev pub in_units : ℕ → ℕ → Bytes → Bytes
in_units n d unit = one_decimal (tenths n d) ++ unit

unfoldable pub format_size : ℕ → Bool → Bytes
format_size size true = []
format_size size false =
    if ltb size 1024
    then itoa size ++ codes " B"
    else if ltb size (1024 * 1024)
    then in_units size 1024 (codes "K")
    else if ltb size (1024 * 1024 * 1024)
    then in_units size (1024 * 1024) (codes "M")
    else in_units size (1024 * 1024 * 1024) (codes "G")

-- Of the mode's text, at most ten bytes.
unfoldable pub format_perms : Bytes → Bytes
format_perms mode = take 10 mode

abbrev known : List (Option FileInfo) → List FileInfo
known [] = []
known (none ∷ es) = known es
known (some e ∷ es) = e ∷ known es

-- `readLocalDir`: `none` is an entry whose `Info` fails.
unfoldable pub read_local_dir : Option (List (Option FileInfo)) → Option (List FileInfo)
read_local_dir none = none
read_local_dir (some es) = list_dir (some (known es))

-- A row of a panel, without its date; `mode` spells the mode.
pub record TableRow : Type 0 where
  pub name : Bytes
  pub perms : Bytes
  pub size : Bytes
  pub is_dir : Bool

abbrev row_of : (FileInfo → Bytes) → FileInfo → TableRow
row_of mode e = record {
  name = format_entry_name e.name e.is_dir;
  perms = format_perms (mode e);
  size = format_size e.size e.is_dir;
  is_dir = e.is_dir;
}

-- `localEntriesToDisplay` and `remoteEntriesToDisplay`
unfoldable pub entries_to_display : (FileInfo → Bytes) → List FileInfo → List TableRow
entries_to_display mode [] = []
entries_to_display mode (e ∷ es) = row_of mode e ∷ entries_to_display mode es
