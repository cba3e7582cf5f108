-- ===== src/Paths.antt =====
-- The functions of `path` and `path/filepath` that the program calls, on slash-separated paths.
pub mod Last
use mathlib.Core.List.{foldl, reverse}
use lazyssh.Base.{
  ℕ, suc, Bool, true, false, Option, none, some, List, [], ◌∷◌, ◌++◌, Bytes, take, codes, ◌==◌,
  bytes_eq, if◌then◌else◌,
}
use lazyssh.Strings.{split, join, has_prefix, last_index}

abbrev pub slash : Bytes
slash = b'/' ∷ []

abbrev pub dot : Bytes
dot = b'.' ∷ []

abbrev pub dots : Bytes
dots = b'.' ∷ b'.' ∷ []

-- What `..` does to the segments so far, the last one first: it goes up, or stands where a
-- relative path has nothing left to go up from.
unfoldable pub up : Bool → List Bytes → List Bytes
up rooted [] = if rooted then [] else dots ∷ []
up rooted (top ∷ out) = if top == dots then dots ∷ top ∷ out else out

-- One segment of `Clean`: empty segments and `.` vanish.
unfoldable pub push : Bool → List Bytes → Bytes → List Bytes
unfolding up
push rooted out seg =
    if seg == []
    then out
    else if seg == dot
    then out
    else if seg == dots
    then up rooted out
    else seg ∷ out

abbrev pub or_dot : Bytes → Bytes
or_dot [] = dot
or_dot (b ∷ bs) = b ∷ bs

-- The path that the cleaned segments spell.
unfoldable pub spell : Bool → List Bytes → Bytes
spell true out = b'/' ∷ join (reverse out) slash
spell false out = or_dot (join (reverse out) slash)

-- `Clean`
unfoldable pub clean : Bytes → Bytes
clean p = let rooted = has_prefix p slash in spell rooted (foldl (push rooted) [] (split p b'/'))

-- `Join` of the elements from the first that is not empty.
unfoldable pub join_path : List Bytes → Bytes
join_path [] = []
join_path (e ∷ es) =
    let rest = join_path es in if e == [] then rest else clean (join (e ∷ es) slash)

abbrev upto : Bytes → Option ℕ → Bytes
upto p none = []
upto p (some i) = take (suc i) p

-- `Dir`
unfoldable pub dir : Bytes → Bytes
dir p = clean (upto p (last_index p b'/'))
