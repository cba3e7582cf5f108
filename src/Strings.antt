-- ===== src/Strings.antt =====
-- The functions of Go's `strings` and `strconv` that the program calls, over byte strings. Letters
-- and white space are those of ASCII.
pub mod Split
pub mod Trim
pub mod Decimal
use lazyssh.Base.{
  ℕ, zero, suc, ◌+◌, ◌-◌, ◌*◌, ◌/◌, ◌%◌, Bool, true, false, ◌&&◌, ◌||◌, Option, none, some, List,
  [], ◌∷◌, ◌++◌, Bytes, leb, length, take, drop, ◌==◌, nat_eq, bytes_eq, if◌then◌else◌, map,
}

unfoldable pub has_prefix : Bytes → Bytes → Bool
has_prefix s [] = true
has_prefix [] (p ∷ ps) = false
has_prefix (c ∷ s) (p ∷ ps) = c == p && has_prefix s ps

unfoldable pub has_suffix : Bytes → Bytes → Bool
has_suffix s p = leb (length p) (length s) && drop (length s - length p) s == p

unfoldable pub trim_prefix : Bytes → Bytes → Bytes
trim_prefix s p = if has_prefix s p then drop (length p) s else s

unfoldable pub trim_suffix : Bytes → Bytes → Bytes
trim_suffix s p = if has_suffix s p then take (length s - length p) s else s

unfoldable pub contains : Bytes → Bytes → Bool
contains [] p = p == []
contains (c ∷ s) p = has_prefix (c ∷ s) p || contains s p

-- `strings.Split` at a one-byte separator.
abbrev pub onto_head : ℕ → List Bytes → List Bytes
onto_head c [] = (c ∷ []) ∷ []
onto_head c (p ∷ ps) = (c ∷ p) ∷ ps

unfoldable pub split : Bytes → ℕ → List Bytes
split [] sep = [] ∷ []
split (c ∷ s) sep = let rest = split s sep in if c == sep then [] ∷ rest else onto_head c rest

unfoldable pub join : List Bytes → Bytes → Bytes
join [] sep = []
join (p ∷ []) sep = p
join (p ∷ q ∷ ps) sep = p ++ (sep ++ join (q ∷ ps) sep)

-- Leading and trailing bytes that satisfy a test are cut off.
unfoldable pub trim_left : (ℕ → Bool) → Bytes → Bytes
trim_left cut [] = []
trim_left cut (c ∷ s) = let rest = trim_left cut s in if cut c then rest else c ∷ s

abbrev unless_empty : (ℕ → Bool) → ℕ → Bytes → Bytes
unless_empty cut c [] = if cut c then [] else c ∷ []
unless_empty cut c (b ∷ bs) = c ∷ b ∷ bs

unfoldable pub trim_right : (ℕ → Bool) → Bytes → Bytes
trim_right cut [] = []
trim_right cut (c ∷ s) = unless_empty cut c (trim_right cut s)

unfoldable pub trim : (ℕ → Bool) → Bytes → Bytes
trim cut s = trim_right cut (trim_left cut s)

abbrev pub is_space : ℕ → Bool
is_space c = c == 32 || (leb 9 c && leb c 13)

abbrev pub is_slash : ℕ → Bool
is_slash c = c == b'/'

unfoldable pub trim_space : Bytes → Bytes
unfolding trim
trim_space s = trim is_space s

abbrev lower_byte : ℕ → ℕ
lower_byte c = if leb b'A' c && leb c b'Z' then c + 32 else c

unfoldable pub to_lower : Bytes → Bytes
to_lower s = map lower_byte s

-- `strings.ReplaceAll` of a single byte.
unfoldable pub replace_all : Bytes → ℕ → Bytes → Bytes
replace_all [] old new = []
replace_all (c ∷ s) old new = (if c == old then new else c ∷ []) ++ replace_all s old new

-- The position of the last `c`.
unfoldable pub last_index : Bytes → ℕ → Option ℕ
last_index [] c = none
last_index (b ∷ s) c = elim (last_index s c) [
  | some i ↦ some (suc i)
  | none ↦ if b == c then some 0 else none
]
