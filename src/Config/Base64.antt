-- ===== src/Config/Base64.antt =====
-- `base64.StdEncoding`, which crypto.go packs its values with.
pub mod RoundTrip
use lazyssh.Base.{
  ℕ, ◌+◌, ◌-◌, ◌*◌, ◌/◌, ◌%◌, ◌<◌, Bool, true, false, ◌&&◌, ◌||◌, Option, none, some, List, [], ◌∷◌,
  ◌++◌, Bytes, ◌≡◌, ◌≢◌, refl, ap, ◌∙◌, ltb, leb, All, arith, ◌==◌, nat_eq, nat_beq, if◌then◌else◌,
  Bool-cases, inl, inr,
}

-- The letter of a value below 64.
unfoldable pub letter : ℕ → ℕ
letter v =
    if ltb v 26
    then v + b'A'
    else if ltb v 52
    then v - 26 + b'a'
    else if ltb v 62
    then v - 52 + b'0'
    else if v == 62
    then b'+'
    else b'/'

unfoldable pub value : ℕ → Option ℕ
value c =
    if leb b'A' c && leb c b'Z'
    then some (c - b'A')
    else if leb b'a' c && leb c b'z'
    then some (c - b'a' + 26)
    else if leb b'0' c && leb c b'9'
    then some (c - b'0' + 52)
    else if c == b'+'
    then some 62
    else if c == b'/'
    then some 63
    else none

abbrev pub pad : ℕ
pad = b'='

unfoldable pub encode : Bytes → Bytes
encode [] = []
encode (a ∷ []) = letter (a / 4) ∷ letter (a % 4 * 16) ∷ pad ∷ pad ∷ []
encode (a ∷ b ∷ []) = letter (a / 4) ∷ letter (a % 4 * 16 + b / 16) ∷ letter (b % 16 * 4) ∷ pad ∷ []
encode (a ∷ b ∷ c ∷ rest) =
    letter (a / 4)
    ∷ letter (a % 4 * 16 + b / 16)
    ∷ letter (b % 16 * 4 + c / 64)
    ∷ letter (c % 64)
    ∷ encode rest

infixl 5 ◌>>=◌
abbrev ◌>>=◌ {ℓ κ} : {A : Type ℓ} {B : Type κ} → Option A → (A → Option B) → Option B
none >>= f = none
some a >>= f = f a

-- One, two or three bytes of the values of a group.
abbrev first_byte : ℕ → ℕ → ℕ
first_byte x y = x * 4 + y / 16

abbrev second_byte : ℕ → ℕ → ℕ
second_byte y z = y % 16 * 16 + z / 4

abbrev third_byte : ℕ → ℕ → ℕ
third_byte z w = z % 4 * 64 + w

-- A group of four letters. Padding stands at the end of the text only.
unfoldable pub decode_group : ℕ → ℕ → ℕ → ℕ → Bytes → Option Bytes → Option Bytes
decode_group p q r s [] rest =
    if s == pad
    then (if r == pad then (do x ← value p; y ← value q; some (first_byte x y ∷ [])) else (do
      x ← value p
      y ← value q
      z ← value r
      some (first_byte x y ∷ second_byte y z ∷ [])))
    else (do
      x ← value p
      y ← value q
      z ← value r
      w ← value s
      some (first_byte x y ∷ second_byte y z ∷ third_byte z w ∷ []))
decode_group p q r s (t ∷ ts) rest = do
  x ← value p
  y ← value q
  z ← value r
  w ← value s
  more ← rest
  some (first_byte x y ∷ second_byte y z ∷ third_byte z w ∷ more)

unfoldable pub decode_groups : Bytes → Option Bytes
unfolding decode_group
decode_groups [] = some []
decode_groups (p ∷ q ∷ r ∷ s ∷ rest) = decode_group p q r s rest (decode_groups rest)
decode_groups _ = none

-- Line ends are skipped.
unfoldable pub strip_lines : Bytes → Bytes
strip_lines [] = []
strip_lines (c ∷ s) = let rest = strip_lines s in if c == 10 || c == 13 then rest else c ∷ rest

unfoldable pub decode : Bytes → Option Bytes
unfolding decode_groups strip_lines
decode s = decode_groups (strip_lines s)
