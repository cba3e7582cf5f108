-- ===== src/Model/Ids.antt =====
-- `NewID` of internal/model/host.go: the random bytes in hexadecimal.
use lazyssh.Base.{
  ℕ, ◌+◌, ◌-◌, ◌/◌, ◌%◌, ◌<◌, [], ◌∷◌, Bytes, ◌≡◌, refl, All, ltb, if◌then◌else◌, arith,
}

unfoldable pub hex_digit : ℕ → ℕ
hex_digit n = if ltb n 10 then b'0' + n else b'a' + (n - 10)

-- `hex.EncodeToString`
unfoldable pub encode_to_string : Bytes → Bytes
encode_to_string [] = []
encode_to_string (b ∷ bs) = hex_digit (b / 16) ∷ hex_digit (b % 16) ∷ encode_to_string bs

-- `NewID`, of what `rand.Read` put into the eight bytes.
unfoldable pub new_id : Bytes → Bytes
new_id random = encode_to_string random

hex_digit-injective : (m n : ℕ) → m < 16 → n < 16 → hex_digit m ≡ hex_digit n → m ≡ n
unfolding hex_digit
hex_digit-injective m n hm hn e = ground arith

encode_to_string-injective :
    (xs ys : Bytes)
    → All (λ b. b < 256) xs
    → All (λ b. b < 256) ys
    → encode_to_string xs ≡ encode_to_string ys
    → xs ≡ ys
unfolding encode_to_string
encode_to_string-injective [] [] hx hy e = refl
encode_to_string-injective [] (y ∷ ys) hx hy e = absurd (ground arith)
encode_to_string-injective (x ∷ xs) [] hx hy e = absurd (ground arith)
encode_to_string-injective (x ∷ xs) (y ∷ ys) (h, hx) (k, hy) e =
    let tails = encode_to_string-injective xs ys hx hy (ground (arith, e)) in
    let high =
      hex_digit-injective (x / 16) (y / 16) (omega (arith, h)) (omega (arith, k))
        (ground (arith, e)) in
    let low =
      hex_digit-injective (x % 16) (y % 16) (omega arith) (omega arith) (ground (arith, e)) in
    ground (arith, tails, high, low)

-- Two hosts have one id only where the random bytes are the same.
new_id-injective :
    (xs ys : Bytes)
    → All (λ b. b < 256) xs
    → All (λ b. b < 256) ys
    → new_id xs ≡ new_id ys
    → xs ≡ ys
unfolding new_id
new_id-injective xs ys hx hy e = encode_to_string-injective xs ys hx hy e
