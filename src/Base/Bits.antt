-- ===== src/Base/Bits.antt =====
-- `|` of a shifted value and a smaller one.
use Prim.Native.Nat.{
  ℕ, zero, suc, ◌+◌, ◌*◌, ◌/◌, ◌%◌, ◌^◌, ◌≤◌, ◌<◌, max, bit_or, digits, bit_or-bitwise,
}
use mathlib.Core.Path.{◌≡◌, refl, ap₂, ◌∙◌}
use native.Mathlib.Nat.{pow-suc}
use native.Mathlib.Omega.{arith}

abbrev or_digits : ℕ → ℕ → ℕ → ℕ
or_digits n a b = digits (λ b. b) max n a b

-- The number itself is fuel enough, so any two sufficient amounts agree.
or_digits_spare : (x y k l : ℕ) (enough : x ≤ k) (also : x ≤ l) → or_digits k x y ≡ or_digits l x y
or_digits_spare zero y zero zero enough also = refl
or_digits_spare zero y zero (suc l) enough also = refl
or_digits_spare zero y (suc k) zero enough also = refl
or_digits_spare zero y (suc k) (suc l) enough also = refl
or_digits_spare (suc x) y zero l enough also = absurd (omega arith)
or_digits_spare (suc x) y (suc k) zero enough also = absurd (omega arith)
or_digits_spare (suc x) y (suc k) (suc l) enough also =
    let below : suc x / 2 ≤ k = omega arith in
    let within : suc x / 2 ≤ l = omega arith in
    omega (arith, or_digits_spare (suc x / 2) (y / 2) k l below within)

zero-bit_or : (b : ℕ) → bit_or 0 b ≡ b
zero-bit_or b = bit_or-bitwise 0 b

bit_or_step : (a b : ℕ) → bit_or a b ≡ bit_or (a / 2) (b / 2) * 2 + max (a % 2) (b % 2)
bit_or_step zero b = omega (arith, zero-bit_or b, zero-bit_or (b / 2))
bit_or_step (suc a) b = omega (
  arith,
  bit_or-bitwise (suc a) b,
  bit_or-bitwise (suc a / 2) (b / 2),
  or_digits_spare (suc a / 2) (b / 2) a (suc a / 2) (omega arith) (omega arith),
)

bit_or-zero_fuel : (n a : ℕ) → a ≤ n → bit_or a 0 ≡ a
bit_or-zero_fuel n zero h = refl
bit_or-zero_fuel zero (suc a) h = absurd (omega arith)
bit_or-zero_fuel (suc n) (suc a) h =
    omega (arith, bit_or_step (suc a) 0, bit_or-zero_fuel n (suc a / 2) (omega arith))

bit_or-zero : (a : ℕ) → bit_or a 0 ≡ a
bit_or-zero a = bit_or-zero_fuel a a (omega arith)

bit_or-double : (x b : ℕ) → bit_or (x * 2) b ≡ bit_or x (b / 2) * 2 + b % 2
bit_or-double x b =
    bit_or_step (x * 2) b
    ∙ ap₂ (λ q r. bit_or q (b / 2) * 2 + r) {x = x * 2 / 2} {y = x} (omega arith) (omega arith)

double_shift : (k a : ℕ) → a * 2 ^ suc k ≡ a * 2 ^ k * 2
double_shift k a = grind (arith, pow-suc 2 k)

pub bit_or-shift : (k a b : ℕ) → b < 2 ^ k → bit_or (a * 2 ^ k) b ≡ a * 2 ^ k + b
bit_or-shift zero a b h =
    let e : b ≡ 0 = omega arith in rw e (bit_or-zero (a * 2 ^ 0) ∙ omega arith)
bit_or-shift (suc k) a b h =
    let half : b / 2 < 2 ^ k = omega (arith, pow-suc 2 k) in
    rw (double_shift k a)
      (bit_or-double (a * 2 ^ k) b ∙ omega (arith, bit_or-shift k a (b / 2) half))
