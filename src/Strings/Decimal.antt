-- ===== src/Strings/Decimal.antt =====
-- `strconv.Itoa`, `%d` and the scan of a decimal number. An `int` has 64 bits.
use mathlib.Core.List.{concat-ne-nil}
use lazyssh.Strings.{is_space}
use lazyssh.Base.{
  ℕ, zero, suc, ◌+◌, ◌-◌, ◌*◌, ◌/◌, ◌%◌, ◌^◌, ◌<◌, ◌≤◌, Bool, true, false, ◌&&◌, Option, none, some,
  [], ◌∷◌, ◌++◌, Bytes, ◌≡◌, ◌≢◌, refl, ap, ◌∙◌, ltb, leb, arith, tests, Bool-cases, inl, inr, All,
  All-append, if◌then◌else◌, ltb→lt,
}

abbrev pub max_int : ℕ
max_int = 2 ^ 63 - 1

abbrev pub is_digit : ℕ → Bool
is_digit c = leb b'0' c && leb c b'9'

-- A digit for each division by ten; the value itself is fuel enough.
unfoldable pub digits : ℕ → ℕ → Bytes
digits zero n = (b'0' + n) ∷ []
digits (suc fuel) n =
    let more = digits fuel (n / 10) ++ (b'0' + n % 10) ∷ [] in
    if ltb n 10 then (b'0' + n) ∷ [] else more

unfoldable pub itoa : ℕ → Bytes
unfolding digits
itoa n = digits n n

-- The number that a run of digits spells behind `acc`, if there is nothing else.
unfoldable pub read_digits : ℕ → Bytes → Option ℕ
read_digits acc [] = some acc
read_digits acc (c ∷ s) =
    let rest = read_digits (acc * 10 + (c - b'0')) s in if is_digit c then rest else none

-- The longest run of digits at the front.
unfoldable pub digit_run : Bytes → Bytes
digit_run [] = []
digit_run (c ∷ s) = let rest = digit_run s in if is_digit c then c ∷ rest else []

unfoldable pub IsDigits : Bytes → Type 0
IsDigits = All (λ c. is_digit c ≡ true)

read_digits-append :
    (s : Bytes) (acc n c : ℕ)
    → read_digits acc s ≡ some n
    → c < 10
    → read_digits acc (s ++ (b'0' + c) ∷ []) ≡ some (n * 10 + c)
unfolding read_digits
read_digits-append [] acc n c h lt = ground arith
read_digits-append (d ∷ s) acc n c h lt =
    ground (arith, read_digits-append s (acc * 10 + (d - b'0')) n c)

one_digit : (n : ℕ) → n < 10 → read_digits 0 ((b'0' + n) ∷ []) ≡ some n
unfolding read_digits
one_digit n h = ground arith

digit_test : (n : ℕ) → n < 10 → is_digit (b'0' + n) ≡ true
digit_test n h = ground arith

read_digits-digits : (fuel n : ℕ) → n ≤ fuel → read_digits 0 (digits fuel n) ≡ some n
unfolding digits
read_digits-digits zero n h = unfold read_digits in ground arith
read_digits-digits (suc fuel) n h = elim (Bool-cases (ltb n 10)) [
  | inl e ↦ rw e (one_digit n (ltb→lt n 10 e))
  | inr e ↦ rw e (
      read_digits-append (digits fuel (n / 10)) 0 (n / 10) (n % 10)
        (read_digits-digits fuel (n / 10) (omega tests)) (omega arith)
      ∙ ap (λ k. some k) {x = n / 10 * 10 + n % 10} (omega arith))
]

-- A printed number is read back.
pub read_digits-itoa : (n : ℕ) → read_digits 0 (itoa n) ≡ some n
unfolding itoa
read_digits-itoa n = read_digits-digits n n (omega arith)

digits-IsDigits : (fuel n : ℕ) → n ≤ fuel → IsDigits (digits fuel n)
unfolding digits IsDigits
digits-IsDigits zero n h = (ground arith, tt)
digits-IsDigits (suc fuel) n h = elim (Bool-cases (ltb n 10)) [
  | inl e ↦ rw e (digit_test n (ltb→lt n 10 e), tt)
  | inr e ↦ rw e (
      All-append _ (digits fuel (n / 10)) _ (digits-IsDigits fuel (n / 10) (omega tests))
        (digit_test (n % 10) (omega arith), tt))
]

pub itoa-IsDigits : (n : ℕ) → IsDigits (itoa n)
unfolding itoa
itoa-IsDigits n = digits-IsDigits n n (omega arith)

pub digit_run-IsDigits :
    (s rest : Bytes) (c : ℕ) → IsDigits s → is_digit c ≡ false → digit_run (s ++ c ∷ rest) ≡ s
unfolding digit_run IsDigits
digit_run-IsDigits [] rest c h e = rw e
digit_run-IsDigits (d ∷ s) rest c (hd, h) e = rw (hd, digit_run-IsDigits s rest c h e)

pub digit_run_all : (s : Bytes) → IsDigits s → digit_run s ≡ s
unfolding digit_run IsDigits
digit_run_all [] h = refl
digit_run_all (c ∷ s) (hc, h) = rw (hc, digit_run_all s h)

pub itoa-ne-nil : (n : ℕ) → itoa n ≢ []
unfolding itoa
itoa-ne-nil zero = λ e. cc
itoa-ne-nil (suc n) = ground (arith, concat-ne-nil (b'0' + suc n % 10) (digits n (suc n / 10)))

digit_not_space : (c : ℕ) → is_digit c ≡ true → is_space c ≡ false
digit_not_space c h = ground arith

pub digits-Uncut : (s : Bytes) → IsDigits s → All (λ c. is_space c ≡ false) s
unfolding IsDigits
digits-Uncut [] h = tt
digits-Uncut (c ∷ s) (hc, h) = (digit_not_space c hc, digits-Uncut s h)

pub IsDigits-head : (c : ℕ) (s : Bytes) → IsDigits (c ∷ s) → is_digit c ≡ true
unfolding IsDigits
IsDigits-head c s h = h.0
