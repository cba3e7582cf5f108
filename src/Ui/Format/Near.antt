-- ===== src/Ui/Format/Near.antt =====
-- What `formatSize` of internal/ui/filebrowser.go shows of a size.
use lazyssh.Base.{
  ℕ, ◌+◌, ◌*◌, ◌≤◌, false, Bytes, codes, ◌++◌, ◌≡◌, arith, ltb, nat_eq, Bool-cases, inl, inr,
}
use lazyssh.Ui.Format.{tenths, one_decimal, format_size}

-- `t` tenths of `d` are `n`, up to half a tenth.
abbrev pub IsNear : ℕ → ℕ → ℕ → Type 0
IsNear n d t = (20 * n ≤ 2 * (t * d) + d) × (2 * (t * d) ≤ 20 * n + d)

tenths_of_kilo : (n : ℕ) → IsNear n 1024 (tenths n 1024)
unfolding tenths
tenths_of_kilo n = ground arith

tenths_of_mega : (n : ℕ) → IsNear n (1024 * 1024) (tenths n (1024 * 1024))
unfolding tenths
tenths_of_mega n = ground arith

tenths_of_giga : (n : ℕ) → IsNear n (1024 * 1024 * 1024) (tenths n (1024 * 1024 * 1024))
unfolding tenths
tenths_of_giga n = ground arith

-- The letters, with the numbers of bytes that they stand for.
pub data IsUnit : ℕ → Bytes → Type 0 where
  kilo : IsUnit 1024 (codes "K")
  mega : IsUnit (1024 * 1024) (codes "M")
  giga : IsUnit (1024 * 1024 * 1024) (codes "G")

-- What is shown of `n` in a unit that is not larger than it.
pub record IsShown (n : ℕ) (text : Bytes) : Type 0 where
  pub divisor : ℕ
  pub letter : Bytes
  pub count : ℕ
  pub spelled : text ≡ one_decimal count ++ letter
  pub letter-IsUnit : IsUnit divisor letter
  pub near : IsNear n divisor count
  pub fits : divisor ≤ n

-- From 1024 bytes on, the number shown is at most half a tenth of its unit away from the size, and
-- the unit is not larger than the size.
pub format_size-IsShown : (n : ℕ) → 1024 ≤ n → IsShown n (format_size n false)
unfolding format_size
format_size-IsShown n h = elim (Bool-cases (ltb n (1024 * 1024))) [
  | inl small ↦ record {
    divisor = 1024;
    letter = codes "K";
    count = tenths n 1024;
    spelled = ground (arith, small);
    letter-IsUnit = IsUnit.kilo;
    near = tenths_of_kilo n;
    fits = h;
  }
  | inr large ↦ elim (Bool-cases (ltb n (1024 * 1024 * 1024))) [
    | inl middle ↦ record {
      divisor = 1024 * 1024;
      letter = codes "M";
      count = tenths n (1024 * 1024);
      spelled = ground (arith, large, middle);
      letter-IsUnit = IsUnit.mega;
      near = tenths_of_mega n;
      fits = ground (arith, large);
    }
    | inr huge ↦ record {
      divisor = 1024 * 1024 * 1024;
      letter = codes "G";
      count = tenths n (1024 * 1024 * 1024);
      spelled = ground (arith, large, huge);
      letter-IsUnit = IsUnit.giga;
      near = tenths_of_giga n;
      fits = ground (arith, huge);
    }
  ]
]
