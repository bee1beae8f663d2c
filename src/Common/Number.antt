-- ===== src/Common/Number.antt =====
-- The numbers that reach the program as indices: a whole number, a fraction between two whole
-- numbers, NaN or an infinity. Whole numbers are integers over the native ℕ.
use localchune.Common.Tests.{leb, ltb, if◌then◌else◌}
use Prim.Native.Nat.{ℕ, ◌+◌, ◌-◌}
use mathlib.Core.Option.{Option, none, some}

-- `negsuc n` is -(n + 1).
pub data ℤ : Type 0 where
  pos : ℕ → ℤ
  negsuc : ℕ → ℤ

-- `frac z` lies strictly between z and z + 1.
pub data Number : Type 0 where
  int : ℤ → Number
  frac : ℤ → Number
  nan pos_inf neg_inf : Number

-- z - b for a whole b ≥ 0.
abbrev pub sub_ℕ : ℤ → ℕ → ℤ
sub_ℕ (pos n) b = if leb b n then pos (n - b) else negsuc (b - n - 1)
sub_ℕ (negsuc n) b = negsuc (n + b)

abbrev pub minus : Number → ℕ → Number
minus (int z) b = int (sub_ℕ z b)
minus (frac z) b = frac (sub_ℕ z b)
minus n b = n

-- The array index that passes `Number.isInteger(i) && i >= low && i < size`.
abbrev pub whole_between : ℕ → ℕ → Number → Option ℕ
whole_between low size (int (pos i)) =
    if leb low i then (if ltb i size then some i else none) else none
whole_between low size n = none
