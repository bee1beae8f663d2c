-- ===== src/Match/Popcount/Octets.antt =====
-- `&` on the bytes of a word.
use localchune.Common.{ℕ, zero, suc, ◌+◌, ◌*◌, ◌/◌, ◌%◌, ◌^◌, ◌≤◌, ◌<◌, min, ◌≡◌, refl, arith}
use Prim.Native.Nat.{bit_and, digits, bit_and-bitwise}
use localchune.Archive.Xor.{mul-two_pow}
use native.Mathlib.Nat.{pow-suc}

-- What `&` means on digits, with so many rounds.
abbrev common_digits : ℕ → ℕ → ℕ → ℕ
common_digits x y rounds = digits (λ y. zero) min rounds x y

common_fuel : (x y k l : ℕ) → x ≤ l → x ≤ k → common_digits x y k ≡ common_digits x y l
common_fuel zero y zero zero h i = refl
common_fuel zero y zero (suc l) h i = refl
common_fuel zero y (suc k) zero h i = refl
common_fuel zero y (suc k) (suc l) h i = refl
common_fuel (suc x) y zero l h i = absurd (omega (arith, i))
common_fuel (suc x) y (suc k) zero h i = absurd (omega (arith, h))
common_fuel (suc x) y (suc k) (suc l) h i =
    let half = common_fuel (suc x / 2) (y / 2) k l (omega (arith, h)) (omega (arith, i)) in
    rw half refl

nothing_common : (y : ℕ) → bit_and 0 y ≡ 0
nothing_common y = bit_and-bitwise 0 y

-- The lowest bit of `x & y` and the rest.
lowest_common : (x y : ℕ) → bit_and x y ≡ min (x % 2) (y % 2) + 2 * bit_and (x / 2) (y / 2)
lowest_common zero y = omega (arith, nothing_common (y / 2), nothing_common y)
lowest_common (suc x) y =
    let half = common_fuel (suc x / 2) (y / 2) x (suc x / 2) (omega arith) (omega arith) in
    omega (arith, half, bit_and-bitwise (suc x / 2) (y / 2), bit_and-bitwise (suc x) y)

zero_of : (a : ℕ) → a < 1 → a ≡ 0
zero_of a p = omega arith

-- Fields of `k` bits stay apart.
and_fields :
    (k q r p s : ℕ)
    → r < 2 ^ k
    → s < 2 ^ k
    → bit_and (q * 2 ^ k + r) (p * 2 ^ k + s) ≡ bit_and q p * 2 ^ k + bit_and r s
and_fields zero q r p s h k = ground (arith, zero_of r h, zero_of s k, nothing_common 0)
and_fields (suc n) q r p s h k = ground (
  arith,
  pow-suc 2 n,
  mul-two_pow q n,
  mul-two_pow p n,
  mul-two_pow (bit_and q p) n,
  lowest_common (q * 2 ^ suc n + r) (p * 2 ^ suc n + s),
  lowest_common r s,
  and_fields n q (r / 2) p (s / 2),
)

and_octet :
    (p q r s : ℕ)
    → p < 256
    → r < 256
    → bit_and (p + 256 * q) (r + 256 * s) ≡ bit_and p r + 256 * bit_and q s
and_octet p q r s h l =
    let turn : (a b : ℕ) → a + 256 * b ≡ b * 2 ^ 8 + a = λ a b. omega arith in
    rw (turn p q, turn r s) (omega (arith, and_fields 8 q p s r h l))

-- The word of four bytes, the lowest first.
abbrev pub word : ℕ → ℕ → ℕ → ℕ → ℕ
word a b c d = a + 256 * (b + 256 * (c + 256 * d))

pub and_word :
    (a b c d m : ℕ)
    → a < 256
    → b < 256
    → c < 256
    → m < 256
    → bit_and (word a b c d) (word m m m m)
      ≡ word (bit_and a m) (bit_and b m) (bit_and c m) (bit_and d m)
and_word a b c d m ha hb hc hm = omega (
  arith,
  and_octet a (b + 256 * (c + 256 * d)) m (m + 256 * (m + 256 * m)) ha hm,
  and_octet b (c + 256 * d) m (m + 256 * m) hb hm,
  and_octet c d m m hc hm,
)
