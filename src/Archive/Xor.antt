-- ===== src/Archive/Xor.antt =====
-- The laws of `^` on words, from its law for the lowest bit.
use Prim.Native.Nat.{digits, differ, bit_xor, bit_xor-bitwise}
use native.Mathlib.Nat.{pow-suc}
use localchune.Common.{
  ℕ, zero, suc, ◌+◌, ◌*◌, ◌/◌, ◌%◌, ◌^◌, ◌≤◌, ◌<◌, ◌≡◌, refl, sym, ap, ◌∙◌, arith,
}

abbrev xor_digits : ℕ → ℕ → ℕ → ℕ
xor_digits n a b = digits (λ b. b) differ n a b

differ_bits : (x y : ℕ) → x < 2 → y < 2 → differ x y ≡ (x + y) % 2
differ_bits zero zero h k = refl
differ_bits zero (suc zero) h k = refl
differ_bits (suc zero) zero h k = refl
differ_bits (suc zero) (suc zero) h k = refl
differ_bits (suc (suc x)) y h k = absurd (omega arith)
differ_bits x (suc (suc y)) h k = absurd (omega arith)

digits_differ : (a b : ℕ) → differ (a % 2) (b % 2) ≡ (a + b) % 2
digits_differ a b = omega (arith, differ_bits (a % 2) (b % 2) (omega arith) (omega arith))

xor_fuel : (n m a b : ℕ) → a ≤ n → a ≤ m → xor_digits n a b ≡ xor_digits m a b
xor_fuel zero zero a b p q = refl
xor_fuel zero (suc m) zero b p q = refl
xor_fuel zero (suc m) (suc a) b p q = absurd (omega arith)
xor_fuel (suc n) zero zero b p q = refl
xor_fuel (suc n) zero (suc a) b p q = absurd (omega arith)
xor_fuel (suc n) (suc m) zero b p q = refl
xor_fuel (suc n) (suc m) (suc a) b p q =
    omega (arith, xor_fuel n m (suc a / 2) (b / 2) (omega arith) (omega arith))

pub zero-bit_xor : (b : ℕ) → bit_xor 0 b ≡ b
zero-bit_xor b = bit_xor-bitwise 0 b

-- The lowest bit of `a ^ b` and the rest.
pub bit_xor_step : (a b : ℕ) → bit_xor a b ≡ bit_xor (a / 2) (b / 2) * 2 + (a + b) % 2
bit_xor_step zero b = omega (arith, zero-bit_xor b, zero-bit_xor (b / 2))
bit_xor_step (suc a) b = omega (
  arith,
  bit_xor-bitwise (suc a) b,
  bit_xor-bitwise (suc a / 2) (b / 2),
  digits_differ (suc a) b,
  xor_fuel a (suc a / 2) (suc a / 2) (b / 2) (omega arith) (omega arith),
)

pub half-bit_xor : (a b : ℕ) → bit_xor a b / 2 ≡ bit_xor (a / 2) (b / 2)
half-bit_xor a b = omega (arith, bit_xor_step a b)

pub parity-bit_xor : (a b : ℕ) → bit_xor a b % 2 ≡ (a + b) % 2
parity-bit_xor a b = omega (arith, bit_xor_step a b)

xor_comm_upto : (n a b : ℕ) → a ≤ n → b ≤ n → bit_xor a b ≡ bit_xor b a
xor_comm_upto zero zero zero p q = refl
xor_comm_upto zero (suc a) b p q = absurd (omega arith)
xor_comm_upto zero zero (suc b) p q = absurd (omega arith)
xor_comm_upto (suc n) a b p q = omega (
  arith,
  bit_xor_step a b,
  bit_xor_step b a,
  xor_comm_upto n (a / 2) (b / 2) (omega arith) (omega arith),
)

pub bit_xor_comm : (a b : ℕ) → bit_xor a b ≡ bit_xor b a
bit_xor_comm a b = xor_comm_upto (a + b) a b (omega arith) (omega arith)

xor_self_upto : (n a : ℕ) → a ≤ n → bit_xor a a ≡ 0
xor_self_upto zero zero p = refl
xor_self_upto zero (suc a) p = absurd (omega arith)
xor_self_upto (suc n) a p = omega (arith, bit_xor_step a a, xor_self_upto n (a / 2) (omega arith))

pub bit_xor_self : (a : ℕ) → bit_xor a a ≡ 0
bit_xor_self a = xor_self_upto a a (omega arith)

halves_assoc :
    (a b c : ℕ)
    → bit_xor (bit_xor (a / 2) (b / 2)) (c / 2) ≡ bit_xor (a / 2) (bit_xor (b / 2) (c / 2))
    → bit_xor (bit_xor a b / 2) (c / 2) ≡ bit_xor (a / 2) (bit_xor b c / 2)
halves_assoc a b c e = rw (half-bit_xor a b, half-bit_xor b c) e

xor_assoc_upto : (n a b c : ℕ) → a + b + c ≤ n → bit_xor (bit_xor a b) c ≡ bit_xor a (bit_xor b c)
xor_assoc_upto zero zero zero zero p = refl
xor_assoc_upto zero (suc a) b c p = absurd (omega arith)
xor_assoc_upto zero zero (suc b) c p = absurd (omega arith)
xor_assoc_upto zero zero zero (suc c) p = absurd (omega arith)
xor_assoc_upto (suc n) a b c p =
    let rest = xor_assoc_upto n (a / 2) (b / 2) (c / 2) (omega arith) in
    omega (
      arith,
      bit_xor_step (bit_xor a b) c,
      bit_xor_step a (bit_xor b c),
      parity-bit_xor a b,
      parity-bit_xor b c,
      halves_assoc a b c rest,
    )

pub bit_xor_assoc : (a b c : ℕ) → bit_xor (bit_xor a b) c ≡ bit_xor a (bit_xor b c)
bit_xor_assoc a b c = xor_assoc_upto (a + b + c) a b c (omega arith)

pub bit_xor-zero : (a : ℕ) → bit_xor a 0 ≡ a
bit_xor-zero a = bit_xor_comm a 0 ∙ zero-bit_xor a

pub bit_xor_left_comm : (a b c : ℕ) → bit_xor a (bit_xor b c) ≡ bit_xor b (bit_xor a c)
bit_xor_left_comm a b c =
    sym (bit_xor_assoc a b c) ∙ ap (λ t. bit_xor t c) (bit_xor_comm a b) ∙ bit_xor_assoc b a c

pub bit_xor_cancel : (a b : ℕ) → bit_xor a (bit_xor a b) ≡ b
bit_xor_cancel a b =
    sym (bit_xor_assoc a a b) ∙ ap (λ t. bit_xor t b) (bit_xor_self a) ∙ zero-bit_xor b

-- Four terms regrouped: the law that makes a map of words additive.
pub bit_xor_swap :
    (a b c d : ℕ) → bit_xor (bit_xor a b) (bit_xor c d) ≡ bit_xor (bit_xor a c) (bit_xor b d)
bit_xor_swap a b c d =
    rw (bit_xor_assoc a b (bit_xor c d), bit_xor_left_comm b c d)
      (sym (bit_xor_assoc a c (bit_xor b d)))

zero_of : (a : ℕ) → a < 1 → a ≡ 0
zero_of a p = omega arith

pub mul-two_pow : (q k : ℕ) → q * 2 ^ suc k ≡ 2 * (q * 2 ^ k)
mul-two_pow q k = omega (arith, ap (λ (t : ℕ). q * t) (pow-suc 2 k))

pub bit_xor_lt_pow : (k a b : ℕ) → a < 2 ^ k → b < 2 ^ k → bit_xor a b < 2 ^ k
bit_xor_lt_pow zero a b p q = ground (arith, zero-bit_xor 0, zero_of a p, zero_of b q)
bit_xor_lt_pow (suc k) a b p q = omega (
  arith,
  pow-suc 2 k,
  bit_xor_step a b,
  bit_xor_lt_pow k (a / 2) (b / 2) (omega (arith, pow-suc 2 k)) (omega (arith, pow-suc 2 k)),
)

-- Fields of `k` bits stay apart.
pub bit_xor_fields :
    (k q r p s : ℕ)
    → r < 2 ^ k
    → s < 2 ^ k
    → bit_xor (q * 2 ^ k + r) (p * 2 ^ k + s) ≡ bit_xor q p * 2 ^ k + bit_xor r s
bit_xor_fields zero q r p s h k = ground (arith, zero_of r h, zero_of s k, zero-bit_xor 0)
bit_xor_fields (suc n) q r p s h k = ground (
  arith,
  pow-suc 2 n,
  mul-two_pow q n,
  mul-two_pow p n,
  mul-two_pow (bit_xor q p) n,
  bit_xor_step (q * 2 ^ suc n + r) (p * 2 ^ suc n + s),
  bit_xor_step r s,
  bit_xor_fields n q (r / 2) p (s / 2),
)

byte_parts : (a b : ℕ) → bit_xor (a / 256 * 256 + a % 256) (b / 256 * 256 + b % 256) ≡ bit_xor a b
byte_parts a b = rw (of_parts a, of_parts b) refl
  where
    of_parts : (n : ℕ) → n / 256 * 256 + n % 256 ≡ n
    of_parts n = omega arith

-- The low byte and the others, apart.
pub bit_xor_byte :
    (a b : ℕ)
    → (bit_xor a b / 256 ≡ bit_xor (a / 256) (b / 256))
      × (bit_xor a b % 256 ≡ bit_xor (a % 256) (b % 256))
bit_xor_byte a b =
    let fields =
      bit_xor_fields 8 (a / 256) (a % 256) (b / 256) (b % 256) (omega arith) (omega arith) in
    let low = bit_xor_lt_pow 8 (a % 256) (b % 256) (omega arith) (omega arith) in
    let whole = byte_parts a b in
    (omega (arith, fields, low, whole), omega (arith, fields, low, whole))

-- A number is its low byte and the others, put together.
pub bit_xor_parts : (n : ℕ) → bit_xor (n % 256) (256 * (n / 256)) ≡ n
bit_xor_parts n = omega (
  arith,
  low_high (n % 256) (n / 256) (omega arith),
  times (n / 256),
  bit_xor-zero (n % 256),
  zero-bit_xor (n / 256),
)
  where
    times : (q : ℕ) → 256 * q ≡ q * 2 ^ 8 + 0
    times q = omega arith

    pad : (r : ℕ) → r ≡ 0 * 2 ^ 8 + r
    pad r = omega arith

    low_high : (r q : ℕ) → r < 256 → bit_xor r (256 * q) ≡ bit_xor 0 q * 256 + bit_xor r 0
    low_high r q h =
        rw (times q)
          (ap (λ t. bit_xor t (q * 2 ^ 8 + 0)) (pad r) ∙ bit_xor_fields 8 0 r q 0 h (omega arith))

pub bit_xor_eq : (a b : ℕ) → bit_xor a b ≡ 0 → a ≡ b
bit_xor_eq a b e = sym (bit_xor-zero a) ∙ ap (bit_xor a) (sym e) ∙ bit_xor_cancel a b
