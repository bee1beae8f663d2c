-- ===== src/Archive/Crc/Slices.antt =====
-- The tables are what the shift of whole bytes gives, and the shift is additive.
use localchune.Archive.Crc.{crc_table, crc_polynomial, shift_bits, shift_bit}
use Prim.Native.Nat.{bit_xor}
use localchune.Archive.Xor.{
  mul-two_pow, bit_xor_parts, half-bit_xor, parity-bit_xor, bit_xor_cancel, bit_xor_assoc,
  bit_xor_left_comm,
}
use localchune.Common.{
  ℕ, zero, suc, ◌*◌, ◌/◌, ◌%◌, ◌^◌, ◌≡◌, refl, sym, ap, ◌∙◌, ◌⊎◌, inl, inr, arith, ◌==◌, Bool-cases,
}

pub parity_cases : (c : ℕ) → (c % 2 ≡ 1) ⊎ (c % 2 ≡ 0)
parity_cases c = elim (Bool-cases (c % 2 == 1)) [
  | inl e ↦ inl (ground arith)
  | inr e ↦ inr (ground arith)
]

pub shift_odd : (c : ℕ) → c % 2 ≡ 1 → shift_bit c ≡ bit_xor crc_polynomial (c / 2)
unfolding shift_bit
shift_odd c h = ground arith

pub shift_even : (c : ℕ) → c % 2 ≡ 0 → shift_bit c ≡ c / 2
unfolding shift_bit
shift_even c h = ground arith

shift_bit-bit_xor : (a b : ℕ) → shift_bit (bit_xor a b) ≡ bit_xor (shift_bit a) (shift_bit b)
shift_bit-bit_xor a b =
    let half = half-bit_xor a b in
    let parity = parity-bit_xor a b in
    elim (parity_cases a) [
      | inl p ↦ elim (parity_cases b) [
        | inl q ↦
            rw (shift_odd a p, shift_odd b q, shift_even (bit_xor a b) (omega arith), half)
              (cancel (a / 2) (b / 2))
        | inr q ↦
            rw (shift_odd a p, shift_even b q, shift_odd (bit_xor a b) (omega arith), half)
              (sym (bit_xor_assoc crc_polynomial (a / 2) (b / 2)))
      ]
      | inr p ↦ elim (parity_cases b) [
        | inl q ↦
            rw (shift_even a p, shift_odd b q, shift_odd (bit_xor a b) (omega arith), half)
              (bit_xor_left_comm crc_polynomial (a / 2) (b / 2))
        | inr q ↦
            rw (shift_even a p, shift_even b q, shift_even (bit_xor a b) (omega arith), half) refl
      ]
    ]
  where
    cancel : (x y : ℕ) → bit_xor x y ≡ bit_xor (bit_xor crc_polynomial x) (bit_xor crc_polynomial y)
    cancel x y = rw (bit_xor_assoc, bit_xor_left_comm x crc_polynomial y, bit_xor_cancel) refl

pub shift_bits-bit_xor :
    (k a b : ℕ) → shift_bits k (bit_xor a b) ≡ bit_xor (shift_bits k a) (shift_bits k b)
unfolding shift_bits
shift_bits-bit_xor zero a b = refl
shift_bits-bit_xor (suc k) a b =
    rw (shift_bit-bit_xor a b) (shift_bits-bit_xor k (shift_bit a) (shift_bit b))

shift_bit-double : (n : ℕ) → shift_bit (2 * n) ≡ n
unfolding shift_bit
shift_bit-double n = ground arith

shift_zeros : (k n : ℕ) → shift_bits k (n * 2 ^ k) ≡ n
unfolding shift_bits
shift_zeros zero n = omega arith
shift_zeros (suc k) n = rw (mul-two_pow n k, shift_bit-double (n * 2 ^ k)) (shift_zeros k n)

-- Shifting out a byte of zeros leaves the others.
pub shift_byte : (n : ℕ) → shift_bits 8 (256 * n) ≡ n
shift_byte n = rw (commuted n) (shift_zeros 8 n)
  where
    commuted : (n : ℕ) → 256 * n ≡ n * 2 ^ 8
    commuted n = omega arith

-- One step of the table loop is eight shifts.
pub shift_bits_table : (c : ℕ) → bit_xor (shift_bits 8 (c % 256)) (c / 256) ≡ shift_bits 8 c
shift_bits_table c =
    ap (bit_xor (shift_bits 8 (c % 256))) (sym (shift_byte (c / 256)))
    ∙ sym (shift_bits-bit_xor 8 (c % 256) (256 * (c / 256)))
    ∙ ap (shift_bits 8) (bit_xor_parts c)

-- What the table `k` holds is `k + 1` bytes of shifts.
unfoldable pub shift_bytes : ℕ → ℕ → ℕ
shift_bytes zero c = c
shift_bytes (suc k) c = shift_bits 8 (shift_bytes k c)

pub crc_table_lem : (k i : ℕ) → crc_table k i ≡ shift_bytes (suc k) i
unfolding crc_table shift_bytes
crc_table_lem zero i = refl
crc_table_lem (suc k) i = shift_bits_table (crc_table k i) ∙ ap (shift_bits 8) (crc_table_lem k i)

pub shift_bytes-bit_xor :
    (k a b : ℕ) → shift_bytes k (bit_xor a b) ≡ bit_xor (shift_bytes k a) (shift_bytes k b)
unfolding shift_bytes
shift_bytes-bit_xor zero a b = refl
shift_bytes-bit_xor (suc k) a b =
    ap (shift_bits 8) (shift_bytes-bit_xor k a b)
    ∙ shift_bits-bit_xor 8 (shift_bytes k a) (shift_bytes k b)

pub shift_bytes_first : (k c : ℕ) → shift_bytes (suc k) c ≡ shift_bytes k (shift_bits 8 c)
unfolding shift_bytes
shift_bytes_first zero c = refl
shift_bytes_first (suc k) c = ap (shift_bits 8) (shift_bytes_first k c)

-- The low byte of a word goes through one table, the others through the tables before it.
pub shift_bytes_parts :
    (k c : ℕ)
    → shift_bytes (suc k) c ≡ bit_xor (shift_bytes (suc k) (c % 256)) (shift_bytes k (c / 256))
shift_bytes_parts k c =
    ap (shift_bytes (suc k)) (sym (bit_xor_parts c))
    ∙ shift_bytes-bit_xor (suc k) (c % 256) (256 * (c / 256))
    ∙ ap (bit_xor (shift_bytes (suc k) (c % 256)))
        (shift_bytes_first k (256 * (c / 256)) ∙ ap (shift_bytes k) (shift_byte (c / 256)))
