-- ===== src/Archive/Crc/Blocks.antt =====
-- The CRC32 over blocks of eight bytes, against the one that shifts bit by bit.
use localchune.Archive.Xor.{zero-bit_xor, bit_xor_lt_pow, bit_xor_assoc, bit_xor-zero, bit_xor_byte}
use localchune.Archive.Crc.Slices.{
  shift_bytes-bit_xor, crc_table_lem, shift_bytes_first, shift_bits_table, shift_bits-bit_xor,
  shift_bytes_parts, shift_byte, shift_bytes,
}
use localchune.Archive.Crc.{
  crc_polynomial, shift_bit, le_word, crc_slice, crc_serial, shift_bits, crc_table, crc_bytes,
}
use Prim.Native.Nat.{bit_xor, zero, suc}
use localchune.Common.{
  suc, length, ℕ, ◌*◌, ◌/◌, ◌%◌, ◌^◌, ◌<◌, ◌≡◌, refl, sym, ap, ◌∙◌, List, [], ◌∷◌, arith, All,
}

abbrev pub IsByte : ℕ → Type 0
IsByte b = b < 256

-- A byte that comes in now or after the next shift of a byte.
late_byte : (c b : ℕ) → bit_xor (shift_bits 8 c) b ≡ shift_bits 8 (bit_xor c (256 * b))
late_byte c b =
    ap (bit_xor (shift_bits 8 c)) (sym (shift_byte b)) ∙ sym (shift_bits-bit_xor 8 c (256 * b))

-- The step of the table loop is the step of the specification.
crc_byte_lem :
    (c b : ℕ)
    → IsByte b
    → bit_xor (crc_table 0 (bit_xor c b % 256)) (c / 256) ≡ shift_bits 8 (bit_xor c b)
unfolding crc_table
crc_byte_lem c b h =
    ap (bit_xor (crc_table 0 (bit_xor c b % 256))) high ∙ table ∙ shift_bits_table (bit_xor c b)
  where
    table :
        bit_xor (crc_table 0 (bit_xor c b % 256)) (bit_xor c b / 256)
        ≡ bit_xor (shift_bits 8 (bit_xor c b % 256)) (bit_xor c b / 256)
    table = refl

    none_high : (b : ℕ) → IsByte b → b / 256 ≡ 0
    none_high b h = omega arith

    high : c / 256 ≡ bit_xor c b / 256
    high = rw ((bit_xor_byte c b).0, none_high b h, bit_xor-zero) refl

pub crc_bytes_lem : (bs : List ℕ) (c : ℕ) → All IsByte bs → crc_bytes bs c ≡ crc_serial bs c
unfolding crc_bytes crc_serial
crc_bytes_lem [] c h = refl
crc_bytes_lem (b ∷ bs) c (p, h) = rw (crc_byte_lem c b p) (crc_bytes_lem bs _ h)

-- Four tables take the four bytes of a word.
word_slice :
    (c : ℕ)
    → c < 2 ^ 32
    → shift_bytes 8 c
      ≡ bit_xor
          (bit_xor (shift_bytes 8 (c % 256)) (shift_bytes 7 (c / 256 % 256)))
          (bit_xor (shift_bytes 6 (c / 65536 % 256)) (shift_bytes 5 (c / 16777216 % 256)))
word_slice c h =
    shift_bytes_parts 7 c
    ∙ ap (bit_xor (shift_bytes 8 (c % 256))) second
    ∙ sym (bit_xor_assoc (shift_bytes 8 (c % 256)) (shift_bytes 7 (c / 256 % 256)) _)
  where
    quot2 : (c : ℕ) → c / 256 / 256 ≡ c / 65536
    quot2 c = omega arith

    quot3 : (c : ℕ) → c / 65536 / 256 ≡ c / 16777216
    quot3 c = omega arith

    top : c / 16777216 ≡ c / 16777216 % 256
    top = omega arith

    third :
        shift_bytes 6 (c / 65536)
        ≡ bit_xor (shift_bytes 6 (c / 65536 % 256)) (shift_bytes 5 (c / 16777216 % 256))
    third =
        shift_bytes_parts 5 (c / 65536)
        ∙ ap (λ t. bit_xor (shift_bytes 6 (c / 65536 % 256)) (shift_bytes 5 t)) (quot3 c ∙ top)

    second :
        shift_bytes 7 (c / 256)
        ≡ bit_xor
            (shift_bytes 7 (c / 256 % 256))
            (bit_xor (shift_bytes 6 (c / 65536 % 256)) (shift_bytes 5 (c / 16777216 % 256)))
    second =
        shift_bytes_parts 6 (c / 256)
        ∙ ap (λ t. bit_xor (shift_bytes 7 (c / 256 % 256)) t) (ap (shift_bytes 6) (quot2 c) ∙ third)

abbrev pub IsWord : ℕ → Type 0
IsWord c = c < 2 ^ 32

pub shift_bit-IsWord : (c : ℕ) → IsWord c → IsWord (shift_bit c)
unfolding shift_bit
shift_bit-IsWord c h = ground (arith, bit_xor_lt_pow 32 crc_polynomial (c / 2))

pub shift_bits-IsWord : (k c : ℕ) → IsWord c → IsWord (shift_bits k c)
unfolding shift_bits
shift_bits-IsWord zero c h = h
shift_bits-IsWord (suc k) c h = shift_bits-IsWord k (shift_bit c) (shift_bit-IsWord c h)

pub crc_serial-IsWord : (bs : List ℕ) (c : ℕ) → All IsByte bs → IsWord c → IsWord (crc_serial bs c)
unfolding crc_serial
crc_serial-IsWord [] c p h = h
crc_serial-IsWord (b ∷ bs) c (q, p) h =
    crc_serial-IsWord bs _ p (shift_bits-IsWord 8 _ (bit_xor_lt_pow 32 c b h (omega arith)))

-- What comes in and what was there go apart.
crc_serial_apart :
    (bs : List ℕ) (c d : ℕ)
    → crc_serial bs (bit_xor c d) ≡ bit_xor (shift_bytes (length bs) c) (crc_serial bs d)
unfolding crc_serial shift_bytes
crc_serial_apart [] c d = refl
crc_serial_apart (b ∷ bs) c d =
    ap (crc_serial bs)
      (ap (shift_bits 8) (bit_xor_assoc c d b) ∙ shift_bits-bit_xor 8 c (bit_xor d b))
    ∙ crc_serial_apart bs (shift_bits 8 c) (shift_bits 8 (bit_xor d b))
    ∙ ap (λ t. bit_xor t (crc_serial bs (shift_bits 8 (bit_xor d b))))
        (sym (shift_bytes_first (length bs) c))

crc_serial_none : (c : ℕ) → crc_serial [] c ≡ c
unfolding crc_serial
crc_serial_none c = refl

crc_serial_byte :
    (b : ℕ) (bs : List ℕ)
    → crc_serial (b ∷ bs) 0 ≡ bit_xor (shift_bytes (suc (length bs)) b) (crc_serial bs 0)
unfolding crc_serial
crc_serial_byte b bs = rw (zero-bit_xor b) (
    ap (crc_serial bs) (sym (bit_xor-zero (shift_bits 8 b)))
    ∙ crc_serial_apart bs (shift_bits 8 b) 0
    ∙ ap (λ t. bit_xor t (crc_serial bs 0)) (sym (shift_bytes_first (length bs) b)))

-- Eight bytes at once, each through the shifts that it has still to take.
crc_serial_block :
    (b0 b1 b2 b3 b4 b5 b6 b7 c : ℕ)
    → crc_serial (b0 ∷ b1 ∷ b2 ∷ b3 ∷ b4 ∷ b5 ∷ b6 ∷ b7 ∷ []) c
      ≡ bit_xor (shift_bytes 8 c) (
          bit_xor
            (bit_xor
              (bit_xor (shift_bytes 8 b0) (shift_bytes 7 b1))
              (bit_xor (shift_bytes 6 b2) (shift_bytes 5 b3)))
            (bit_xor
              (bit_xor (shift_bytes 4 b4) (shift_bytes 3 b5))
              (bit_xor (shift_bytes 2 b6) (shift_bytes 1 b7))))
crc_serial_block b0 b1 b2 b3 b4 b5 b6 b7 c =
    ap (crc_serial bytes) (sym (bit_xor-zero c))
    ∙ crc_serial_apart bytes c 0
    ∙ ap (bit_xor (shift_bytes 8 c))
        (simp (crc_serial_byte, bit_xor_assoc, crc_serial_none, bit_xor-zero) refl)
  where
    bytes : List ℕ
    bytes = b0 ∷ b1 ∷ b2 ∷ b3 ∷ b4 ∷ b5 ∷ b6 ∷ b7 ∷ []

word_bytes :
    (b0 b1 b2 b3 : ℕ)
    → IsByte b0
    → IsByte b1
    → IsByte b2
    → IsByte b3
    → shift_bytes 8 (le_word b0 b1 b2 b3)
      ≡ bit_xor
          (bit_xor (shift_bytes 8 b0) (shift_bytes 7 b1))
          (bit_xor (shift_bytes 6 b2) (shift_bytes 5 b3))
word_bytes b0 b1 b2 b3 h0 h1 h2 h3 =
    word_slice (le_word b0 b1 b2 b3) (omega arith) ∙ rw (c0, c1, c2, c3) refl
  where
    c0 : le_word b0 b1 b2 b3 % 256 ≡ b0
    c0 = omega arith

    c1 : le_word b0 b1 b2 b3 / 256 % 256 ≡ b1
    c1 = omega arith

    c2 : le_word b0 b1 b2 b3 / 65536 % 256 ≡ b2
    c2 = omega arith

    c3 : le_word b0 b1 b2 b3 / 16777216 % 256 ≡ b3
    c3 = omega arith

crc_slice_lem :
    (w b4 b5 b6 b7 : ℕ)
    → IsWord w
    → crc_slice w b4 b5 b6 b7
      ≡ bit_xor (shift_bytes 8 w) (
          bit_xor
            (bit_xor (shift_bytes 4 b4) (shift_bytes 3 b5))
            (bit_xor (shift_bytes 2 b6) (shift_bytes 1 b7)))
unfolding crc_slice
crc_slice_lem w b4 b5 b6 b7 h = simp (crc_table_lem, word_slice w h) refl

pub block_step :
    (b0 b1 b2 b3 b4 b5 b6 b7 : ℕ) (c : ℕ)
    → IsByte b0
    → IsByte b1
    → IsByte b2
    → IsByte b3
    → IsWord c
    → crc_slice (bit_xor c (le_word b0 b1 b2 b3)) b4 b5 b6 b7
      ≡ crc_serial (b0 ∷ b1 ∷ b2 ∷ b3 ∷ b4 ∷ b5 ∷ b6 ∷ b7 ∷ []) c
block_step b0 b1 b2 b3 b4 b5 b6 b7 c h0 h1 h2 h3 h =
    crc_slice_lem (bit_xor c (le_word b0 b1 b2 b3)) b4 b5 b6 b7
      (bit_xor_lt_pow 32 c (le_word b0 b1 b2 b3) h (omega arith))
    ∙ simp
        (shift_bytes-bit_xor, word_bytes b0 b1 b2 b3 h0 h1 h2 h3, crc_serial_block, bit_xor_assoc)
        refl
