-- ===== src/Archive/Crc/Rolling.antt =====
-- The rolling CRC32: what `crc32` computes, and how the calls for the chunks of a body compose.
use localchune.Archive.Xor.{bit_xor_comm, bit_xor_self, bit_xor_cancel, bit_xor_lt_pow, bit_xor_eq}
use localchune.Archive.Crc.Slices.{shift_bits-bit_xor, shift_even, shift_odd, parity_cases}
use localchune.Archive.Crc.Blocks.{
  shift_bits-IsWord, shift_bit-IsWord, crc_bytes_lem, block_step, crc_serial-IsWord, IsWord, IsByte,
}
use localchune.Archive.Crc.{
  crc_bytes, crc_polynomial, shift_bits, shift_bit, invert, crc_serial, crc_blocks, crc32,
}
use Prim.Native.Nat.{zero, suc, bit_xor}
use localchune.Common.{
  ◌≢◌, ℕ, zero, suc, ◌/◌, ◌≡◌, refl, sym, ap, ◌∙◌, inl, inr, List, [], ◌∷◌, ◌++◌, arith, All,
  All-append,
}

crc_serial_append :
    (xs ys : List ℕ) (c : ℕ) → crc_serial (xs ++ ys) c ≡ crc_serial ys (crc_serial xs c)
unfolding crc_serial
crc_serial_append [] ys c = refl
crc_serial_append (x ∷ xs) ys c = crc_serial_append xs ys _

crc_blocks-crc_serial :
    (bs : List ℕ) (c : ℕ) → All IsByte bs → IsWord c → crc_blocks bs c ≡ crc_serial bs c
unfolding crc_blocks
crc_blocks-crc_serial (b0 ∷ b1 ∷ b2 ∷ b3 ∷ b4 ∷ b5 ∷ b6 ∷ b7 ∷ rest) c
      (h0, (h1, (h2, (h3, (h4, (h5, (h6, (h7, h)))))))) w =
    let front = b0 ∷ b1 ∷ b2 ∷ b3 ∷ b4 ∷ b5 ∷ b6 ∷ b7 ∷ [] in
    let after = crc_serial-IsWord front c (h0, (h1, (h2, (h3, (h4, (h5, (h6, (h7, tt)))))))) w in
    ap (crc_blocks rest) (block_step b0 b1 b2 b3 b4 b5 b6 b7 c h0 h1 h2 h3 w)
    ∙ crc_blocks-crc_serial rest (crc_serial front c) h after
    ∙ sym (crc_serial_append front rest c)
crc_blocks-crc_serial [] c h w = crc_bytes_lem [] c h
crc_blocks-crc_serial (a ∷ []) c h w = crc_bytes_lem _ c h
crc_blocks-crc_serial (a ∷ b ∷ []) c h w = crc_bytes_lem _ c h
crc_blocks-crc_serial (a ∷ b ∷ d ∷ []) c h w = crc_bytes_lem _ c h
crc_blocks-crc_serial (a ∷ b ∷ d ∷ e ∷ []) c h w = crc_bytes_lem _ c h
crc_blocks-crc_serial (a ∷ b ∷ d ∷ e ∷ f ∷ []) c h w = crc_bytes_lem _ c h
crc_blocks-crc_serial (a ∷ b ∷ d ∷ e ∷ f ∷ g ∷ []) c h w = crc_bytes_lem _ c h
crc_blocks-crc_serial (a ∷ b ∷ d ∷ e ∷ f ∷ g ∷ i ∷ []) c h w = crc_bytes_lem _ c h

-- For bytes and a seed that is a word, the CRC by tables over blocks of eight bytes is the CRC that
-- shifts bit by bit, and it is a word.
pub crc32-crc_serial :
    (buf : List ℕ) (seed : ℕ)
    → All IsByte buf
    → IsWord seed
    → (crc32 buf seed ≡ invert (crc_serial buf (invert seed))) × IsWord (crc32 buf seed)
unfolding crc32
crc32-crc_serial buf seed h w =
    (ap invert (crc_blocks-crc_serial buf (invert seed) h (omega arith)), omega arith)

invert_twice : (c : ℕ) → IsWord c → invert (invert c) ≡ c
invert_twice c h = omega arith

-- For bytes and a seed that is a word, feeding two chunks one after the other, the first result as
-- the seed of the second call, is feeding the two as one chunk.
pub crc32-append :
    (xs ys : List ℕ) (seed : ℕ)
    → All IsByte xs
    → All IsByte ys
    → IsWord seed
    → crc32 ys (crc32 xs seed) ≡ crc32 (xs ++ ys) seed
unfolding crc32
crc32-append xs ys seed hx hy w =
    let start = invert seed in
    let front = crc_blocks-crc_serial xs start hx (omega arith) in
    let middle = crc_serial-IsWord xs start hx (omega arith) in
    let both =
      crc_blocks-crc_serial (xs ++ ys) start (All-append IsByte xs ys hx hy) (omega arith) in
    ap invert (
      rw (front, invert_twice (crc_serial xs start) middle, both, crc_serial_append xs ys start)
        (crc_blocks-crc_serial ys _ hy middle))

pub crc32-none : (seed : ℕ) → IsWord seed → crc32 [] seed ≡ seed
unfolding crc32 crc_blocks crc_bytes
crc32-none seed w = invert_twice seed w

-- A shift loses nothing of a word.
shift_bit_kernel : (c : ℕ) → IsWord c → shift_bit c ≡ 0 → c ≡ 0
shift_bit_kernel c h e = elim (parity_cases c) [
  | inl odd ↦ absurd (omega (arith, bit_xor_eq crc_polynomial (c / 2) (sym (shift_odd c odd) ∙ e)))
  | inr even ↦ omega (arith, shift_even c even)
]

shift_bits_kernel : (k c : ℕ) → IsWord c → shift_bits k c ≡ 0 → c ≡ 0
unfolding shift_bits
shift_bits_kernel zero c h e = e
shift_bits_kernel (suc k) c h e =
    shift_bit_kernel c h (shift_bits_kernel k (shift_bit c) (shift_bit-IsWord c h) e)

shift_bits_injective : (k c d : ℕ) → IsWord c → IsWord d → shift_bits k c ≡ shift_bits k d → c ≡ d
shift_bits_injective k c d v w e =
    let same_bits = ap (bit_xor (shift_bits k c)) (sym e) ∙ bit_xor_self (shift_bits k c) in
    let none_left = shift_bits-bit_xor k c d ∙ same_bits in
    bit_xor_eq c d (shift_bits_kernel k (bit_xor c d) (bit_xor_lt_pow 32 c d v w) none_left)

bit_xor_injective : (b c d : ℕ) → bit_xor c b ≡ bit_xor d b → c ≡ d
bit_xor_injective b c d e =
    sym (bit_xor_cancel b c)
    ∙ ap (bit_xor b) (bit_xor_comm b c ∙ e ∙ bit_xor_comm d b)
    ∙ bit_xor_cancel b d

crc_serial_injective :
    (bs : List ℕ) (c d : ℕ)
    → All IsByte bs
    → IsWord c
    → IsWord d
    → crc_serial bs c ≡ crc_serial bs d
    → c ≡ d
unfolding crc_serial
crc_serial_injective [] c d h v w e = e
crc_serial_injective (b ∷ bs) c d (p, h) v w e =
    let in_c = bit_xor_lt_pow 32 c b v (omega arith) in
    let in_d = bit_xor_lt_pow 32 d b w (omega arith) in
    let after_c = shift_bits-IsWord 8 _ in_c in
    let after_d = shift_bits-IsWord 8 _ in_d in
    bit_xor_injective b c d
      (shift_bits_injective 8 _ _ in_c in_d (crc_serial_injective bs _ _ h after_c after_d e))

-- The CRC tells the byte at a place.
crc32_injective :
    (xs ys : List ℕ) (a b seed : ℕ)
    → All IsByte xs
    → All IsByte ys
    → IsByte a
    → IsByte b
    → IsWord seed
    → crc32 (xs ++ a ∷ ys) seed ≡ crc32 (xs ++ b ∷ ys) seed
    → a ≡ b
unfolding crc_serial
crc32_injective xs ys a b seed hx hy ha hb w e =
    let start = crc_serial xs (invert seed) in
    let fits = crc_serial-IsWord xs (invert seed) hx (omega arith) in
    let in_a = bit_xor_lt_pow 32 start a fits (omega arith) in
    let in_b = bit_xor_lt_pow 32 start b fits (omega arith) in
    let after_a = shift_bits-IsWord 8 _ in_a in
    let after_b = shift_bits-IsWord 8 _ in_b in
    let equal =
      crc_serial_injective ys _ _ hy after_a after_b
        (sym (serial_of a ha) ∙ words a b ha hb e ∙ serial_of b hb) in
    let found = shift_bits_injective 8 _ _ in_a in_b equal in
    sym (bit_xor_cancel start a) ∙ ap (bit_xor start) found ∙ bit_xor_cancel start b
  where
    bytes : (b : ℕ) → IsByte b → All IsByte (xs ++ b ∷ ys)
    bytes b hb = All-append IsByte xs (b ∷ ys) hx (hb, hy)

    is_word : (b : ℕ) → IsByte b → IsWord (crc_serial (xs ++ b ∷ ys) (invert seed))
    is_word b hb = crc_serial-IsWord (xs ++ b ∷ ys) (invert seed) (bytes b hb) (omega arith)

    table_of :
        (b : ℕ)
        → IsByte b
        → crc32 (xs ++ b ∷ ys) seed ≡ invert (crc_serial (xs ++ b ∷ ys) (invert seed))
    table_of b hb = (crc32-crc_serial (xs ++ b ∷ ys) seed (bytes b hb) w).0

    words :
        (a b : ℕ)
        → IsByte a
        → IsByte b
        → crc32 (xs ++ a ∷ ys) seed ≡ crc32 (xs ++ b ∷ ys) seed
        → crc_serial (xs ++ a ∷ ys) (invert seed) ≡ crc_serial (xs ++ b ∷ ys) (invert seed)
    words a b ha hb e =
        sym (invert_twice _ (is_word a ha))
        ∙ ap invert (sym (table_of a ha) ∙ e ∙ table_of b hb)
        ∙ invert_twice _ (is_word b hb)

    serial_of :
        (b : ℕ)
        → IsByte b
        → crc_serial (xs ++ b ∷ ys) (invert seed)
          ≡ crc_serial ys (shift_bits 8 (bit_xor (crc_serial xs (invert seed)) b))
    serial_of b hb = crc_serial_append xs (b ∷ ys) (invert seed)

-- For bytes and a seed that is a word, two bodies that differ in one byte alone have different CRCs.
pub crc32_detects :
    (xs ys : List ℕ) (a b seed : ℕ)
    → All IsByte xs
    → All IsByte ys
    → IsByte a
    → IsByte b
    → IsWord seed
    → a ≢ b
    → crc32 (xs ++ a ∷ ys) seed ≢ crc32 (xs ++ b ∷ ys) seed
crc32_detects xs ys a b seed hx hy ha hb w d e = d (crc32_injective xs ys a b seed hx hy ha hb w e)
