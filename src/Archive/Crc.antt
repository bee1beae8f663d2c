-- ===== src/Archive/Crc.antt =====
-- src/lib/zip.ts: the eight CRC tables and the rolling CRC32. An int32 is its unsigned word, a byte
-- is a number below 256; `>>> 8` is a quotient by 256, `& 0xff` a remainder.
pub mod Slices
pub mod Blocks
pub mod Rolling
use Prim.Native.Nat.{bit_xor}
use localchune.Common.{
  ℕ, zero, suc, ◌+◌, ◌-◌, ◌*◌, ◌/◌, ◌%◌, ◌^◌, ◌≤◌, ◌<◌, min, max, String, ◌≡◌, refl, sym, ap, subst,
  ◌∙◌, ◌≡⟨◌⟩◌, ◌∎, ◌≢◌, ◌↔◌, ◌⊎◌, inl, inr, Bool, true, false, not, ◌&&◌, ◌||◌, Option, none, some,
  List, [], ◌∷◌, ◌++◌, map, arith, dec_lt, dec_le, ℕ_discrete, ltb, leb, ◌==◌, if◌then◌else◌,
  Bool-cases, Option-cases, dec_str, same, length, get_elem?, take, drop, keep, find_index,
  remove_at, insert_at, set, length-append, length-take, length-drop, take_of_length-le,
  length-keep-le, length-map, All, All-append, All-take, All-drop, All-keep, has, has-append,
  has_self, Uniq, Uniq-append, unique_by, has-take, has-of_take, has-drop, has-keep, Uniq-take,
  Uniq-drop, Uniq-keep, has-keep-not, unique_by-fresh, unique_by-Uniq, has-unique_by, has-drop-suc,
  has-remove_at, has-at, Uniq-remove_at, has-of_unique_by, All-of_has,
}

abbrev pub u32_max : ℕ
u32_max = 0xffffffff

abbrev pub crc_polynomial : ℕ
crc_polynomial = 0xedb88320

-- The loop over `k` that shifts out one bit a round, and one round of it.
unfoldable pub shift_bit : ℕ → ℕ
shift_bit c = if c % 2 == 1 then bit_xor crc_polynomial (c / 2) else c / 2

unfoldable pub shift_bits : ℕ → ℕ → ℕ
shift_bits zero c = c
shift_bits (suc k) c = shift_bits k (shift_bit c)

-- `t[k * 256 + i]`, as the two loops of `buildCrcTables` fill it.
unfoldable pub crc_table : ℕ → ℕ → ℕ
crc_table zero i = shift_bits 8 i
crc_table (suc k) i = let c = crc_table k i in bit_xor (shift_bits 8 (c % 256)) (c / 256)

-- `buf[i] | (buf[i + 1] << 8) | (buf[i + 2] << 16) | (buf[i + 3] << 24)`, whose bytes do not overlap.
abbrev pub le_word : ℕ → ℕ → ℕ → ℕ → ℕ
le_word b0 b1 b2 b3 = b0 + 256 * (b1 + 256 * (b2 + 256 * b3))

-- The word that the tables give for the four bytes of `c` and the last four of a block.
unfoldable pub crc_slice : ℕ → ℕ → ℕ → ℕ → ℕ → ℕ
crc_slice c b4 b5 b6 b7 =
    let high = bit_xor (crc_table 7 (c % 256)) (crc_table 6 (c / 256 % 256)) in
    let mid = bit_xor (crc_table 5 (c / 65536 % 256)) (crc_table 4 (c / 16777216 % 256)) in
    let low = bit_xor (crc_table 3 b4) (crc_table 2 b5) in
    let last = bit_xor (crc_table 1 b6) (crc_table 0 b7) in
    bit_xor (bit_xor high mid) (bit_xor low last)

-- The loop over the bytes that are left.
unfoldable pub crc_bytes : List ℕ → ℕ → ℕ
crc_bytes [] c = c
crc_bytes (b ∷ bs) c = crc_bytes bs (bit_xor (crc_table 0 (bit_xor c b % 256)) (c / 256))

-- The loop over the blocks of eight bytes, then the other loop.
unfoldable pub crc_blocks : List ℕ → ℕ → ℕ
crc_blocks (b0 ∷ b1 ∷ b2 ∷ b3 ∷ b4 ∷ b5 ∷ b6 ∷ b7 ∷ rest) c =
    crc_blocks rest (crc_slice (bit_xor c (le_word b0 b1 b2 b3)) b4 b5 b6 b7)
crc_blocks bytes c = crc_bytes bytes c

-- `~c`.
abbrev pub invert : ℕ → ℕ
invert c = u32_max - c

unfoldable pub crc32 : List ℕ → ℕ → ℕ
crc32 buf seed = invert (crc_blocks buf (invert seed))

-- The CRC of the specification: eight shifts for each byte, without a table.
unfoldable pub crc_serial : List ℕ → ℕ → ℕ
crc_serial [] c = c
crc_serial (b ∷ bs) c = crc_serial bs (shift_bits 8 (bit_xor c b))
