-- ===== src/Match/Ber.antt =====
-- src/lib/ber.ts: the bit error rate of two fingerprints and the sweep over their alignments. A frame
-- is a word below 2^32. A rate is its bits over 32 for each frame of overlap, and two rates are
-- compared exactly, by products.
pub mod Best
pub mod Range
use Prim.Native.Nat.{bit_and, bit_xor}
use localchune.Common.{
  ℕ, zero, suc, ◌+◌, ◌-◌, ◌*◌, ◌/◌, ◌%◌, ◌^◌, ◌≤◌, ◌<◌, min, max, String, ◌≡◌, refl, sym, ap, subst,
  ◌∙◌, ◌≡⟨◌⟩◌, ◌∎, ◌≢◌, ◌↔◌, ◌⊎◌, inl, inr, Bool, true, false, not, ◌&&◌, ◌||◌, Option, none, some,
  List, [], ◌∷◌, ◌++◌, map, arith, dec_lt, dec_le, ℕ_discrete, ltb, leb, ◌==◌, if◌then◌else◌,
  Bool-cases, Option-cases, dec_str, same, length, get_elem?, take, drop, keep, find_index,
  remove_at, insert_at, set, length-append, length-take, length-drop, take_of_length-le,
  length-keep-le, length-map, All, All-append, All-take, All-drop, All-keep, has, has-append,
  has_self, Uniq, Uniq-append, unique_by, has-take, has-of_take, has-drop, has-keep, Uniq-take,
  Uniq-drop, Uniq-keep, has-keep-not, unique_by-fresh, unique_by-Uniq, has-unique_by, has-drop-suc,
  has-remove_at, has-at, Uniq-remove_at, has-of_unique_by, All-of_has,
}
use localchune.Common.Number.{ℤ, pos, negsuc}

abbrev pub max_offset_frames : ℕ
max_offset_frames = 80

abbrev pub min_overlap_frames : ℕ
min_overlap_frames = 64

abbrev pub max_duration_delta_ms : ℕ
max_duration_delta_ms = 10000

-- `popcount32`; the word below 2^32 that JavaScript may show as a negative number is the same.
unfoldable pub popcount32 : ℕ → ℕ
popcount32 x =
    let pairs = x - bit_and (x / 2) 0x55555555 in
    let nibbles = bit_and pairs 0x33333333 + bit_and (pairs / 4) 0x33333333 in
    let octets = bit_and (nibbles + nibbles / 16) 0x0f0f0f0f in
    octets * 0x01010101 % 2 ^ 32 / 2 ^ 24

-- The frames that face each other: `a[i + offset]` and `b[i]`, from the first `i` to the last.
unfoldable pub faced : List ℕ → List ℕ → List (ℕ × ℕ)
faced [] b = []
faced (x ∷ a) [] = []
faced (x ∷ a) (y ∷ b) = (x, y) ∷ faced a b

unfoldable pub aligned : List ℕ → List ℕ → ℤ → List (ℕ × ℕ)
aligned a b (pos n) = faced (drop n a) b
aligned a b (negsuc n) = faced a (drop (suc n) b)

unfoldable pub differing : List (ℕ × ℕ) → ℕ
differing [] = 0
differing ((x, y) ∷ rest) = popcount32 (bit_xor x y) + differing rest

pub record Alignment : Type 0 where
  pub bits : ℕ
  pub overlap : ℕ
  pub offset : ℤ

-- `bitErrorRate`; with no overlap the rate is 1, and the sweep passes over it.
unfoldable pub bit_error_rate : List ℕ → List ℕ → ℤ → Alignment
bit_error_rate a b offset =
    let pairs = aligned a b offset in
    record { bits = differing pairs; overlap = length pairs; offset = offset }

-- `x.ber < y.ber`.
unfoldable pub is_lower : Alignment → Alignment → Bool
is_lower x y = ltb (x.bits * y.overlap) (y.bits * x.overlap)

unfoldable pub lower_of : Option Alignment → Alignment → Option Alignment
lower_of none x = some x
lower_of (some best) x = if is_lower x best then some x else some best

-- The offsets from `-maxOffset` to `maxOffset`.
unfoldable pub offset_at : ℕ → ℕ → ℤ
offset_at max_offset k =
    if ltb k max_offset then negsuc (max_offset - k - 1) else pos (k - max_offset)

unfoldable pub offsets_from : ℕ → ℕ → ℕ → List ℤ
offsets_from max_offset k zero = []
offsets_from max_offset k (suc n) = offset_at max_offset k ∷ offsets_from max_offset (suc k) n

unfoldable pub offsets : ℕ → List ℤ
offsets max_offset = offsets_from max_offset 0 (2 * max_offset + 1)

-- The loop over the offsets, with `best` and `fallback`.
unfoldable pub sweep :
    List ℕ
    → List ℕ
    → List ℤ
    → Option Alignment
    → Option Alignment
    → Option Alignment × Option Alignment
sweep a b [] best fallback = (best, fallback)
sweep a b (off ∷ offs) best fallback =
    let x = bit_error_rate a b off in
    let pass = sweep a b offs best fallback in
    let short = sweep a b offs best (lower_of fallback x) in
    let long = sweep a b offs (lower_of best x) (lower_of fallback x) in
    if x.overlap == 0 then pass else if ltb x.overlap min_overlap_frames then short else long

-- A score of `1 - ber` at an alignment, or 0 with the best short one, where there is one.
pub data Swept : Type 0 where
  scored : Alignment → Swept
  too_short : Option Alignment → Swept

unfoldable pub swept_of : Option Alignment × Option Alignment → Swept
swept_of (none, fallback) = too_short fallback
swept_of (some best, fallback) = scored best

unfoldable pub sweep_offsets : List ℕ → List ℕ → ℕ → Swept
sweep_offsets [] b max_offset = too_short none
sweep_offsets (x ∷ a) [] max_offset = too_short none
sweep_offsets (x ∷ a) (y ∷ b) max_offset =
    swept_of (sweep (x ∷ a) (y ∷ b) (offsets max_offset) none none)

unfoldable pub duration_gate_passes : Option ℕ → Option ℕ → Bool
duration_gate_passes none b = true
duration_gate_passes (some x) none = true
duration_gate_passes (some x) (some y) =
    leb (x - y) max_duration_delta_ms && leb (y - x) max_duration_delta_ms
