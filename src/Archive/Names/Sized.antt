-- ===== src/Archive/Names/Sized.antt =====
-- Which names src/lib/zip.ts makes: texts that fit a number of bytes.
use localchune.Common.{ℕ, ◌+◌, ◌≤◌, ◌≡◌, List, [], ◌∷◌, arith}
use localchune.Archive.Names.{
  utf8_size, utf8_length, take_bytes, cap_utf8_bytes, unless_tail, strip_tail,
}

utf8-strip_tail-le : (s : List ℕ) → utf8_length (strip_tail s) ≤ utf8_length s
unfolding strip_tail utf8_length
utf8-strip_tail-le [] = omega arith
utf8-strip_tail-le (c ∷ cs) = unless c (strip_tail cs) (utf8_length cs) (utf8-strip_tail-le cs)
  where
    unless :
        (c : ℕ) (s : List ℕ) (n : ℕ)
        → utf8_length s ≤ n
        → utf8_length (unless_tail c s) ≤ utf8_size c + n
    unless c [] n h = ground arith
    unless c (d ∷ ds) n h = omega arith

utf8-take_bytes-le :
    (max_bytes used : ℕ) (s : List ℕ)
    → used ≤ max_bytes
    → utf8_length (take_bytes max_bytes used s) + used ≤ max_bytes
unfolding take_bytes utf8_length
utf8-take_bytes-le max_bytes used [] h = omega arith
utf8-take_bytes-le max_bytes used (c ∷ cs) h =
    ground (arith, utf8-take_bytes-le max_bytes (used + utf8_size c) cs)

-- A capped text has at most the bytes that it is given, and a text that has no more is kept.
pub cap_utf8_bytes-le :
    (s : List ℕ) (max_bytes : ℕ)
    → (utf8_length (cap_utf8_bytes s max_bytes) ≤ max_bytes)
      × (utf8_length s ≤ max_bytes → cap_utf8_bytes s max_bytes ≡ s)
unfolding cap_utf8_bytes
cap_utf8_bytes-le s max_bytes = (
  ground (
    arith,
    utf8-strip_tail-le (take_bytes max_bytes 0 s),
    utf8-take_bytes-le max_bytes 0 s (omega arith),
  ),
  λ h. ground arith,
)
