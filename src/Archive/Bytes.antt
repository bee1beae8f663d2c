-- ===== src/Archive/Bytes.antt =====
-- src/lib/zip.ts: `Packer`, the little-endian writer over a buffer of a fixed size.
use mathlib.Core.List.{append-nil, append_assoc}
use localchune.Common.{
  ℕ, zero, suc, ◌+◌, ◌-◌, ◌/◌, ◌%◌, ◌≤◌, ◌≡◌, refl, ap, ◌∙◌, Option, none, some, List, [], ◌∷◌,
  ◌++◌, arith, leb, if◌then◌else◌, length, length-append,
}

-- The `k` low bytes of a number, the lowest first; what is above them is dropped.
abbrev pub le_bytes : ℕ → ℕ → List ℕ
le_bytes zero v = []
le_bytes (suc k) v = v % 256 ∷ le_bytes k (v / 256)

abbrev pub zeros : ℕ → List ℕ
zeros zero = []
zeros (suc n) = 0 ∷ zeros n

-- The calls of a `Packer`.
pub data Field : Type 0 where
  u16 : ℕ → Field
  u32 : ℕ → Field
  u64 : ℕ → Field
  raw : List ℕ → Field

unfoldable pub field_bytes : Field → List ℕ
field_bytes (u16 v) = le_bytes 2 v
field_bytes (u32 v) = le_bytes 4 v
field_bytes (u64 v) = le_bytes 8 v
field_bytes (raw bytes) = bytes

-- What has been written, in front of `at`, of a buffer of `size` bytes.
pub record Packer : Type 0 where
  pub size : ℕ
  pub written : List ℕ

-- One call; a write past the end of the buffer is a RangeError, here `none`.
unfoldable pub put : Field → Option Packer → Option Packer
put f none = none
put f (some p) =
    let bytes = field_bytes f in
    if leb (length p.written + length bytes) p.size
    then some (record { size = p.size; written = p.written ++ bytes })
    else none

unfoldable pub put_all : List Field → Option Packer → Option Packer
put_all [] p = p
put_all (f ∷ fs) p = put_all fs (put f p)

-- `.bytes`: what was not written is zeros.
unfoldable pub bytes_of : Option Packer → Option (List ℕ)
bytes_of none = none
bytes_of (some p) = some (p.written ++ zeros (p.size - length p.written))

-- `new Packer(size)`, the calls, and `.bytes`.
unfoldable pub pack : ℕ → List Field → Option (List ℕ)
pack size fs = bytes_of (put_all fs (some (record { size = size; written = [] })))

-- The fields one behind the other.
unfoldable pub encode_fields : List Field → List ℕ
encode_fields [] = []
encode_fields (f ∷ fs) = field_bytes f ++ encode_fields fs

put_fits :
    (f : Field) (size : ℕ) (written : List ℕ)
    → length written + length (field_bytes f) ≤ size
    → put f (some (record { size = size; written = written }))
      ≡ some (record { size = size; written = written ++ field_bytes f })
unfolding put
put_fits f size written h = ground arith

put_all_lem :
    (fs : List Field) (size : ℕ) (written : List ℕ)
    → length written + length (encode_fields fs) ≤ size
    → put_all fs (some (record { size = size; written = written }))
      ≡ some (record { size = size; written = written ++ encode_fields fs })
unfolding put_all encode_fields
put_all_lem [] size written h = rw (append-nil written) refl
put_all_lem (f ∷ fs) size written h =
    let more = length-append (field_bytes f) (encode_fields fs) in
    let far = length-append written (field_bytes f) in
    let rest = put_all_lem fs size (written ++ field_bytes f) (omega arith) in
    let placed = put_fits f size written (omega arith) in
    ap (put_all fs) placed
    ∙ rest
    ∙ rw (append_assoc written (field_bytes f) (encode_fields fs)) refl

no_zeros : (n : ℕ) → zeros (n - n) ≡ []
no_zeros n = rw (nothing n) refl
  where
    nothing : (n : ℕ) → n - n ≡ 0
    nothing n = omega arith

-- When the size is that of the fields, nothing is thrown and nothing is left over.
pub pack_lem :
    (size : ℕ) (fs : List Field)
    → size ≡ length (encode_fields fs)
    → pack size fs ≡ some (encode_fields fs)
unfolding pack bytes_of
pack_lem size fs h =
    ap bytes_of (put_all_lem fs size [] (omega arith))
    ∙ rw (h, no_zeros (length (encode_fields fs)), append-nil) refl
