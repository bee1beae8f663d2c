-- ===== src/Archive/Directory.antt =====
-- The directory that src/lib/zip.ts writes, read back as the format of a ZIP file says.
use localchune.Archive.Headers.Sizes.{length-extra_fields}
use localchune.Archive.Headers.{
  extra_fields, big_offset, extra_len, big_size, central_fields, CentralRecord,
}
use localchune.Archive.Crc.{u32_max}
use localchune.Archive.Bytes.{field_bytes, encode_fields, le_bytes}
pub mod RoundTrip
mod Tests
use mathlib.Core.List.{append_assoc}
use localchune.Common.{
  Bool, ◌∙◌, ◌-◌, ap, ◌≤◌, inr, ◌⊎◌, inl, false, ◌≢◌, Bool-cases, ℕ, zero, suc, ◌+◌, ◌*◌, ◌/◌, ◌%◌,
  ◌^◌, ◌<◌, ◌≡◌, refl, sym, true, ◌&&◌, Option, none, some, List, [], ◌∷◌, ◌++◌, arith, ◌==◌,
  if◌then◌else◌, length,
}

infixl 5 ◌>>=◌
abbrev ◌>>=◌ : {A B : Type 0} → Option A → (A → Option B) → Option B
none >>= f = none
some a >>= f = f a

-- A little-endian number of `k` bytes, and what follows it.
abbrev with_low : ℕ → Option (ℕ × List ℕ) → Option (ℕ × List ℕ)
with_low b none = none
with_low b (some (v, rest)) = some (b + 256 * v, rest)

abbrev pub number_of : ℕ → List ℕ → Option (ℕ × List ℕ)
number_of zero bytes = some (0, bytes)
number_of (suc k) [] = none
number_of (suc k) (b ∷ bytes) = with_low b (number_of k bytes)

abbrev with_byte : ℕ → Option (List ℕ × List ℕ) → Option (List ℕ × List ℕ)
with_byte b none = none
with_byte b (some (bytes, rest)) = some (b ∷ bytes, rest)

abbrev raw_of : ℕ → List ℕ → Option (List ℕ × List ℕ)
raw_of zero bytes = some ([], bytes)
raw_of (suc n) [] = none
raw_of (suc n) (b ∷ bytes) = with_byte b (raw_of n bytes)

-- What a reader finds in a record of the directory.
pub record Found : Type 0 where
  name : List ℕ
  crc : ℕ
  size : ℕ
  offset : ℕ
  time : ℕ
  date : ℕ

-- The size and the offset: from the ZIP64 block, when there is one, for a field of ones.
abbrev wide_values : ℕ → ℕ → List ℕ → Option (ℕ × ℕ)
wide_values size offset [] = some (size, offset)
wide_values size offset (b ∷ extra) = do
  (id, block) ← number_of 2 (b ∷ extra)
  (len, block) ← number_of 2 block
  (full, block) ← if size == u32_max then number_of 8 block else some (size, block)
  (stored, block) ← if size == u32_max then number_of 8 block else some (size, block)
  (at, block) ← if offset == u32_max then number_of 8 block else some (offset, block)
  if id == 1 && len == length extra - 3 then some (full, at) else none

-- The numbers of fixed width that say how to read the rest of a record.
record Fixed : Type 0 where
  time : ℕ
  date : ℕ
  crc : ℕ
  stored : ℕ
  size : ℕ
  name_length : ℕ
  extra_length : ℕ
  comment_length : ℕ
  offset : ℕ

abbrev found_of : Fixed → List ℕ → List ℕ → Option (ℕ × ℕ) → Option (Found × List ℕ)
found_of f name rest none = none
found_of f name rest (some (full, at)) =
    if f.stored == f.size
    then some (
      record { name = name; crc = f.crc; size = full; offset = at; time = f.time; date = f.date },
      rest,
    )
    else none

abbrev read_names : Fixed → List ℕ → Option (Found × List ℕ)
read_names f bytes = do
  (name, bytes) ← raw_of f.name_length bytes
  (extra, bytes) ← raw_of f.extra_length bytes
  (comment, bytes) ← raw_of f.comment_length bytes
  found_of f name bytes (wide_values f.size f.offset extra)

-- One record of the directory, and what follows it.
pub read_central : List ℕ → Option (Found × List ℕ)
read_central bytes = do
  (signature, bytes) ← number_of 4 bytes
  (made_by, bytes) ← number_of 2 bytes
  (needed, bytes) ← number_of 2 bytes
  (flags, bytes) ← number_of 2 bytes
  (method, bytes) ← number_of 2 bytes
  (time, bytes) ← number_of 2 bytes
  (date, bytes) ← number_of 2 bytes
  (crc, bytes) ← number_of 4 bytes
  (stored, bytes) ← number_of 4 bytes
  (size, bytes) ← number_of 4 bytes
  (name_length, bytes) ← number_of 2 bytes
  (extra_length, bytes) ← number_of 2 bytes
  (comment_length, bytes) ← number_of 2 bytes
  (disk, bytes) ← number_of 2 bytes
  (internal, bytes) ← number_of 2 bytes
  (external, bytes) ← number_of 4 bytes
  (offset, bytes) ← number_of 4 bytes
  let fixed : Fixed = record {
    time = time;
    date = date;
    crc = crc;
    stored = stored;
    size = size;
    name_length = name_length;
    extra_length = extra_length;
    comment_length = comment_length;
    offset = offset;
  }
  if signature == 0x02014b50 && method == 0 then read_names fixed bytes else none

-- The records of a directory of so many entries.
abbrev with_found : Found → Option (List Found × List ℕ) → Option (List Found × List ℕ)
with_found f none = none
with_found f (some (fs, rest)) = some (f ∷ fs, rest)

pub read_directory : ℕ → List ℕ → Option (List Found × List ℕ)
read_directory zero bytes = some ([], bytes)
read_directory (suc n) bytes = do
  (f, rest) ← read_central bytes
  with_found f (read_directory n rest)
