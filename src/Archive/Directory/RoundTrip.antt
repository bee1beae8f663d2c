-- ===== src/Archive/Directory/RoundTrip.antt =====
-- What is read from a directory is what src/lib/zip.ts wrote.
use localchune.Archive.Headers.Sizes.{length-extra_fields}
use localchune.Archive.Writer.Archived.{directory_bytes}
use localchune.Archive.Crc.{u32_max}
use localchune.Archive.Headers.{
  extra_len, extra_fields, central_fields, big_size, big_offset, CentralRecord,
}
use localchune.Archive.Bytes.{field_bytes, encode_fields, le_bytes}
use mathlib.Core.List.{append_assoc}
use localchune.Archive.Directory.{
  number_of, raw_of, Found, wide_values, Fixed, found_of, read_names, read_central, read_directory,
}
use localchune.Common.{
  ℕ, zero, suc, ◌+◌, ◌*◌, ◌/◌, ◌%◌, ◌^◌, ◌≤◌, ◌<◌, ◌≡◌, refl, sym, ap, ◌∙◌, ◌≢◌, ◌⊎◌, inl, inr,
  Bool, true, false, some, List, [], ◌∷◌, ◌++◌, map, arith, ◌==◌, if◌then◌else◌, Bool-cases, length,
  All,
}

-- The low `k` bytes of a number.
abbrev kept : ℕ → ℕ → ℕ
kept zero v = 0
kept (suc k) v = v % 256 + 256 * kept k (v / 256)

number_lem : (k v : ℕ) (rest : List ℕ) → number_of k (le_bytes k v ++ rest) ≡ some (kept k v, rest)
number_lem zero v rest = refl
number_lem (suc k) v rest = rw (number_lem k (v / 256) rest) refl

kept16 : (v : ℕ) → v < 2 ^ 16 → kept 2 v ≡ v
kept16 v h = omega arith

kept32 : (v : ℕ) → v < 2 ^ 32 → kept 4 v ≡ v
kept32 v h = omega arith

kept64 : (v : ℕ) → v < 2 ^ 64 → kept 8 v ≡ v
kept64 v h = omega arith

raw_lem : (xs rest : List ℕ) → raw_of (length xs) (xs ++ rest) ≡ some (xs, rest)
raw_lem [] rest = refl
raw_lem (x ∷ xs) rest = rw (raw_lem xs rest) refl

==_self : (n : ℕ) → n == n ≡ true
==_self n = ground arith

-- The slots of a record, as the writer fills them.
abbrev slots : CentralRecord → Fixed
slots r =
    let size = kept 4 (if big_size r then u32_max else r.size) in
    record {
      time = kept 2 r.time;
      date = kept 2 r.date;
      crc = kept 4 r.crc;
      stored = size;
      size = size;
      name_length = kept 2 (length r.name);
      extra_length = kept 2 (extra_len (big_size r) (big_offset r));
      comment_length = 0;
      offset = kept 4 (if big_offset r then u32_max else r.offset);
    }

read_fixed :
    (r : CentralRecord) (rest : List ℕ)
    → read_central (encode_fields (central_fields r) ++ rest)
      ≡ read_names
          (slots r)
          (r.name ++ (encode_fields (extra_fields (big_size r) (big_offset r) r) ++ rest))
unfolding central_fields encode_fields field_bytes read_central
read_fixed r rest =
    rw (sym (append_assoc r.name (encode_fields (extra_fields (big_size r) (big_offset r) r)) rest))
      refl

-- What is right to find for a record.
abbrev pub shown : CentralRecord → Found
shown r = record {
  name = r.name;
  crc = r.crc;
  size = r.size;
  offset = r.offset;
  time = r.time;
  date = r.date;
}

wide_both :
    (r : CentralRecord)
    → r.size < 2 ^ 64
    → r.offset < 2 ^ 64
    → wide_values u32_max u32_max (encode_fields (extra_fields true true r))
      ≡ some (r.size, r.offset)
unfolding extra_fields extra_len encode_fields field_bytes
wide_both r s o =
    ap (λ n. some (n, kept 8 r.offset)) (kept64 r.size s)
    ∙ ap (λ n. some (r.size, n)) (kept64 r.offset o)

wide_size :
    (r : CentralRecord)
    → r.size < 2 ^ 64
    → r.offset ≢ u32_max
    → wide_values u32_max r.offset (encode_fields (extra_fields true false r))
      ≡ some (r.size, r.offset)
unfolding extra_fields extra_len encode_fields field_bytes
wide_size r s o = rw (==_other r.offset u32_max o) (ap (λ n. some (n, r.offset)) (kept64 r.size s))
  where
    ==_other : (n m : ℕ) → n ≢ m → n == m ≡ false
    ==_other n m h = ground arith

-- The numbers of a record fit its fields.
abbrev pub Fits : CentralRecord → Type 0
Fits r =
    (length r.name < 2 ^ 16)
    × (r.time < 2 ^ 16)
    × (r.date < 2 ^ 16)
    × (r.crc < 2 ^ 32)
    × (r.size < 2 ^ 64)
    × (r.offset < 2 ^ 64)
    × (r.offset ≢ u32_max)
    × ((r.zip64 ≡ true) ⊎ ((r.size ≤ u32_max) × r.offset ≤ u32_max))

small_offset : (r : CentralRecord) → big_offset r ≡ false → r.offset < 2 ^ 32
unfolding big_offset
small_offset r o = ground (arith, o)

small_size : (r : CentralRecord) → big_size r ≡ false → (r.zip64 ≡ false) × r.size < 2 ^ 32
unfolding big_size
small_size r o = ground arith

wide_none :
    (r : CentralRecord)
    → wide_values r.size r.offset (encode_fields (extra_fields false false r))
      ≡ some (r.size, r.offset)
unfolding extra_fields encode_fields
wide_none r = refl

not_late :
    (r : CentralRecord)
    → big_size r ≡ false
    → big_offset r ≡ true
    → (r.zip64 ≡ true) ⊎ ((r.size ≤ u32_max) × r.offset ≤ u32_max)
    → ⊥
unfolding big_size big_offset
not_late r s o (inl z) = ground arith
not_late r s o (inr (p, q)) = ground arith

wide_lem :
    (r : CentralRecord)
    → Fits r
    → wide_values
        (slots r).size
        (slots r).offset
        (encode_fields (extra_fields (big_size r) (big_offset r) r))
      ≡ some (r.size, r.offset)
wide_lem r (hn, ht, hd, hc, hs, ho, hm, hz) = elim (Bool-cases (big_size r)) [
  | inl s ↦ elim (Bool-cases (big_offset r)) [
    | inl o ↦ rw (s, o) (wide_both r hs ho)
    | inr o ↦ rw (s, o, kept32 r.offset (small_offset r o)) (wide_size r hs hm)
  ]
  | inr s ↦ elim (Bool-cases (big_offset r)) [
    | inl o ↦ absurd (not_late r s o hz)
    | inr o ↦
        rw (s, o, kept32 r.size (small_size r s).1, kept32 r.offset (small_offset r o))
          (wide_none r)
  ]
]

small_extra :
    (s o : Bool) (r : CentralRecord) → length (encode_fields (extra_fields s o r)) < 2 ^ 16
unfolding extra_fields encode_fields field_bytes
small_extra true true r = omega arith
small_extra true false r = omega arith
small_extra false true r = omega arith
small_extra false false r = omega arith

found_lem :
    (f : Fixed) (name rest : List ℕ) (full at : ℕ)
    → f.stored ≡ f.size
    → found_of f name rest (some (full, at))
      ≡ some (
        record { name = name; crc = f.crc; size = full; offset = at; time = f.time; date = f.date },
        rest,
      )
found_lem f name rest full at h = ground arith

length-extra :
    (r : CentralRecord)
    → kept 2 (extra_len (big_size r) (big_offset r))
      ≡ length (encode_fields (extra_fields (big_size r) (big_offset r) r))
length-extra r =
    ap (kept 2) (sym (length-extra_fields (big_size r) (big_offset r) r))
    ∙ kept16 _ (small_extra (big_size r) (big_offset r) r)

read_names_lem :
    (r : CentralRecord) (rest : List ℕ)
    → Fits r
    → read_names
        (slots r)
        (r.name ++ (encode_fields (extra_fields (big_size r) (big_offset r) r) ++ rest))
      ≡ some (shown r, rest)
read_names_lem r rest f =
    rw (kept16 (length r.name) f.0, raw_lem, length-extra r, raw_lem, wide_lem r f)
      (found_lem (slots r) r.name rest r.size r.offset refl
        ∙ rw (kept16 r.time f.1, kept16 r.date f.2, kept32 r.crc f.3) refl)

-- A reader finds the numbers of a record in the bytes that were written for it, and what follows them.
pub read_central_lem :
    (r : CentralRecord) (rest : List ℕ)
    → Fits r
    → read_central (encode_fields (central_fields r) ++ rest) ≡ some (shown r, rest)
read_central_lem r rest f = read_fixed r rest ∙ read_names_lem r rest f

-- Whatever follows it, the directory that is written for records whose numbers fit their fields, the
-- offset being no field of ones, reads back as the names, CRCs, sizes, offsets and times of the
-- records, in their order.
pub read_directory-directory_bytes :
    (rs : List CentralRecord) (rest : List ℕ)
    → All Fits rs
    → read_directory (length rs) (directory_bytes rs ++ rest) ≡ some (map shown rs, rest)
unfolding read_directory
read_directory-directory_bytes [] rest h = refl
read_directory-directory_bytes (r ∷ rs) rest (f, h) =
    rw
      (
        append_assoc (encode_fields (central_fields r)) (directory_bytes rs) rest,
        read_central_lem r (directory_bytes rs ++ rest) f,
        read_directory-directory_bytes rs rest h,
      )
      refl
