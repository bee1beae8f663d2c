-- ===== src/Archive/Headers/Sizes.antt =====
-- The buffers of src/lib/zip.ts have the sizes of what is written into them.
use localchune.Archive.Crc.{u32_max}
use localchune.Archive.Headers.{
  joined, locator_fields, u16_max, eocd64_fields, eocd_fields, end_of_central_directory, big_offset,
  big_size, local_zip64_extra, extra_fields, extra_len, descriptor_fields, central_fields,
  local_fields, CentralRecord, with_extra, local_header, data_descriptor, central_header,
}
use localchune.Common.{
  ℕ, ◌+◌, ◌≡◌, refl, sym, Bool, true, false, not, ◌||◌, some, List, [], ◌∷◌, ◌++◌, arith, ltb,
  if◌then◌else◌, length, length-append,
}
use localchune.Archive.Bytes.{
  put, put_all, bytes_of, pack, pack_lem, field_bytes, encode_fields, u16, u64,
}

-- The records as bytes.
abbrev pub local_bytes : List ℕ → ℕ → ℕ → Bool → List ℕ
local_bytes name time date zip64 = encode_fields (
    local_fields name time date zip64
      (if zip64 then encode_fields (u16 0x0001 ∷ u16 16 ∷ u64 0 ∷ u64 0 ∷ []) else []))

with_extra_lem :
    (name : List ℕ) (time date : ℕ) (zip64 : Bool) (extra : List ℕ)
    → (with_extra name time date zip64 (some extra)
        ≡ some (encode_fields (local_fields name time date zip64 extra)))
      × (length (encode_fields (local_fields name time date zip64 extra))
          ≡ 30 + length name + length extra)
unfolding with_extra encode_fields field_bytes local_fields
with_extra_lem name time date zip64 extra = (pack_lem _ _ (sym size), size)
  where
    size :
        length (encode_fields (local_fields name time date zip64 extra))
        ≡ 30 + length name + length extra
    size = omega (arith, length-append name (extra ++ []), length-append extra [])

pub local_header_lem :
    (name : List ℕ) (time date : ℕ) (zip64 : Bool)
    → (local_header name time date zip64 ≡ some (local_bytes name time date zip64))
      × (length (local_bytes name time date zip64) ≡ 30 + length name + (if zip64 then 20 else 0))
unfolding local_header local_zip64_extra pack bytes_of put_all put encode_fields field_bytes
local_header_lem name time date true =
    with_extra_lem name time date true (encode_fields (u16 0x0001 ∷ u16 16 ∷ u64 0 ∷ u64 0 ∷ []))
local_header_lem name time date false = with_extra_lem name time date false []

pub data_descriptor_lem :
    (crc size : ℕ) (zip64 : Bool)
    → (data_descriptor crc size zip64 ≡ some (encode_fields (descriptor_fields crc size zip64)))
      × (length (encode_fields (descriptor_fields crc size zip64)) ≡ (if zip64 then 24 else 16))
unfolding data_descriptor encode_fields field_bytes descriptor_fields
data_descriptor_lem crc size true = (pack_lem _ _ refl, refl)
data_descriptor_lem crc size false = (pack_lem _ _ refl, refl)

pub length-extra_fields :
    (size64 offset64 : Bool) (r : CentralRecord)
    → length (encode_fields (extra_fields size64 offset64 r)) ≡ extra_len size64 offset64
unfolding extra_fields encode_fields field_bytes extra_len
length-extra_fields true true r = refl
length-extra_fields true false r = refl
length-extra_fields false true r = refl
length-extra_fields false false r = refl

pub central_header_lem :
    (r : CentralRecord)
    → (central_header r ≡ some (encode_fields (central_fields r)))
      × (length (encode_fields (central_fields r))
          ≡ 46 + length r.name + extra_len (big_size r) (big_offset r))
unfolding central_header central_fields encode_fields field_bytes
central_header_lem r = (pack_lem _ _ (sym size), size)
  where
    size :
        length (encode_fields (central_fields r))
        ≡ 46 + length r.name + extra_len (big_size r) (big_offset r)
    size =
        let extra = encode_fields (extra_fields (big_size r) (big_offset r) r) in
        omega (arith, length-append r.name extra, length-extra_fields (big_size r) (big_offset r) r)

eocd_lem :
    (count cd_size cd_offset : ℕ)
    → pack 22 (eocd_fields count cd_size cd_offset)
      ≡ some (encode_fields (eocd_fields count cd_size cd_offset))
unfolding eocd_fields encode_fields field_bytes
eocd_lem count cd_size cd_offset = pack_lem _ _ refl

rec64_lem :
    (count cd_size cd_offset : ℕ)
    → pack 56 (eocd64_fields count cd_size cd_offset)
      ≡ some (encode_fields (eocd64_fields count cd_size cd_offset))
unfolding eocd64_fields encode_fields field_bytes
rec64_lem count cd_size cd_offset = pack_lem _ _ refl

locator_lem :
    (eocd64_offset : ℕ)
    → pack 20 (locator_fields eocd64_offset) ≡ some (encode_fields (locator_fields eocd64_offset))
unfolding locator_fields encode_fields field_bytes
locator_lem eocd64_offset = pack_lem _ _ refl

-- The records at the end of the archive, as bytes.
abbrev pub end_bytes : ℕ → ℕ → ℕ → Bool → List ℕ
end_bytes count cd_size cd_offset wide =
    let eocd = encode_fields (eocd_fields count cd_size cd_offset) in
    if not wide
    then eocd
    else encode_fields (eocd64_fields count cd_size cd_offset)
      ++ (encode_fields (locator_fields (cd_offset + cd_size)) ++ eocd)

pub end_of_central_directory_lem :
    (count cd_size cd_offset : ℕ) (any_zip64 : Bool)
    → end_of_central_directory count cd_size cd_offset any_zip64
      ≡ some (
          end_bytes count cd_size cd_offset
            (any_zip64 || ltb u16_max count || ltb u32_max cd_size || ltb u32_max cd_offset))
unfolding end_of_central_directory joined
end_of_central_directory_lem count cd_size cd_offset any_zip64 =
    of_cases (any_zip64 || ltb u16_max count || ltb u32_max cd_size || ltb u32_max cd_offset)
  where
    of_cases :
        (wide : Bool)
        → (if not wide
            then pack 22 (eocd_fields count cd_size cd_offset)
            else joined (pack 56 (eocd64_fields count cd_size cd_offset)) (
                joined
                  (pack 20 (locator_fields (cd_offset + cd_size)))
                  (pack 22 (eocd_fields count cd_size cd_offset))))
          ≡ some (end_bytes count cd_size cd_offset wide)
    of_cases true =
        rw
          (
            rec64_lem count cd_size cd_offset,
            locator_lem (cd_offset + cd_size),
            eocd_lem count cd_size cd_offset,
          )
          refl
    of_cases false = eocd_lem count cd_size cd_offset
