-- ===== src/Archive/Headers.antt =====
-- src/lib/zip.ts: the records of the format, from the local header to the end of the directory.
pub mod Sizes
use localchune.Archive.Crc.{u32_max}
use Prim.Native.Nat.{bit_or}
use localchune.Common.{
  ℕ, zero, suc, ◌+◌, ◌-◌, ◌*◌, ◌/◌, ◌%◌, ◌^◌, ◌≤◌, ◌<◌, min, max, String, ◌≡◌, refl, sym, ap, subst,
  ◌∙◌, ◌≡⟨◌⟩◌, ◌∎, ◌≢◌, ◌↔◌, ◌⊎◌, inl, inr, Bool, true, false, not, ◌&&◌, ◌||◌, Option, none, some,
  List, [], ◌∷◌, ◌++◌, map, arith, dec_lt, dec_le, ℕ_discrete, ltb, leb, ◌==◌, if◌then◌else◌,
  Bool-cases, Option-cases, dec_str, same, length, get_elem?, take, drop, keep, find_index,
  remove_at, insert_at, set, length-append, length-take, length-drop, take_of_length-le,
  length-keep-le, length-map, All, All-append, All-take, All-drop, All-keep, has, has-append,
  has_self, Uniq, Uniq-append, unique_by, has-take, has-of_take, has-drop, has-keep, Uniq-take,
  Uniq-drop, Uniq-keep, has-keep-not, unique_by-fresh, unique_by-Uniq, has-unique_by, has-drop-suc,
  has-remove_at, has-at, Uniq-remove_at, has-of_unique_by, All-of_has,
}
use localchune.Archive.Bytes.{Field, u16, u32, u64, raw, pack}

abbrev pub u16_max : ℕ
u16_max = 0xffff

-- What a UTC date gives to `dosDateTime`; the month counts from 0.
pub record UtcDate : Type 0 where
  pub year : ℕ
  pub month : ℕ
  pub day : ℕ
  pub hours : ℕ
  pub minutes : ℕ
  pub seconds : ℕ

unfoldable pub dos_time : UtcDate → ℕ
dos_time d =
    if ltb d.year 1980
    then 0
    else bit_or (bit_or (d.hours * 2 ^ 11) (d.minutes * 2 ^ 5)) (d.seconds / 2)

unfoldable pub dos_date : UtcDate → ℕ
dos_date d =
    if ltb d.year 1980
    then bit_or (1 * 2 ^ 5) 1
    else bit_or (bit_or ((d.year - 1980) * 2 ^ 9) ((d.month + 1) * 2 ^ 5)) d.day

pub record CentralRecord : Type 0 where
  pub name : List ℕ
  pub crc : ℕ
  pub size : ℕ
  pub offset : ℕ
  pub time : ℕ
  pub date : ℕ
  pub zip64 : Bool

abbrev pub flags : ℕ
flags = bit_or 0x0008 0x0800

abbrev pub version_base : ℕ
version_base = 20

abbrev pub version_zip64 : ℕ
version_zip64 = 45

abbrev pub made_by_unix : ℕ
made_by_unix = 3 * 2 ^ 8

-- `0o100644 << 16`, of which `u32` takes the unsigned word.
abbrev pub external_attrs_file : ℕ
external_attrs_file = 33188 * 2 ^ 16

unfoldable pub local_zip64_extra : Option (List ℕ)
local_zip64_extra = pack 20 (u16 0x0001 ∷ u16 16 ∷ u64 0 ∷ u64 0 ∷ [])

-- The calls of `localHeader`, for the extra field that it has.
unfoldable pub local_fields : List ℕ → ℕ → ℕ → Bool → List ℕ → List Field
local_fields name time date zip64 extra =
    u32 0x04034b50
    ∷ u16 (if zip64 then version_zip64 else version_base)
    ∷ u16 flags
    ∷ u16 0
    ∷ u16 time
    ∷ u16 date
    ∷ u32 0
    ∷ u32 0
    ∷ u32 0
    ∷ u16 (length name)
    ∷ u16 (length extra)
    ∷ raw name
    ∷ raw extra
    ∷ []

unfoldable pub with_extra : List ℕ → ℕ → ℕ → Bool → Option (List ℕ) → Option (List ℕ)
with_extra name time date zip64 none = none
with_extra name time date zip64 (some extra) =
    pack (30 + length name + length extra) (local_fields name time date zip64 extra)

unfoldable pub local_header : List ℕ → ℕ → ℕ → Bool → Option (List ℕ)
local_header name time date zip64 =
    with_extra name time date zip64 (if zip64 then local_zip64_extra else some [])

unfoldable pub descriptor_fields : ℕ → ℕ → Bool → List Field
descriptor_fields crc size zip64 =
    u32 0x08074b50
    ∷ u32 crc
    ∷ (if zip64 then u64 size ∷ u64 size ∷ [] else u32 size ∷ u32 size ∷ [])

unfoldable pub data_descriptor : ℕ → ℕ → Bool → Option (List ℕ)
data_descriptor crc size zip64 = pack (if zip64 then 24 else 16) (descriptor_fields crc size zip64)

-- `bigSize`, `bigOffset`, `needs64` and `extraLen`.
unfoldable pub big_size : CentralRecord → Bool
big_size r = r.zip64 || ltb u32_max r.size

unfoldable pub big_offset : CentralRecord → Bool
big_offset r = ltb u32_max r.offset

unfoldable pub needs64 : CentralRecord → Bool
needs64 r = big_size r || big_offset r

unfoldable pub extra_len : Bool → Bool → ℕ
extra_len size64 offset64 =
    if size64 || offset64 then 4 + (if size64 then 16 else 0) + (if offset64 then 8 else 0) else 0

unfoldable pub extra_fields : Bool → Bool → CentralRecord → List Field
extra_fields size64 offset64 r =
    if size64 || offset64
    then u16 0x0001
      ∷ u16 (extra_len size64 offset64 - 4)
      ∷ ((if size64 then u64 r.size ∷ u64 r.size ∷ [] else [])
          ++ (if offset64 then u64 r.offset ∷ [] else []))
    else []

-- The calls of `centralHeader`.
unfoldable pub central_fields : CentralRecord → List Field
central_fields r =
    u32 0x02014b50
    ∷ u16 (bit_or made_by_unix (if needs64 r then version_zip64 else version_base))
    ∷ u16 (if needs64 r || r.zip64 then version_zip64 else version_base)
    ∷ u16 flags
    ∷ u16 0
    ∷ u16 r.time
    ∷ u16 r.date
    ∷ u32 r.crc
    ∷ u32 (if big_size r then u32_max else r.size)
    ∷ u32 (if big_size r then u32_max else r.size)
    ∷ u16 (length r.name)
    ∷ u16 (extra_len (big_size r) (big_offset r))
    ∷ u16 0
    ∷ u16 0
    ∷ u16 0
    ∷ u32 external_attrs_file
    ∷ u32 (if big_offset r then u32_max else r.offset)
    ∷ raw r.name
    ∷ extra_fields (big_size r) (big_offset r) r

unfoldable pub central_header : CentralRecord → Option (List ℕ)
central_header r =
    pack (46 + length r.name + extra_len (big_size r) (big_offset r)) (central_fields r)

-- The three records of `endOfCentralDirectory`.
unfoldable pub eocd_fields : ℕ → ℕ → ℕ → List Field
eocd_fields count cd_size cd_offset =
    u32 0x06054b50
    ∷ u16 0
    ∷ u16 0
    ∷ u16 (if ltb u16_max count then u16_max else count)
    ∷ u16 (if ltb u16_max count then u16_max else count)
    ∷ u32 (if ltb u32_max cd_size then u32_max else cd_size)
    ∷ u32 (if ltb u32_max cd_offset then u32_max else cd_offset)
    ∷ u16 0
    ∷ []

unfoldable pub eocd64_fields : ℕ → ℕ → ℕ → List Field
eocd64_fields count cd_size cd_offset =
    u32 0x06064b50
    ∷ u64 44
    ∷ u16 (bit_or made_by_unix version_zip64)
    ∷ u16 version_zip64
    ∷ u32 0
    ∷ u32 0
    ∷ u64 count
    ∷ u64 count
    ∷ u64 cd_size
    ∷ u64 cd_offset
    ∷ []

unfoldable pub locator_fields : ℕ → List Field
locator_fields eocd64_offset = u32 0x07064b50 ∷ u32 0 ∷ u64 eocd64_offset ∷ u32 1 ∷ []

-- `out.set(…)` of the records one behind the other, when none of them threw.
unfoldable pub joined : Option (List ℕ) → Option (List ℕ) → Option (List ℕ)
joined none q = none
joined (some bytes) none = none
joined (some bytes) (some more) = some (bytes ++ more)

unfoldable pub end_of_central_directory : ℕ → ℕ → ℕ → Bool → Option (List ℕ)
end_of_central_directory count cd_size cd_offset any_zip64 =
    let eocd = pack 22 (eocd_fields count cd_size cd_offset) in
    let rec64 = pack 56 (eocd64_fields count cd_size cd_offset) in
    let locator = pack 20 (locator_fields (cd_offset + cd_size)) in
    if not (any_zip64 || ltb u16_max count || ltb u32_max cd_size || ltb u32_max cd_offset)
    then eocd
    else joined rec64 (joined locator eocd)
