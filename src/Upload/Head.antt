-- ===== src/Upload/Head.antt =====
-- src/lib/head-check.ts: the check of the first bytes of a file against its extension. A byte is a number
-- below 256.
pub mod Flac
mod Rounds
use localchune.Common.{
  ℕ, zero, suc, ◌+◌, ◌-◌, ◌*◌, ◌/◌, ◌%◌, ◌^◌, ◌≤◌, ◌<◌, min, max, String, ◌≡◌, refl, sym, ap, subst,
  ◌∙◌, ◌≡⟨◌⟩◌, ◌∎, ◌≢◌, ◌↔◌, ◌⊎◌, inl, inr, Bool, true, false, not, ◌&&◌, ◌||◌, Option, none, some,
  List, [], ◌∷◌, ◌++◌, map, arith, dec_lt, dec_le, ℕ_discrete, ltb, leb, ◌==◌, if◌then◌else◌,
  Bool-cases, Option-cases, dec_str, same, length, get_elem?, take, drop, keep, find_index,
  remove_at, insert_at, set, length-append, length-take, length-drop, take_of_length-le,
  length-keep-le, length-map, All, All-append, All-take, All-drop, All-keep, has, has-append,
  has_self, Uniq, Uniq-append, unique_by, has-take, has-of_take, has-drop, has-keep, Uniq-take,
  Uniq-drop, Uniq-keep, has-keep-not, unique_by-fresh, unique_by-Uniq, has-unique_by, has-drop-suc,
  has-remove_at, has-at, Uniq-remove_at, has-of_unique_by, All-of_has,
}
use Prim.Native.Nat.{bit_and}
use Prim.Native.Char.{Char, code}
use Prim.Native.String
use localchune.Queue.Camelot.{codes}
use localchune.Upload.Policy.{to_lower, same_codes, last_dot}

abbrev pub head_check_bytes : ℕ
head_check_bytes = 16 * 1024

pub data HeadReason : Type 0 where
  zero_head magic_mismatch : HeadReason

pub data HeadCheck : Type 0 where
  ok : HeadCheck
  refused : HeadReason → HeadCheck

pub data Family : Type 0 where
  flac mp3 riff aiff isobmff ogg : Family

-- What `FAMILY[…]` gives: a family, or what the table inherits from `Object.prototype`.
pub data Listed : Type 0 where
  family : Family → Listed
  inherited : Listed

-- The table, with the inherited names that have no capital.
abbrev pub families : List (String × Listed)
families =
    ("flac", family flac)
    ∷ ("mp3", family mp3)
    ∷ ("wav", family riff)
    ∷ ("wave", family riff)
    ∷ ("aiff", family aiff)
    ∷ ("aif", family aiff)
    ∷ ("aifc", family aiff)
    ∷ ("m4a", family isobmff)
    ∷ ("mp4", family isobmff)
    ∷ ("mov", family isobmff)
    ∷ ("ogg", family ogg)
    ∷ ("oga", family ogg)
    ∷ ("opus", family ogg)
    ∷ ("constructor", inherited)
    ∷ ("__proto__", inherited)
    ∷ []

unfoldable pub find_family : List ℕ → List (String × Listed) → Option Listed
find_family ext [] = none
find_family ext ((name, found) ∷ rest) =
    if same_codes ext (codes name) then some found else find_family ext rest

unfoldable pub family_of : Option (List ℕ) → Option Listed
family_of none = none
family_of (some ext) = find_family ext families

unfoldable pub extension_after : Option (ℕ × List ℕ) → Option (List ℕ)
extension_after none = none
extension_after (some (zero, ext)) = none
extension_after (some (suc i, [])) = none
extension_after (some (suc i, c ∷ cs)) = some (map to_lower (c ∷ cs))

unfoldable pub extension_of : String → Option (List ℕ)
extension_of name = extension_after (last_dot 0 (codes name))

-- `matchesAt`, on what the head has from the offset on.
unfoldable pub starts_with : List ℕ → List ℕ → Bool
starts_with [] head = true
starts_with (x ∷ ascii) [] = false
starts_with (x ∷ ascii) (y ∷ head) = y == x && starts_with ascii head

unfoldable pub all_zeros : List ℕ → Bool
all_zeros [] = true
all_zeros (b ∷ bs) = b == 0 && all_zeros bs

abbrev pub id3 : List ℕ
id3 = b'I' ∷ b'D' ∷ b'3' ∷ []

abbrev pub flac_magic : List ℕ
flac_magic = b'f' ∷ b'L' ∷ b'a' ∷ b'C' ∷ []

-- Whether a byte of the size of a tag has its top bit set.
unfoldable pub has_top_bit : List ℕ → Bool
has_top_bit [] = false
has_top_bit (b ∷ bs) = leb 0x80 b || has_top_bit bs

-- `size`; the bits of bytes below 128 do not overlap.
abbrev pub syncsafe : ℕ → ℕ → ℕ → ℕ → ℕ
syncsafe s0 s1 s2 s3 = s0 * 2 ^ 21 + s1 * 2 ^ 14 + s2 * 2 ^ 7 + s3

abbrev pub footer : ℕ → ℕ
footer flags = if bit_and flags 0x10 == 0 then 0 else 10

-- By how much the offset grows at a tag of 10 bytes or more.
unfoldable pub tag_length : List ℕ → ℕ
tag_length (i ∷ d ∷ t ∷ major ∷ minor ∷ flags ∷ s0 ∷ s1 ∷ s2 ∷ s3 ∷ rest) =
    10 + syncsafe s0 s1 s2 s3 + footer flags
tag_length _ = 10

-- The `while` of `skipId3v2`, on what the head has from the offset on, for so many rounds at most.
unfoldable pub skip_tags : ℕ → List ℕ → Option (List ℕ)
skip_tags zero head = some head
skip_tags (suc n) head =
    let next = skip_tags n (drop (tag_length head) head) in
    if not (starts_with id3 head)
    then some head
    else if ltb (length head) 10
    then none
    else if has_top_bit (take 4 (drop 6 head))
    then none
    else if ltb (length head) (tag_length head)
    then none
    else next

-- Each round takes 10 bytes or more.
unfoldable pub skip_id3v2 : List ℕ → Option (List ℕ)
skip_id3v2 head = skip_tags (length head) head

unfoldable pub has_mp3_frame_sync : List ℕ → Bool
has_mp3_frame_sync (a ∷ b ∷ rest) =
    (a == 0xff && bit_and b 0xe0 == 0xe0) || has_mp3_frame_sync (b ∷ rest)
has_mp3_frame_sync _ = false

-- `ftyp` at one of so many offsets.
unfoldable pub ftyp_within : ℕ → List ℕ → Bool
ftyp_within zero head = false
ftyp_within (suc n) head =
    starts_with (b'f' ∷ b't' ∷ b'y' ∷ b'p' ∷ []) head || ftyp_within n (drop 1 head)

unfoldable pub has_ftyp : List ℕ → Bool
has_ftyp head = ftyp_within (min 65 (length head - 3)) head

abbrev pub magic : Bool → HeadCheck
magic found = if found then ok else refused magic_mismatch

unfoldable pub check_flac : Option (List ℕ) → HeadCheck
check_flac none = ok
check_flac (some start) = if ltb (length start) 4 then ok else magic (starts_with flac_magic start)

-- The `switch`; `none` is undefined, when no case is taken.
unfoldable pub check_family : Listed → List ℕ → Option HeadCheck
check_family (family flac) head = some (check_flac (skip_id3v2 head))
check_family (family mp3) head = some (magic (starts_with id3 head || has_mp3_frame_sync head))
check_family (family riff) head = some (
    magic (
      starts_with (b'R' ∷ b'I' ∷ b'F' ∷ b'F' ∷ []) head
      || starts_with (b'R' ∷ b'F' ∷ b'6' ∷ b'4' ∷ []) head))
check_family (family aiff) head = some (magic (starts_with (b'F' ∷ b'O' ∷ b'R' ∷ b'M' ∷ []) head))
check_family (family isobmff) head = some (magic (has_ftyp head))
check_family (family ogg) head = some ok
check_family inherited head = none

unfoldable pub check_listed : Option Listed → List ℕ → Option HeadCheck
check_listed none head = some ok
check_listed (some found) head =
    if length head == 0
    then some ok
    else if all_zeros head
    then some (refused zero_head)
    else check_family found head

unfoldable pub check_head : Option (List ℕ) → List ℕ → Option HeadCheck
check_head extension head = check_listed (family_of extension) head

-- A blob that cannot be read is `none`.
unfoldable pub check_blob_head : String → Option (List ℕ) → Option HeadCheck
check_blob_head name none = some ok
check_blob_head name (some bytes) = check_head (extension_of name) (take head_check_bytes bytes)
