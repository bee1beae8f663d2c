-- ===== src/Upload/Policy.antt =====
-- src/lib/upload-policy.ts: which files are accepted, and how a file is cut into parts. A size is a
-- whole number of bytes, and quotients are exact.
pub mod Parts
pub mod Accepted
use localchune.Common.{
  ℕ, zero, suc, ◌+◌, ◌-◌, ◌*◌, ◌/◌, ◌%◌, ◌^◌, ◌≤◌, ◌<◌, min, max, String, ◌≡◌, refl, sym, ap, subst,
  ◌∙◌, ◌≡⟨◌⟩◌, ◌∎, ◌≢◌, ◌↔◌, ◌⊎◌, inl, inr, Bool, true, false, not, ◌&&◌, ◌||◌, Option, none, some,
  List, [], ◌∷◌, ◌++◌, map, arith, dec_lt, dec_le, ℕ_discrete, ltb, leb, ◌==◌, if◌then◌else◌,
  Bool-cases, Option-cases, dec_str, same, length, get_elem?, take, drop, keep, find_index,
  remove_at, insert_at, set, length-append, length-take, length-drop, take_of_length-le,
  length-keep-le, length-map, All, All-append, All-take, All-drop, All-keep, has, has-append,
  has_self, Uniq, Uniq-append, unique_by, has-take, has-of_take, has-drop, has-keep, Uniq-take,
  Uniq-drop, Uniq-keep, has-keep-not, unique_by-fresh, unique_by-Uniq, has-unique_by, has-drop-suc,
  has-remove_at, has-at, Uniq-remove_at, has-of_unique_by, All-of_has,
}
use Prim.Native.Char.{Char, code}
use Prim.Native.String
use localchune.Queue.Camelot.{codes}

abbrev pub max_duration_ms : ℕ
max_duration_ms = 900000

abbrev pub mib : ℕ
mib = 1024 * 1024

abbrev pub multipart_threshold_bytes : ℕ
multipart_threshold_bytes = 48 * 1024 * 1024

abbrev pub part_size_bytes : ℕ
part_size_bytes = 16 * 1024 * 1024

abbrev pub max_parts : ℕ
max_parts = 10000

pub data Container : Type 0 where
  mp3 flac wav aiff m4a ogg opus : Container

-- What `EXTENSIONS[…]` gives: a container, or what the table inherits from `Object.prototype`.
pub data Found : Type 0 where
  container : Container → Found
  inherited : Found

abbrev pub max_kbps : Container → ℕ
max_kbps mp3 = 320
max_kbps m4a = 512
max_kbps ogg = 512
max_kbps opus = 512
max_kbps _ = 4608

-- The table, with the inherited names that have no capital.
abbrev pub extensions : List (String × Found)
extensions =
    ("mp3", container mp3)
    ∷ ("flac", container flac)
    ∷ ("wav", container wav)
    ∷ ("wave", container wav)
    ∷ ("aiff", container aiff)
    ∷ ("aif", container aiff)
    ∷ ("aifc", container aiff)
    ∷ ("m4a", container m4a)
    ∷ ("mp4", container m4a)
    ∷ ("ogg", container ogg)
    ∷ ("oga", container ogg)
    ∷ ("opus", container opus)
    ∷ ("constructor", inherited)
    ∷ ("__proto__", inherited)
    ∷ []

-- `toLowerCase` on the characters that the table's names are made of.
abbrev pub to_lower : ℕ → ℕ
to_lower c = if leb b'A' c && leb c b'Z' then c + 32 else c

abbrev pub same_codes : List ℕ → List ℕ → Bool
same_codes [] [] = true
same_codes (x ∷ xs) (y ∷ ys) = x == y && same_codes xs ys
same_codes _ _ = false

unfoldable pub find_extension : List ℕ → List (String × Found) → Option Found
find_extension ext [] = none
find_extension ext ((name, found) ∷ rest) =
    if same_codes ext (codes name) then some found else find_extension ext rest

-- The last dot of a name: its place, and what stands behind it.
unfoldable pub last_dot : ℕ → List ℕ → Option (ℕ × List ℕ)
last_dot i [] = none
last_dot i (c ∷ cs) = elim (last_dot (suc i) cs) [
  | some found ↦ some found
  | none ↦ if c == b'.' then some (i, cs) else none
]

abbrev pub extension_at : Option (ℕ × List ℕ) → Option Found
extension_at none = none
extension_at (some (zero, ext)) = none
extension_at (some (suc i, [])) = none
extension_at (some (suc i, c ∷ cs)) = find_extension (map to_lower (c ∷ cs)) extensions

unfoldable pub container_from_filename : String → Option Found
container_from_filename name = extension_at (last_dot 0 (codes name))

abbrev pub ceil_div : ℕ → ℕ → ℕ
ceil_div n d = (n + (d - 1)) / d

-- `none` is NaN, which `MAX_KBPS` gives for what is no container.
unfoldable pub max_bytes_for : Found → Option ℕ
max_bytes_for (container c) = some (ceil_div (max_duration_ms * max_kbps c / 8 * 11) 10)
max_bytes_for inherited = none

unfoldable pub part_size_for : ℕ → ℕ
part_size_for byte_size =
    if leb (ceil_div byte_size part_size_bytes) max_parts
    then part_size_bytes
    else ceil_div byte_size (max_parts * mib) * mib

pub data UploadPlan : Type 0 where
  single : UploadPlan
  multipart : (part_size part_count : ℕ) → UploadPlan

unfoldable pub plan_upload : ℕ → UploadPlan
plan_upload byte_size =
    if ltb byte_size multipart_threshold_bytes
    then UploadPlan.single
    else UploadPlan.multipart (part_size_for byte_size)
        (ceil_div byte_size (part_size_for byte_size))

pub record Range : Type 0 where
  pub start : ℕ
  pub end : ℕ

-- `none` throws.
unfoldable pub part_range : ℕ → ℕ → ℕ → Option Range
part_range zero part_size byte_size = none
part_range (suc k) part_size byte_size =
    let start = k * part_size in
    if leb byte_size start
    then none
    else some (record { start = start; end = min (start + part_size) byte_size })

pub data PreflightReason : Type 0 where
  unsupported_container too_long too_large empty : PreflightReason

pub data PreflightVerdict : Type 0 where
  accepted : Found → UploadPlan → PreflightVerdict
  rejected : PreflightReason → PreflightVerdict

abbrev pub above : ℕ → Option ℕ → Bool
above n none = false
above n (some m) = ltb m n

abbrev pub is_too_long : Option ℕ → Bool
is_too_long none = false
is_too_long (some d) = ltb max_duration_ms d

abbrev pub judge : Found → ℕ → Option ℕ → PreflightVerdict
judge found byte_size duration =
    if byte_size == 0
    then rejected empty
    else if is_too_long duration
    then rejected too_long
    else if above byte_size (max_bytes_for found)
    then rejected too_large
    else accepted found (plan_upload byte_size)

unfoldable pub preflight : String → ℕ → Option ℕ → PreflightVerdict
preflight filename byte_size duration = elim (container_from_filename filename) [
  | none ↦ rejected unsupported_container
  | some found ↦ judge found byte_size duration
]
