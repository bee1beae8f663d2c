-- ===== src/Archive/Plan.antt =====
-- src/lib/crate-zip.ts: the plan of an archive, or why there is none.
pub mod Limits
use localchune.Archive.Names.{
  sanitize_segment, or_nothing, dedupe_name, cap_utf8_bytes, or_fallback, TextHost,
}
use localchune.Common.{
  ℕ, zero, suc, ◌+◌, ◌-◌, ◌*◌, ◌/◌, ◌%◌, ◌^◌, ◌≤◌, ◌<◌, min, max, String, ◌≡◌, refl, sym, ap, subst,
  ◌∙◌, ◌≡⟨◌⟩◌, ◌∎, ◌≢◌, ◌↔◌, ◌⊎◌, inl, inr, Bool, true, false, not, ◌&&◌, ◌||◌, Option, none, some,
  List, [], ◌∷◌, ◌++◌, map, arith, dec_lt, dec_le, ℕ_discrete, ltb, leb, ◌==◌, if◌then◌else◌,
  Bool-cases, Option-cases, dec_str, same, length, get_elem?, take, drop, keep, find_index,
  remove_at, insert_at, set, length-append, length-take, length-drop, take_of_length-le,
  length-keep-le, length-map, All, All-append, All-take, All-drop, All-keep, has, has-append,
  has_self, Uniq, Uniq-append, unique_by, has-take, has-of_take, has-drop, has-keep, Uniq-take,
  Uniq-drop, Uniq-keep, has-keep-not, unique_by-fresh, unique_by-Uniq, has-unique_by, has-drop-suc,
  has-remove_at, has-at, Uniq-remove_at, has-of_unique_by, All-of_has,
}
use localchune.Queue.Camelot.{codes}
use localchune.Upload.Policy.{last_dot}
use localchune.Queue.Drawer.Lines.{decimal, text_of}

abbrev pub max_crate_download_tracks : ℕ
max_crate_download_tracks = 200

abbrev pub max_crate_download_bytes : ℕ
max_crate_download_bytes = 6 * 1024 * 1024 * 1024

abbrev pub max_entry_name_bytes : ℕ
max_entry_name_bytes = 120

abbrev pub max_archive_name_bytes : ℕ
max_archive_name_bytes = 100

-- A row; a size below 0 counts as 0, as `Math.max` has it, and so does null.
pub record CrateZipRow : Type 0 where
  pub file_id : String
  pub r2_key : Option String
  pub original_filename : Option (List ℕ)
  pub display_artist : Option (List ℕ)
  pub display_title : Option (List ℕ)
  pub container : Option (List ℕ)
  pub byte_size : Option ℕ

pub record CrateZipEntry : Type 0 where
  pub file_id : String
  pub r2_key : String
  pub name : List ℕ
  pub byte_size : ℕ

pub data Refusal : Type 0 where
  empty_crate : Refusal
  too_many_tracks : ℕ → Refusal
  too_large : ℕ → Refusal

pub data CrateZipPlan : Type 0 where
  accepted : List CrateZipEntry → ℕ → List ℕ → CrateZipPlan
  refused : Refusal → CrateZipPlan

-- `.replace(/[^a-z0-9]/g, '')`.
unfoldable pub is_plain : ℕ → Bool
is_plain c = (leb b'a' c && leb c b'z') || (leb b'0' c && leb c b'9')

unfoldable pub is_extension : List ℕ → Bool
is_extension ext = leb 2 (length ext) && leb (length ext) 5

unfoldable pub plain_of : TextHost → List ℕ → List ℕ
plain_of host s = keep is_plain (host.lower s)

unfoldable pub after_dot : TextHost → Option (ℕ × List ℕ) → List ℕ
after_dot host none = codes "bin"
after_dot host (some (zero, ext)) = codes "bin"
after_dot host (some (suc i, ext)) =
    let plain = plain_of host ext in if is_extension plain then plain else codes "bin"

unfoldable pub entry_extension : TextHost → CrateZipRow → List ℕ
entry_extension host row =
    let from_container = plain_of host (or_nothing row.container) in
    if is_extension from_container
    then from_container
    else after_dot host (last_dot 0 (or_nothing row.original_filename))

-- `padStart(width, '0')`.
unfoldable pub zero_digits : ℕ → List ℕ
zero_digits zero = []
zero_digits (suc n) = b'0' ∷ zero_digits n

unfoldable pub pad_start : ℕ → List ℕ → List ℕ
pad_start width s = zero_digits (width - length s) ++ s

-- `.replace(/\.[^.]*$/, '')`.
unfoldable pub without_extension : List ℕ → Option (ℕ × List ℕ) → List ℕ
without_extension name none = name
without_extension name (some (i, ext)) = take i name

-- `a || b` on a text that may be null.
unfoldable pub or_text : Option (List ℕ) → List ℕ → List ℕ
or_text none t = t
or_text (some s) t = or_fallback t s

unfoldable pub crate_entry_name : TextHost → CrateZipRow → ℕ → ℕ → List ℕ
crate_entry_name host row index total =
    let width = max 2 (length (codes (decimal total))) in
    let number = pad_start width (codes (decimal (index + 1))) in
    let artist = sanitize_segment host row.display_artist (codes "Unknown Artist") in
    let file = or_nothing row.original_filename in
    let shown = or_text row.display_title (without_extension file (last_dot 0 file)) in
    let title = sanitize_segment host (some shown) (codes "Untitled") in
    let ext = entry_extension host row in
    let stem = number ++ (codes " - " ++ (artist ++ (codes " - " ++ title))) in
    cap_utf8_bytes stem (max_entry_name_bytes - length ext - 1) ++ (b'.' ∷ ext)

unfoldable pub crate_archive_name : TextHost → Option (List ℕ) → List ℕ
crate_archive_name host name =
    cap_utf8_bytes (sanitize_segment host name (codes "crate")) max_archive_name_bytes
    ++ codes ".zip"

-- `!!r.r2_key`: neither null nor empty.
unfoldable pub has_key : CrateZipRow → Bool
has_key row = elim row.r2_key [ none ↦ false | some key ↦ not (same key "") ]

unfoldable pub or_no_bytes : Option ℕ → ℕ
or_no_bytes none = 0
or_no_bytes (some n) = n

unfoldable pub sum_bytes : List CrateZipRow → ℕ
sum_bytes [] = 0
sum_bytes (r ∷ rs) = or_no_bytes r.byte_size + sum_bytes rs

unfoldable pub key_text : Option String → String
key_text none = ""
key_text (some key) = key

-- The entries, from the index and the keys that `dedupeName` has seen.
unfoldable pub plan_entries :
    TextHost → ℕ → ℕ → List (List ℕ) → List CrateZipRow → List CrateZipEntry
plan_entries host total index seen [] = []
plan_entries host total index seen (row ∷ rows) =
    let name = dedupe_name host (crate_entry_name host row index total) seen in
    record {
      file_id = row.file_id;
      r2_key = key_text row.r2_key;
      name = name;
      byte_size = or_no_bytes row.byte_size;
    }
    ∷ plan_entries host total (suc index) (host.lower name ∷ seen) rows

unfoldable pub plan_crate_zip : TextHost → List CrateZipRow → Option (List ℕ) → CrateZipPlan
plan_crate_zip host rows crate_name =
    let usable = keep has_key rows in
    let total = sum_bytes usable in
    if length usable == 0
    then refused empty_crate
    else if ltb max_crate_download_tracks (length usable)
    then refused (too_many_tracks (length usable))
    else if ltb max_crate_download_bytes total
    then refused (too_large total)
    else accepted (plan_entries host (length usable) 0 [] usable) total
        (crate_archive_name host crate_name)
