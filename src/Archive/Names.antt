-- ===== src/Archive/Names.antt =====
-- src/lib/zip.ts: entry names. A text is the list of its code points.
pub mod Safe
pub mod Sized
pub mod Fresh
pub mod Numbered
use localchune.Queue.Drawer.Lines.{decimal}
use localchune.Common.{
  ℕ, zero, suc, ◌+◌, ◌-◌, ◌*◌, ◌/◌, ◌%◌, ◌^◌, ◌≤◌, ◌<◌, min, max, String, ◌≡◌, refl, sym, ap, subst,
  ◌∙◌, ◌≡⟨◌⟩◌, ◌∎, ◌≢◌, ◌↔◌, ◌⊎◌, inl, inr, Bool, true, false, not, ◌&&◌, ◌||◌, Option, none, some,
  List, [], ◌∷◌, ◌++◌, map, arith, dec_lt, dec_le, ℕ_discrete, ltb, leb, ◌==◌, if◌then◌else◌,
  Bool-cases, Option-cases, dec_str, same, length, get_elem?, take, drop, keep, find_index,
  remove_at, insert_at, set, length-append, length-take, length-drop, take_of_length-le,
  length-keep-le, length-map, All, All-append, All-take, All-drop, All-keep, has, has-append,
  has_self, Uniq, Uniq-append, unique_by, has-take, has-of_take, has-drop, has-keep, Uniq-take,
  Uniq-drop, Uniq-keep, has-keep-not, unique_by-fresh, unique_by-Uniq, has-unique_by, has-drop-suc,
  has-remove_at, has-at, Uniq-remove_at, has-of_unique_by, All-of_has,
}
use localchune.Queue.Camelot.{codes, is_space, trim_start, trim_end, to_upper}
use localchune.Upload.Policy.{last_dot, same_codes}

-- What the platform gives: `normalize('NFC')`, `toLowerCase` and `Date.now()`.
pub record TextHost : Type 0 where
  pub nfc : List ℕ → List ℕ
  pub lower : List ℕ → List ℕ
  pub clock : ℕ

-- `ILLEGAL_SEGMENT`.
unfoldable pub is_illegal : ℕ → Bool
is_illegal c =
    leb c 31
    || c == 127
    || c == b'/'
    || c == 92
    || c == b':'
    || c == b'*'
    || c == b'?'
    || c == 34
    || c == b'<'
    || c == b'>'
    || c == b'|'

unfoldable pub legal_char : ℕ → ℕ
legal_char c = if is_illegal c then b'_' else c

-- `.replace(/\s+/g, ' ')`: behind a space, the others are skipped.
unfoldable pub collapse : Bool → List ℕ → List ℕ
collapse inside [] = []
collapse inside (c ∷ cs) =
    let more = collapse true cs in
    let rest = collapse false cs in
    if is_space c then (if inside then more else 32 ∷ more) else c ∷ rest

-- `.replace(/^\.+/, '')`.
unfoldable pub drop_dots : List ℕ → List ℕ
drop_dots [] = []
drop_dots (c ∷ cs) = let rest = drop_dots cs in if c == b'.' then rest else c ∷ cs

-- `.replace(/[. ]+$/, '')`.
unfoldable pub is_tail : ℕ → Bool
is_tail c = c == b'.' || c == 32

abbrev pub unless_tail : ℕ → List ℕ → List ℕ
unless_tail c [] = if is_tail c then [] else c ∷ []
unless_tail c (d ∷ ds) = c ∷ d ∷ ds

unfoldable pub strip_tail : List ℕ → List ℕ
strip_tail [] = []
strip_tail (c ∷ cs) = unless_tail c (strip_tail cs)

-- `DOS_DEVICE`, for a text in upper case.
abbrev pub dos_devices : List String
dos_devices =
    "CON" ∷ "PRN" ∷ "AUX" ∷ "NUL" ∷ "COM1" ∷ "COM2" ∷ "COM3" ∷ "COM4" ∷ "COM5" ∷ "COM6" ∷ "COM7"
    ∷ "COM8" ∷ "COM9" ∷ "LPT1" ∷ "LPT2" ∷ "LPT3" ∷ "LPT4" ∷ "LPT5" ∷ "LPT6" ∷ "LPT7" ∷ "LPT8"
    ∷ "LPT9" ∷ []

unfoldable pub is_among : List ℕ → List String → Bool
is_among s [] = false
is_among s (t ∷ ts) = same_codes s (codes t) || is_among s ts

unfoldable pub is_device : List ℕ → Bool
is_device s = is_among (map to_upper s) dos_devices

unfoldable pub or_fallback : List ℕ → List ℕ → List ℕ
or_fallback fallback [] = fallback
or_fallback fallback (c ∷ cs) = c ∷ cs

unfoldable pub guard_device : List ℕ → List ℕ
guard_device s = if is_device s then b'_' ∷ s else s

unfoldable pub or_nothing : Option (List ℕ) → List ℕ
or_nothing none = []
or_nothing (some s) = s

unfoldable pub sanitize_segment : TextHost → Option (List ℕ) → List ℕ → List ℕ
sanitize_segment host raw fallback =
    let legal = map legal_char (host.nfc (or_nothing raw)) in
    let spaced = trim_end (trim_start (collapse false legal)) in
    or_fallback fallback (guard_device (strip_tail (drop_dots spaced)))

-- The bytes of a code point, and of a text, in UTF-8; a lone surrogate is encoded as U+FFFD.
unfoldable pub utf8_size : ℕ → ℕ
utf8_size c = if ltb c 128 then 1 else if ltb c 2048 then 2 else if ltb c 65536 then 3 else 4

unfoldable pub utf8_length : List ℕ → ℕ
utf8_length [] = 0
utf8_length (c ∷ cs) = utf8_size c + utf8_length cs

-- The loop over the code points, which stops at the first that does not fit.
unfoldable pub take_bytes : ℕ → ℕ → List ℕ → List ℕ
take_bytes max_bytes used [] = []
take_bytes max_bytes used (c ∷ cs) =
    let rest = take_bytes max_bytes (used + utf8_size c) cs in
    if ltb max_bytes (used + utf8_size c) then [] else c ∷ rest

unfoldable pub cap_utf8_bytes : List ℕ → ℕ → List ℕ
cap_utf8_bytes s max_bytes =
    if leb (utf8_length s) max_bytes then s else strip_tail (take_bytes max_bytes 0 s)

unfoldable pub seen_has : List (List ℕ) → List ℕ → Bool
seen_has [] key = false
seen_has (k ∷ ks) key = same_codes k key || seen_has ks key

-- `lastIndexOf('.')` when it is above 0: the stem and the extension with its dot.
unfoldable pub split_at : List ℕ → Option (ℕ × List ℕ) → List ℕ × List ℕ
split_at name none = (name, [])
split_at name (some (zero, ext)) = (name, [])
split_at name (some (suc i, ext)) = (take (suc i) name, drop (suc i) name)

unfoldable pub split_name : List ℕ → List ℕ × List ℕ
split_name name = split_at name (last_dot 0 name)

-- `${stem} (${n})${ext}`.
unfoldable pub numbered_name : List ℕ × List ℕ → ℕ → List ℕ
numbered_name (stem, ext) n = stem ++ (32 ∷ b'(' ∷ (codes (decimal n) ++ (b')' ∷ ext)))

-- The loop over `n`, for the rounds that are left; after it the clock stands in for `n`.
unfoldable pub free_name : TextHost → List (List ℕ) → List ℕ × List ℕ → ℕ → ℕ → List ℕ
free_name host seen parts zero n = numbered_name parts host.clock
free_name host seen parts (suc rounds) n =
    let rest = free_name host seen parts rounds (suc n) in
    if seen_has seen (host.lower (numbered_name parts n)) then rest else numbered_name parts n

unfoldable pub dedupe_name : TextHost → List ℕ → List (List ℕ) → List ℕ
dedupe_name host name seen =
    if not (seen_has seen (host.lower name))
    then name
    else free_name host seen (split_name name) 9998 2
