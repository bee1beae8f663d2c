-- ===== src/Archive/Names/Safe.antt =====
-- Which names src/lib/zip.ts makes: safe segments.
use localchune.Queue.Camelot.{codes, to_upper}
use localchune.Upload.Policy.{same_codes}
use localchune.Archive.Names.{
  dos_devices, or_nothing, guard_device, or_fallback, legal_char, is_among, is_device, TextHost,
  unless_tail, strip_tail, sanitize_segment, is_tail, is_illegal, drop_dots, collapse,
}
use localchune.Queue.Camelot.{is_space, trim_start, trim_end}
use localchune.Common.{
  ℕ, ◌-◌, ◌≤◌, String, ◌≡◌, refl, sym, ap, subst, ◌≢◌, ◌⊎◌, inl, inr, Bool, true, false, ◌&&◌,
  Option, List, [], ◌∷◌, map, arith, leb, ◌==◌, if◌then◌else◌, Bool-cases, All,
}

abbrev pub starts_with_dot : List ℕ → Bool
starts_with_dot [] = false
starts_with_dot (c ∷ cs) = c == b'.'

abbrev pub ends_in_tail : List ℕ → Bool
ends_in_tail [] = false
ends_in_tail (c ∷ []) = is_tail c
ends_in_tail (c ∷ d ∷ ds) = ends_in_tail (d ∷ ds)

-- The tests of the source, all passed.
abbrev pub IsClean : List ℕ → Type 0
IsClean s =
    All (λ c. is_illegal c ≡ false) s
    × (starts_with_dot s ≡ false)
    × (ends_in_tail s ≡ false)
    × (is_device s ≡ false)
    × (s ≢ [])

module _ (P : ℕ → Type 0) where
  All-trim_start : (s : List ℕ) → All P s → All P (trim_start s)
  unfolding trim_start
  All-trim_start [] h = tt
  All-trim_start (c ∷ cs) (p, h) = ground (arith, All-trim_start cs h)

  All-drop_dots : (s : List ℕ) → All P s → All P (drop_dots s)
  unfolding drop_dots
  All-drop_dots [] h = tt
  All-drop_dots (c ∷ cs) (p, h) = ground (arith, All-drop_dots cs h)

  All-unless_tail : (c : ℕ) (s : List ℕ) → P c → All P s → All P (unless_tail c s)
  All-unless_tail c [] p h = ground arith
  All-unless_tail c (d ∷ ds) p h = (p, h)

  All-strip_tail : (s : List ℕ) → All P s → All P (strip_tail s)
  unfolding strip_tail
  All-strip_tail [] h = tt
  All-strip_tail (c ∷ cs) (p, h) = All-unless_tail c (strip_tail cs) p (All-strip_tail cs h)

  All-collapse : P 32 → (inside : Bool) (s : List ℕ) → All P s → All P (collapse inside s)
  unfolding collapse
  All-collapse space inside [] h = tt
  All-collapse space inside (c ∷ cs) (p, h) =
      ground (arith, All-collapse space true cs h, All-collapse space false cs h)

  end_here : (c : ℕ) → P c → All P (if is_space c then [] else c ∷ [])
  end_here c p = ground arith

  All-trim_end : (s : List ℕ) → All P s → All P (trim_end s)
  unfolding trim_end
  All-trim_end [] h = tt
  All-trim_end (c ∷ cs) (p, h) =
      elim (trim_end cs)
          as (λ t.
            All P t
            → All P (elim t as (λ x. List ℕ) [
              | [] ↦ if is_space c then [] else c ∷ []
              | d ∷ ds ↦ c ∷ d ∷ ds
            ])) [ [] ↦ λ k. end_here c p | d ∷ ds ↦ λ k. (p, k) ]
        (All-trim_end cs h)

underscore_legal : is_illegal b'_' ≡ false
unfolding is_illegal
underscore_legal = refl

space_legal : is_illegal 32 ≡ false
unfolding is_illegal
space_legal = refl

legal_char-is_illegal : (c : ℕ) → is_illegal (legal_char c) ≡ false
unfolding legal_char
legal_char-is_illegal c = elim (Bool-cases (is_illegal c)) [
  | inl e ↦ rw e underscore_legal
  | inr e ↦ rw e e
]

All-legal_char : (s : List ℕ) → All (λ c. is_illegal c ≡ false) (map legal_char s)
unfolding legal_char
All-legal_char [] = tt
All-legal_char (c ∷ cs) = (legal_char-is_illegal c, All-legal_char cs)

ends-unless_tail :
    (c : ℕ) (s : List ℕ) → ends_in_tail s ≡ false → ends_in_tail (unless_tail c s) ≡ false
ends-unless_tail c [] h = ground arith
ends-unless_tail c (d ∷ ds) h = h

ends-strip_tail : (s : List ℕ) → ends_in_tail (strip_tail s) ≡ false
unfolding strip_tail
ends-strip_tail [] = refl
ends-strip_tail (c ∷ cs) = ends-unless_tail c (strip_tail cs) (ends-strip_tail cs)

starts-drop_dots : (s : List ℕ) → starts_with_dot (drop_dots s) ≡ false
unfolding drop_dots
starts-drop_dots [] = refl
starts-drop_dots (c ∷ cs) = ground (arith, starts-drop_dots cs)

starts-unless_tail :
    (c : ℕ) (s : List ℕ) → (c == b'.') ≡ false → starts_with_dot (unless_tail c s) ≡ false
starts-unless_tail c [] h = ground arith
starts-unless_tail c (d ∷ ds) h = h

starts-strip_tail :
    (s : List ℕ) → starts_with_dot s ≡ false → starts_with_dot (strip_tail s) ≡ false
unfolding strip_tail
starts-strip_tail [] h = refl
starts-strip_tail (c ∷ cs) h = starts-unless_tail c (strip_tail cs) h

-- An underscore in front keeps a text safe, and no device name begins with one.
underscore-IsClean :
    (s : List ℕ) → All (λ c. is_illegal c ≡ false) s → ends_in_tail s ≡ false → IsClean (b'_' ∷ s)
unfolding is_illegal is_tail is_device is_among
underscore-IsClean [] h e = ((refl, tt), refl, refl, refl, λ p. ground arith)
underscore-IsClean (c ∷ cs) h e = ((refl, h), refl, e, refl, λ p. ground arith)

guarded-IsClean :
    (s fallback : List ℕ)
    → All (λ c. is_illegal c ≡ false) s
    → starts_with_dot s ≡ false
    → ends_in_tail s ≡ false
    → IsClean (or_fallback fallback (guard_device s))
      ⊎ (or_fallback fallback (guard_device s) ≡ fallback)
unfolding or_fallback guard_device
guarded-IsClean s fallback h d e = elim (Bool-cases (is_device s)) [
  | inl device ↦ inl (rw device (underscore-IsClean s h e))
  | inr plain ↦ rw plain (unchanged s h d e plain)
]
  where
    unchanged :
        (s : List ℕ)
        → All (λ c. is_illegal c ≡ false) s
        → starts_with_dot s ≡ false
        → ends_in_tail s ≡ false
        → is_device s ≡ false
        → IsClean (or_fallback fallback s) ⊎ (or_fallback fallback s ≡ fallback)
    unchanged [] h d e plain = inr refl
    unchanged (c ∷ cs) h d e plain = inl (h, d, e, plain, λ p. ground arith)

-- No control character, and none that a path or Windows gives a meaning.
abbrev pub forbidden : List ℕ
forbidden = b'/' ∷ 92 ∷ b':' ∷ b'*' ∷ b'?' ∷ 34 ∷ b'<' ∷ b'>' ∷ b'|' ∷ 127 ∷ []

abbrev pub IsPlain : ℕ → Type 0
IsPlain c = (32 ≤ c) × All (λ d. c ≢ d) forbidden

-- Neither a dot nor a space at the end.
abbrev pub EndsWell : List ℕ → Type 0
EndsWell [] = Unit
EndsWell (c ∷ []) = (c ≢ b'.') × (c ≢ 32)
EndsWell (c ∷ d ∷ ds) = EndsWell (d ∷ ds)

abbrev pub StartsWell : List ℕ → Type 0
StartsWell [] = ⊥
StartsWell (c ∷ cs) = c ≢ b'.'

abbrev pub devices : List String
devices =
    "CON" ∷ "PRN" ∷ "AUX" ∷ "NUL" ∷ "COM1" ∷ "COM2" ∷ "COM3" ∷ "COM4" ∷ "COM5" ∷ "COM6" ∷ "COM7"
    ∷ "COM8" ∷ "COM9" ∷ "LPT1" ∷ "LPT2" ∷ "LPT3" ∷ "LPT4" ∷ "LPT5" ∷ "LPT6" ∷ "LPT7" ∷ "LPT8"
    ∷ "LPT9" ∷ []

abbrev pub capital : ℕ → ℕ
capital c = if leb 97 c && leb c 122 then c - 32 else c

-- A text that can be the name of a file everywhere: not empty, of plain characters, without a dot in
-- front or a dot or space at its end, and no name of a device, in capitals or not.
abbrev pub IsSafe : List ℕ → Type 0
IsSafe s = All IsPlain s × StartsWell s × EndsWell s × All (λ d. map capital s ≢ codes d) devices

All-unlike :
    (c : ℕ) (ds : List ℕ)
    → is_illegal c ≡ false
    → All (λ d. is_illegal d ≡ true) ds
    → All (λ d. c ≢ d) ds
All-unlike c [] h k = tt
All-unlike c (d ∷ ds) h (p, k) =
    (λ e. absurd (ground (arith, h, p, ap is_illegal e)), All-unlike c ds h k)

legal-IsPlain : (s : List ℕ) → All (λ c. is_illegal c ≡ false) s → All IsPlain s
unfolding is_illegal
legal-IsPlain [] h = tt
legal-IsPlain (c ∷ cs) (p, h) = (
  (
    ground (arith, p),
    All-unlike c forbidden p
        (refl, (refl, (refl, (refl, (refl, (refl, (refl, (refl, (refl, (refl, tt)))))))))),
  ),
  legal-IsPlain cs h,
)

dotless-StartsWell : (s : List ℕ) → s ≢ [] → starts_with_dot s ≡ false → StartsWell s
dotless-StartsWell [] n h = n refl
dotless-StartsWell (c ∷ cs) n h = λ e. ground (arith, h, e)

ends-EndsWell : (s : List ℕ) → ends_in_tail s ≡ false → EndsWell s
unfolding is_tail
ends-EndsWell [] h = tt
ends-EndsWell (c ∷ []) h = (λ e. ground (arith, h, e), λ e. ground (arith, h, e))
ends-EndsWell (c ∷ d ∷ ds) h = ends-EndsWell (d ∷ ds) h

same_codes_refl : (s : List ℕ) → same_codes s s ≡ true
same_codes_refl [] = refl
same_codes_refl (c ∷ cs) = ground (arith, same_codes_refl cs)

among-All : (s : List ℕ) (ts : List String) → is_among s ts ≡ false → All (λ t. s ≢ codes t) ts
unfolding is_among
among-All s [] h = tt
among-All s (t ∷ ts) h = (
  λ e.
      let yes : same_codes s (codes t) ≡ true =
        subst (λ u. same_codes s u ≡ true) e (same_codes_refl s) in
      ground (arith, h, yes),
  among-All s ts (ground (arith, h)),
)

device-All : (s : List ℕ) → is_device s ≡ false → All (λ d. map capital s ≢ codes d) devices
unfolding is_device
device-All s h = among-All (map to_upper s) dos_devices h

pub clean-IsSafe : (s : List ℕ) → IsClean s → IsSafe s
clean-IsSafe s (legal, front, end, device, some_char) = (
  legal-IsPlain s legal,
  dotless-StartsWell s some_char front,
  ends-EndsWell s end,
  device-All s device,
)

-- Whatever the text and the host's normal form, a segment is safe when the fallback is: it has no
-- control character and none of / \ : * ? " < > |, no dot in front, no dot or space at its end, is not
-- empty, and is no bare device name such as con or LPT1.
pub sanitize_segment-IsSafe :
    (host : TextHost) (raw : Option (List ℕ)) (fallback : List ℕ)
    → IsSafe fallback
    → IsSafe (sanitize_segment host raw fallback)
unfolding sanitize_segment
sanitize_segment-IsSafe host raw fallback f =
    let legal = map legal_char (host.nfc (or_nothing raw)) in
    let spaced = trim_end (trim_start (collapse false legal)) in
    let clean : ℕ → Type 0 = λ c. is_illegal c ≡ false in
    let all_spaced =
      All-trim_end clean _
        (All-trim_start clean _ (All-collapse clean space_legal false legal (All-legal_char _))) in
    elim (guarded-IsClean (strip_tail (drop_dots spaced)) fallback
      (All-strip_tail clean _ (All-drop_dots clean spaced all_spaced))
      (starts-strip_tail _ (starts-drop_dots spaced)) (ends-strip_tail (drop_dots spaced))) [
        | inl good ↦ clean-IsSafe _ good
        | inr same_text ↦ subst IsSafe (sym same_text) f
      ]
