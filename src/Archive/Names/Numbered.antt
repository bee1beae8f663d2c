-- ===== src/Archive/Names/Numbered.antt =====
-- The decimal numbers in the names that `dedupeName` of src/lib/zip.ts tries.
use localchune.Archive.Names.Fresh.{KeepsNumbers}
use localchune.Archive.Names.{numbered_name, TextHost}
use text.Mathlib.TextLemmas.{nil-append, cons-append}
use mathlib.Core.List.{append_cancel_left}
use Prim.Native.String
use Prim.Native.Char.{code}
use localchune.Queue.Camelot.{codes}
use localchune.Queue.Drawer.Lines.{decimal, decimal_from, digit}
use localchune.Common.{
  ℕ, zero, suc, ◌+◌, ◌-◌, ◌*◌, ◌/◌, ◌%◌, ◌<◌, String, ◌≡◌, refl, sym, ap, ◌∙◌, inl, inr, ◌&&◌, List,
  [], ◌∷◌, ◌++◌, arith, ltb, leb, if◌then◌else◌, Bool-cases, drop,
}

-- The number that stands in front of a text, behind `a`.
abbrev value_from : ℕ → List ℕ → ℕ
value_from a [] = a
value_from a (c ∷ cs) =
    let more = value_from (a * 10 + (c - b'0')) cs in if leb b'0' c && leb c b'9' then more else a

codes-append : (s t : String) → codes (String.◌++◌ s t) ≡ codes s ++ codes t
codes-append String.[] t = ap codes (nil-append t)
codes-append (String.◌∷◌ c s) t =
    ap codes (cons-append c s t) ∙ ap (◌∷◌ (code c)) (codes-append s t)

codes-digit : (d : ℕ) → d < 10 → codes (digit d) ≡ (b'0' + d) ∷ []
codes-digit zero h = refl
codes-digit (suc zero) h = refl
codes-digit (suc (suc zero)) h = refl
codes-digit (suc (suc (suc zero))) h = refl
codes-digit (suc (suc (suc (suc zero)))) h = refl
codes-digit (suc (suc (suc (suc (suc zero))))) h = refl
codes-digit (suc (suc (suc (suc (suc (suc zero)))))) h = refl
codes-digit (suc (suc (suc (suc (suc (suc (suc zero))))))) h = refl
codes-digit (suc (suc (suc (suc (suc (suc (suc (suc zero)))))))) h = refl
codes-digit (suc (suc (suc (suc (suc (suc (suc (suc (suc zero))))))))) h = refl
codes-digit (suc (suc (suc (suc (suc (suc (suc (suc (suc (suc d)))))))))) h = absurd (omega arith)

-- A digit in front of a text counts, behind what stands before it.
one_digit :
    (a d : ℕ) (acc : String) (t : List ℕ)
    → d < 10
    → value_from a (codes (String.◌++◌ (digit d) acc) ++ t)
      ≡ value_from (a * 10 + d) (codes acc ++ t)
one_digit a d acc t h =
    ap (λ s. value_from a (s ++ t)) (codes-append (digit d) acc)
    ∙ ap (λ s. value_from a ((s ++ codes acc) ++ t)) (codes-digit d h)
    ∙ counts a d (codes acc ++ t) h
  where
    counts :
        (a d : ℕ) (cs : List ℕ)
        → d < 10
        → value_from a ((b'0' + d) ∷ cs) ≡ value_from (a * 10 + d) cs
    counts a d cs h = ground arith

value-decimal_from :
    (fuel n : ℕ) (acc : String) (t : List ℕ)
    → n < fuel
    → value_from 0 (codes (decimal_from fuel n acc) ++ t) ≡ value_from n (codes acc ++ t)
unfolding decimal_from
value-decimal_from zero n acc t h = absurd (omega arith)
value-decimal_from (suc fuel) n acc t h = elim (Bool-cases (ltb n 10)) [
  | inl small ↦ rw small (
      one_digit 0 (n % 10) acc t (omega arith)
      ∙ ap (λ v. value_from v (codes acc ++ t)) (only (ground arith)))
  | inr large ↦
      let more = String.◌++◌ (digit (n % 10)) acc in
      rw large (
        value-decimal_from fuel (n / 10) more t (ground arith)
        ∙ one_digit (n / 10) (n % 10) acc t (omega arith)
        ∙ ap (λ v. value_from v (codes acc ++ t)) whole)
]
  where
    only : n < 10 → 0 * 10 + n % 10 ≡ n
    only k = omega arith

    whole : n / 10 * 10 + n % 10 ≡ n
    whole = omega arith

abbrev pub plain_host : TextHost
plain_host = record { nfc = λ s. s; lower = λ s. s; clock = 0 }

-- A host that leaves a text as it is tells numbered names apart.
pub plain-KeepsNumbers : KeepsNumbers plain_host
unfolding numbered_name decimal
plain-KeepsNumbers (stem, ext) n m e =
    let tails = append_cancel_left stem _ _ e in
    sym (number_of n) ∙ ap (λ s. value_from 0 (drop 2 s)) tails ∙ number_of m
  where
    number_of : (n : ℕ) → value_from 0 (codes (decimal_from (suc n) n "") ++ (b')' ∷ ext)) ≡ n
    number_of n = value-decimal_from (suc n) n "" (b')' ∷ ext) (omega arith)
