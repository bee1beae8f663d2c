-- ===== src/Match/Ber/Best.antt =====
-- The loop of src/lib/ber.ts over the offsets finds the best alignment that is long enough.
use mathlib.Core.Option.{some-injective}
use localchune.Common.Number.{ℤ, pos, negsuc}
use native.Mathlib.Nat.{mul-le-mul_right, le_of_mul-le-mul_left}
use localchune.Common.{
  ℕ, zero, suc, ◌*◌, ◌≤◌, ◌<◌, ◌≡◌, refl, sym, ◌∙◌, ◌⊎◌, inl, inr, Option, none, some, List, [],
  ◌∷◌, arith, ltb, ◌==◌, Bool-cases, get_elem?, drop, All,
}
use localchune.Match.Ber.{
  offsets, swept_of, sweep_offsets, Swept, min_overlap_frames, is_lower, sweep, lower_of,
  bit_error_rate, aligned, faced, Alignment, scored, too_short,
}

-- The rate of `x` is not above the rate of `y`.
abbrev pub IsAtMost : Alignment → Alignment → Type 0
IsAtMost x y = x.bits * y.overlap ≤ y.bits * x.overlap

-- The alignment of an offset is too short to count, or its rate is not below that of `x`.
abbrev pub IsBeaten : List ℕ → List ℕ → Alignment → ℤ → Type 0
IsBeaten a b x off = ((bit_error_rate a b off).overlap < 64) ⊎ IsAtMost x (bit_error_rate a b off)

IsAtMost-trans : (x y z : Alignment) → 0 < y.overlap → IsAtMost x y → IsAtMost y z → IsAtMost x z
IsAtMost-trans x y z h p q =
    le_of_mul-le-mul_left {k = y.overlap}
      (grind (arith, mul-le-mul_right z.overlap p, mul-le-mul_right x.overlap q)) h

-- The best alignment so far is long enough.
abbrev IsLong : Option Alignment → Type 0
IsLong none = Unit
IsLong (some x) = 64 ≤ x.overlap

abbrev IsNotAbove : Alignment → Option Alignment → Type 0
IsNotAbove x none = Unit
IsNotAbove x (some y) = IsAtMost x y

-- An alignment of one of the offsets.
abbrev pub IsFrom : List ℕ → List ℕ → List ℤ → Alignment → Type 0
IsFrom a b offs x =
    (i : ℕ) × (off : ℤ) × (get_elem? offs i ≡ some off) × (x ≡ bit_error_rate a b off)

-- What the loop over the offsets leaves as the best, from the best before it.
abbrev Best : List ℕ → List ℕ → Option Alignment → List ℤ → Option Alignment → Type 0
Best a b before offs none =
    (before ≡ none) × All (λ off. (bit_error_rate a b off).overlap < 64) offs
Best a b before offs (some x) =
    (64 ≤ x.overlap)
    × IsNotAbove x before
    × All (IsBeaten a b x) offs
    × ((before ≡ some x) ⊎ IsFrom a b offs x)

lower_cases :
    (before : Option Alignment) (x : Alignment)
    → IsLong before
    → 64 ≤ x.overlap
    → (y : Alignment) × (lower_of before x ≡ some y)
      × (64 ≤ y.overlap)
      × IsAtMost y x
      × IsNotAbove y before
      × ((before ≡ some y) ⊎ (y ≡ x))
unfolding lower_of is_lower
lower_cases none x l h = (x, refl, h, omega arith, tt, inr refl)
lower_cases (some b) x l h = elim (Bool-cases (ltb (x.bits * b.overlap) (b.bits * x.overlap))) [
  | inl e ↦ (x, rw e refl, h, omega arith, ground (arith, e), inr refl)
  | inr e ↦ (b, rw e refl, l, ground (arith, e), omega arith, inl refl)
]

module _ (a b : List ℕ) where
  IsFrom-later :
      (off : ℤ) (offs : List ℤ) (x : Alignment) → IsFrom a b offs x → IsFrom a b (off ∷ offs) x
  IsFrom-later off offs x (i, o, g, e) = (suc i, o, g, e)

  -- An offset that is too short changes nothing.
  Best-short :
      (off : ℤ) (offs : List ℤ) (before result : Option Alignment)
      → (bit_error_rate a b off).overlap < 64
      → Best a b before offs result
      → Best a b before (off ∷ offs) result
  Best-short off offs before none h (e, all) = (e, (h, all))
  Best-short off offs before (some x) h (l, n, all, from) =
      (l, n, (inl h, all), elim from [ inl e ↦ inl e | inr f ↦ inr (IsFrom-later off offs x f) ])

  IsNotAbove-trans :
      (x y : Alignment) (before : Option Alignment)
      → 0 < y.overlap
      → IsAtMost x y
      → IsNotAbove y before
      → IsNotAbove x before
  IsNotAbove-trans x y none h p q = tt
  IsNotAbove-trans x y (some z) h p q = IsAtMost-trans x y z h p q

  Best-long :
      (off : ℤ) (offs : List ℤ) (before result : Option Alignment) (y : Alignment)
      → 64 ≤ y.overlap
      → IsAtMost y (bit_error_rate a b off)
      → IsNotAbove y before
      → (before ≡ some y) ⊎ (y ≡ bit_error_rate a b off)
      → Best a b (some y) offs result
      → Best a b before (off ∷ offs) result
  Best-long off offs before none y h p n o (e, all) = absurd (ground (arith, e))
  Best-long off offs before (some z) y h p n o (l, q, all, from) = (
    l,
    IsNotAbove-trans z y before (omega arith) q n,
    (inr (IsAtMost-trans z y (bit_error_rate a b off) (omega arith) q p), all),
    elim from [
      | inl e ↦ elim o [
        | inl f ↦ inl (f ∙ e)
        | inr f ↦ inr (0, off, refl, sym (some-injective _ _ e) ∙ f)
      ]
      | inr f ↦ inr (IsFrom-later off offs z f)
    ],
  )

  sweep_lem :
      (offs : List ℤ) (before fallback : Option Alignment)
      → IsLong before
      → Best a b before offs (sweep a b offs before fallback).0
  unfolding sweep
  sweep_lem [] none fallback l = (refl, tt)
  sweep_lem [] (some x) fallback l = (l, omega arith, tt, inl refl)
  sweep_lem (off ∷ offs) before fallback l =
      let x = bit_error_rate a b off in
      elim (Bool-cases (x.overlap == 0)) [
        | inl nil ↦
            simp nil (
              Best-short off offs before _ (ground (arith, nil)) (sweep_lem offs before fallback l))
        | inr some_faced ↦ elim (Bool-cases (ltb x.overlap min_overlap_frames)) [
          | inl short ↦
              simp (some_faced, short)
                (Best-short off offs before _ (ground (arith, short))
                  (sweep_lem offs before (lower_of fallback x) l))
          | inr long ↦
              let (y, e, h, p, n, o) = lower_cases before x l (ground (arith, long)) in
              simp (some_faced, long, e)
                (Best-long off offs before _ y h p n o
                  (sweep_lem offs (some y) (lower_of fallback x) h))
        ]
      ]

-- The result of a sweep in terms of the list of its offsets.
abbrev pub IsFound : List ℕ → List ℕ → ℕ → Swept → Type 0
IsFound a b max_offset (scored x) =
    (64 ≤ x.overlap) × IsFrom a b (offsets max_offset) x × All (IsBeaten a b x) (offsets max_offset)
IsFound a b max_offset (too_short fallback) =
    All (λ off. (bit_error_rate a b off).overlap < 64) (offsets max_offset)

swept_lem :
    (a b : List ℕ) (max_offset : ℕ) (r : Option Alignment × Option Alignment)
    → Best a b none (offsets max_offset) r.0
    → IsFound a b max_offset (swept_of r)
unfolding swept_of
swept_lem a b max_offset (none, fallback) (e, all) = all
swept_lem a b max_offset (some x, fallback) (l, n, all, inl e) = absurd (ground (arith, e))
swept_lem a b max_offset (some x, fallback) (l, n, all, inr f) = (l, f, all)

drop-nil : (n : ℕ) → drop {A = ℕ} n [] ≡ []
drop-nil zero = refl
drop-nil (suc n) = refl

faced-nil : (a : List ℕ) → faced a [] ≡ []
unfolding faced
faced-nil [] = refl
faced-nil (x ∷ a) = refl

aligned-nil_left : (b : List ℕ) (off : ℤ) → aligned [] b off ≡ []
unfolding aligned faced
aligned-nil_left b (pos n) = rw (drop-nil n) refl
aligned-nil_left b (negsuc n) = refl

aligned-nil_right : (a : List ℕ) (off : ℤ) → aligned a [] off ≡ []
unfolding aligned
aligned-nil_right a (pos n) = faced-nil (drop n a)
aligned-nil_right a (negsuc n) = rw (drop-nil (suc n)) (faced-nil a)

overlap_of-nil :
    (a b : List ℕ) (off : ℤ) → aligned a b off ≡ [] → (bit_error_rate a b off).overlap < 64
unfolding bit_error_rate
overlap_of-nil a b off e = rw e (omega arith)

empty_left : (b : List ℕ) (offs : List ℤ) → All (λ off. (bit_error_rate [] b off).overlap < 64) offs
empty_left b [] = tt
empty_left b (off ∷ offs) = (overlap_of-nil [] b off (aligned-nil_left b off), empty_left b offs)

empty_right :
    (a : List ℕ) (offs : List ℤ) → All (λ off. (bit_error_rate a [] off).overlap < 64) offs
empty_right a [] = tt
empty_right a (off ∷ offs) = (overlap_of-nil a [] off (aligned-nil_right a off), empty_right a offs)

pub sweep_offsets-IsFound :
    (a b : List ℕ) (max_offset : ℕ) → IsFound a b max_offset (sweep_offsets a b max_offset)
unfolding sweep_offsets
sweep_offsets-IsFound [] b max_offset = empty_left b (offsets max_offset)
sweep_offsets-IsFound (x ∷ a) [] max_offset = empty_right (x ∷ a) (offsets max_offset)
sweep_offsets-IsFound (x ∷ a) (y ∷ b) max_offset =
    swept_lem (x ∷ a) (y ∷ b) max_offset _
      (sweep_lem (x ∷ a) (y ∷ b) (offsets max_offset) none none tt)
