-- ===== src/Match/Ber/Range.antt =====
-- src/lib/ber.ts: the sweep over a range of offsets, against the bits that differ and the frames that
-- overlap, counted one by one.
use mathlib.Core.Option.{some-injective}
use localchune.Match.Ber.Best.{sweep_offsets-IsFound, IsFound, IsBeaten}
use localchune.Common.{
  ℕ, zero, suc, ◌+◌, ◌-◌, ◌*◌, ◌^◌, ◌≤◌, ◌<◌, min, ◌≡◌, refl, sym, ap, subst, ◌∙◌, ◌⊎◌, inl, inr,
  true, false, some, List, [], ◌∷◌, ◌++◌, map, arith, dec_lt, ltb, Bool-cases, length, get_elem?,
  drop, All, All-append,
}
use Prim.Native.Nat.{bit_xor}
use localchune.Common.Number.{ℤ, pos, negsuc}
use localchune.Archive.Xor.{bit_xor_lt_pow}
use localchune.Match.Popcount.{popcount32-ones}
use localchune.Match.Popcount.Tables.{ones}
use localchune.Match.Ber.{
  offset_at, offsets_from, offsets, sweep_offsets, scored, too_short, Swept, bit_error_rate,
  aligned, faced, differing, Swept, scored, too_short, Alignment,
}

-- A frame is a word.
abbrev pub IsFrame : ℕ → Type 0
IsFrame x = x < 2 ^ 32

abbrev pub frame_at : List ℕ → ℕ → ℕ
frame_at [] i = 0
frame_at (x ∷ xs) zero = x
frame_at (x ∷ xs) (suc i) = frame_at xs i

-- The bits that differ between `n` frames of `a` from the `i`-th and `n` of `b` from the `j`-th.
abbrev pub distance : List ℕ → List ℕ → ℕ → ℕ → ℕ → ℕ
distance a b i j zero = 0
distance a b i j (suc n) =
    ones 32 (bit_xor (frame_at a i) (frame_at b j)) + distance a b (suc i) (suc j) n

-- The frames that overlap, and the bits that differ in them, when `a[i + off]` faces `b[i]`.
abbrev pub overlap_of : List ℕ → List ℕ → ℤ → ℕ
overlap_of a b (pos n) = min (length a - n) (length b)
overlap_of a b (negsuc n) = min (length a) (length b - suc n)

abbrev pub bits_of : List ℕ → List ℕ → ℤ → ℕ
bits_of a b (pos n) = distance a b n 0 (overlap_of a b (pos n))
bits_of a b (negsuc n) = distance a b 0 (suc n) (overlap_of a b (negsuc n))

-- The numbers below `n`, and the integers from `-max` to `max`.
abbrev pub upto : ℕ → List ℕ
upto zero = []
upto (suc n) = n ∷ upto n

abbrev pub span : ℕ → List ℤ
span max_offset = map pos (upto (suc max_offset)) ++ map negsuc (upto max_offset)

abbrev pub InRange : ℕ → ℤ → Type 0
InRange max_offset (pos n) = n ≤ max_offset
InRange max_offset (negsuc n) = suc n ≤ max_offset

-- At an offset too few frames overlap, or the rate of the bits that differ is not below that of `x`.
abbrev pub IsBelow : List ℕ → List ℕ → Alignment → ℤ → Type 0
IsBelow a b x off =
    (overlap_of a b off < 64) ⊎ (x.bits * overlap_of a b off ≤ bits_of a b off * x.overlap)

-- What a sweep promises.
abbrev pub IsSwept : List ℕ → List ℕ → ℕ → Swept → Type 0
IsSwept a b max_offset (scored x) =
    (64 ≤ x.overlap)
    × InRange max_offset x.offset
    × (x.overlap ≡ overlap_of a b x.offset)
    × (x.bits ≡ bits_of a b x.offset)
    × All (IsBelow a b x) (span max_offset)
IsSwept a b max_offset (too_short fallback) = All (λ off. overlap_of a b off < 64) (span max_offset)

drop-none : (i : ℕ) (a : List ℕ) → length a ≤ i → drop i a ≡ []
drop-none zero [] h = refl
drop-none zero (x ∷ a) h = absurd (omega arith)
drop-none (suc i) [] h = refl
drop-none (suc i) (x ∷ a) h = drop-none i a (omega (arith, h))

drop-some : (i : ℕ) (a : List ℕ) → i < length a → drop i a ≡ frame_at a i ∷ drop (suc i) a
drop-some zero [] h = absurd (omega arith)
drop-some zero (x ∷ a) h = refl
drop-some (suc i) [] h = absurd (omega arith)
drop-some (suc i) (x ∷ a) h = drop-some i a (omega (arith, h))

frame_at-IsFrame : (a : List ℕ) (i : ℕ) → All IsFrame a → IsFrame (frame_at a i)
frame_at-IsFrame [] i h = omega arith
frame_at-IsFrame (x ∷ a) zero (p, h) = p
frame_at-IsFrame (x ∷ a) (suc i) (p, h) = frame_at-IsFrame a i h

faced-nil : (a : List ℕ) → faced a [] ≡ []
unfolding faced
faced-nil [] = refl
faced-nil (x ∷ a) = refl

module _ (a b : List ℕ) (fa : All IsFrame a) (fb : All IsFrame b) where
  differing-distance :
      (n i j : ℕ)
      → n ≡ min (length a - i) (length b - j)
      → (differing (faced (drop i a) (drop j b)) ≡ distance a b i j n)
        × (length (faced (drop i a) (drop j b)) ≡ n)
  unfolding differing faced
  differing-distance zero i j e = elim (dec_lt i (length a)) [
    | no h ↦ rw (drop-none i a (omega (arith, h))) (refl, refl)
    | yes h ↦ rw (drop-none j b (omega (arith, h, e)), faced-nil (drop i a)) (refl, refl)
  ]
  differing-distance (suc n) i j e =
      let (d, l) = differing-distance n (suc i) (suc j) (omega (arith, e)) in
      let x = frame_at a i in
      let y = frame_at b j in
      let count =
        popcount32-ones (bit_xor x y)
          (bit_xor_lt_pow 32 x y (frame_at-IsFrame a i fa) (frame_at-IsFrame b j fb)) in
      rw (drop-some i a (omega (arith, e)), drop-some j b (omega (arith, e)), count, d, l)
        (refl, refl)

  rate_lem :
      (off : ℤ)
      → ((bit_error_rate a b off).bits ≡ bits_of a b off)
        × ((bit_error_rate a b off).overlap ≡ overlap_of a b off)
        × ((bit_error_rate a b off).offset ≡ off)
  unfolding bit_error_rate aligned
  rate_lem (pos n) =
      let (d, l) = differing-distance (min (length a - n) (length b)) n 0 (omega arith) in
      (d, l, refl)
  rate_lem (negsuc n) =
      let (d, l) = differing-distance (min (length a) (length b - suc n)) 0 (suc n) (omega arith) in
      (d, l, refl)

-- The offsets of the loop are those of the range.
module _ (P : ℤ → Type 0) (max_offset : ℕ) where
  All-offset_at :
      (k n j : ℕ) → All P (offsets_from max_offset k n) → j < n → P (offset_at max_offset (k + j))
  unfolding offsets_from
  All-offset_at k zero j h l = absurd (omega arith)
  All-offset_at k (suc n) zero (p, h) l = subst (λ i. P (offset_at max_offset i)) (omega arith) p
  All-offset_at k (suc n) (suc j) (p, h) l =
      subst (λ i. P (offset_at max_offset i)) (omega arith)
        (All-offset_at (suc k) n j h (omega (arith, l)))

  All-upto : (f : ℕ → ℤ) (n : ℕ) → ((k : ℕ) → k < n → P (f k)) → All P (map f (upto n))
  All-upto f zero h = tt
  All-upto f (suc n) h = (h n (omega arith), All-upto f n (λ k l. h k (omega (arith, l))))

  offset_at-pos : (j : ℕ) → offset_at max_offset (max_offset + j) ≡ pos j
  unfolding offset_at
  offset_at-pos j =
      let late : ltb (max_offset + j) max_offset ≡ false = ground arith in
      rw late (ap pos (omega arith))

  offset_at-negsuc : (j : ℕ) → j < max_offset → offset_at max_offset (max_offset - suc j) ≡ negsuc j
  unfolding offset_at
  offset_at-negsuc j h =
      let early : ltb (max_offset - suc j) max_offset ≡ true = ground (arith, h) in
      rw early (ap negsuc (omega (arith, h)))

  All-at : (j : ℕ) → All P (offsets max_offset) → j ≤ 2 * max_offset → P (offset_at max_offset j)
  unfolding offsets
  All-at j h l =
      let e : 0 + j ≡ j = omega arith in
      subst (λ i. P (offset_at max_offset i)) e
        (All-offset_at 0 (2 * max_offset + 1) j h (omega (arith, l)))

  All-span : All P (offsets max_offset) → All P (span max_offset)
  All-span h =
      All-append P (map pos (upto (suc max_offset))) (map negsuc (upto max_offset))
        (All-upto pos (suc max_offset)
          (λ k l. subst P (offset_at-pos k) (All-at (max_offset + k) h (omega (arith, l)))))
        (All-upto negsuc max_offset (λ k l.
          subst P (offset_at-negsuc k l) (All-at (max_offset - suc k) h (omega (arith, l)))))

offset_at-InRange :
    (max_offset k : ℕ) → k < 2 * max_offset + 1 → InRange max_offset (offset_at max_offset k)
unfolding offset_at
offset_at-InRange max_offset k h = elim (Bool-cases (ltb k max_offset)) [
  | inl e ↦ rw e (ground (arith, e, h))
  | inr e ↦ rw e (ground (arith, e, h))
]

get_elem?-offsets :
    (max_offset k n i : ℕ) (off : ℤ)
    → get_elem? (offsets_from max_offset k n) i ≡ some off
    → (off ≡ offset_at max_offset (k + i)) × (i < n)
unfolding offsets_from
get_elem?-offsets max_offset k zero i off h = absurd (ground (arith, h))
get_elem?-offsets max_offset k (suc n) zero off h =
    (sym (some-injective _ _ h) ∙ ap (offset_at max_offset) (omega arith), omega arith)
get_elem?-offsets max_offset k (suc n) (suc i) off h =
    let (e, l) = get_elem?-offsets max_offset (suc k) n i off h in
    (e ∙ ap (offset_at max_offset) (omega arith), omega (arith, l))

All-imp {ℓ} :
    {A : Type ℓ} (P Q : A → Type 0) (xs : List A) → ((x : A) → P x → Q x) → All P xs → All Q xs
All-imp P Q [] f h = tt
All-imp P Q (x ∷ xs) f (p, h) = (f x p, All-imp P Q xs f h)

module _ (a b : List ℕ) (fa : All IsFrame a) (fb : All IsFrame b) (max_offset : ℕ) where
  beaten-IsBelow : (x : Alignment) (off : ℤ) → IsBeaten a b x off → IsBelow a b x off
  beaten-IsBelow x off (inl h) =
      let (bits, overlap, same_offset) = rate_lem a b fa fb off in
      inl (subst (λ n. n < 64) overlap h)
  beaten-IsBelow x off (inr h) =
      let (bits, overlap, same_offset) = rate_lem a b fa fb off in
      inr (
        subst (λ n. x.bits * n ≤ bits_of a b off * x.overlap) overlap
          (subst (λ n. x.bits * (bit_error_rate a b off).overlap ≤ n * x.overlap) bits h))

  found-IsSwept : (r : Swept) → IsFound a b max_offset r → IsSwept a b max_offset r
  unfolding offsets
  found-IsSwept (scored x) (l, (i, off, g, e), all) =
      let (bits, overlap, same_offset) = rate_lem a b fa fb off in
      let (at, late) = get_elem?-offsets max_offset 0 (2 * max_offset + 1) i off g in
      let o : x.offset ≡ off = ap (λ (y : Alignment). y.offset) e ∙ same_offset in
      (
        l,
        subst (InRange max_offset) (sym (o ∙ at))
            (offset_at-InRange max_offset (0 + i) (omega (arith, late))),
        ap (λ (y : Alignment). y.overlap) e ∙ overlap ∙ ap (overlap_of a b) (sym o),
        ap (λ (y : Alignment). y.bits) e ∙ bits ∙ ap (bits_of a b) (sym o),
        All-span (IsBelow a b x) max_offset
            (All-imp (IsBeaten a b x) (IsBelow a b x) (offsets max_offset) (beaten-IsBelow x) all),
      )
  found-IsSwept (too_short fallback) all =
      All-span (λ off. overlap_of a b off < 64) max_offset
        (All-imp (λ off. (bit_error_rate a b off).overlap < 64) (λ off. overlap_of a b off < 64)
          (offsets max_offset)
          (λ off h.
            let (bits, overlap, same_offset) = rate_lem a b fa fb off in
            subst (λ n. n < 64) overlap h)
          all)

-- For fingerprints of 32-bit frames and whatever the range: a score is that of an offset of the range at
-- which at least 64 frames overlap, with the number of bits that differ in them; at no other offset
-- of the range with 64 frames or more is the rate of the bits that differ lower; and the score is 0 only
-- when at every offset of the range fewer than 64 frames overlap.
pub sweep_offsets-IsSwept :
    (a b : List ℕ) (max_offset : ℕ)
    → All IsFrame a
    → All IsFrame b
    → IsSwept a b max_offset (sweep_offsets a b max_offset)
sweep_offsets-IsSwept a b max_offset fa fb =
    found-IsSwept a b fa fb max_offset (sweep_offsets a b max_offset)
      (sweep_offsets-IsFound a b max_offset)
