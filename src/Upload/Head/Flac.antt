-- ===== src/Upload/Head/Flac.antt =====
-- src/lib/head-check.ts: no FLAC file is refused, whatever tags stand in front of it.
use localchune.Common.{
  ℕ, zero, suc, ◌+◌, ◌-◌, ◌*◌, ◌≤◌, ◌<◌, String, ◌≡◌, refl, sym, ap, subst, ◌∙◌, ◌⊎◌, inl, inr,
  Bool, true, false, some, List, [], ◌∷◌, ◌++◌, arith, dec_lt, ltb, ◌==◌, if◌then◌else◌, Bool-cases,
  length, take, drop, length-append, length-take, All,
}
use localchune.Upload.Head.{
  flac, family, family, ok, skip_tags, skip_id3v2, tag_length, syncsafe, footer, starts_with,
  has_top_bit, id3, check_flac, check_blob_head, check_head, check_listed, check_family, family_of,
  find_family, extension_of, all_zeros, head_check_bytes,
}
use Prim.Native.Nat.{bit_and}
use native.Mathlib.Numerals.{unary_clauses}
use localchune.Queue.Camelot.{codes}

-- A tag of the ID3v2 format: two bytes of version, the flags, four bytes of size, then its body.
pub record Tag : Type 0 where
  pub major : ℕ
  pub minor : ℕ
  pub flags : ℕ
  pub s0 : ℕ
  pub s1 : ℕ
  pub s2 : ℕ
  pub s3 : ℕ
  pub body : List ℕ

abbrev pub declared_size : Tag → ℕ
declared_size t = ((t.s0 * 128 + t.s1) * 128 + t.s2) * 128 + t.s3

-- The size is written in four digits to the base 128; the body has as many bytes, and 10 more of a
-- footer where bit 4 of the flags is set.
abbrev pub IsTag : Tag → Type 0
IsTag t =
    (t.s0 < 128)
    × (t.s1 < 128)
    × (t.s2 < 128)
    × (t.s3 < 128)
    × (((bit_and t.flags 0x10 ≡ 0) × (length t.body ≡ declared_size t))
        ⊎ ((bit_and t.flags 0x10 ≡ 0x10) × (length t.body ≡ declared_size t + 10)))

abbrev tag_bytes : Tag → List ℕ → List ℕ
tag_bytes t rest =
    b'I' ∷ b'D' ∷ b'3' ∷ t.major ∷ t.minor ∷ t.flags ∷ t.s0 ∷ t.s1 ∷ t.s2 ∷ t.s3 ∷ t.body ++ rest

-- The tags, then the magic and the audio.
abbrev pub flac_bytes : List Tag → List ℕ → List ℕ
flac_bytes [] audio = b'f' ∷ b'L' ∷ b'a' ∷ b'C' ∷ audio
flac_bytes (t ∷ tags) audio = tag_bytes t (flac_bytes tags audio)

abbrev ten : ℕ → ℕ
ten n = suc (suc (suc (suc (suc (suc (suc (suc (suc (suc n)))))))))

drop-take :
    (body rest : List ℕ) (n : ℕ)
    → drop (length body) (take n (body ++ rest)) ≡ take (n - length body) rest
drop-take [] rest n = simp unary_clauses refl
drop-take (b ∷ body) rest zero = let e : 0 - suc (length body) ≡ 0 = omega arith in rw e refl
drop-take (b ∷ body) rest (suc n) = simp unary_clauses (drop-take body rest n)

-- The bytes of a size have their top bit clear.
top_bit-clear :
    (s0 s1 s2 s3 : ℕ)
    → s0 < 128
    → s1 < 128
    → s2 < 128
    → s3 < 128
    → has_top_bit (s0 ∷ s1 ∷ s2 ∷ s3 ∷ []) ≡ false
unfolding has_top_bit
top_bit-clear s0 s1 s2 s3 p q r t = ground (arith, p, q, r, t)

if_same : (b : Bool) → (if b then ok else ok) ≡ ok
if_same true = refl
if_same false = refl

-- Fewer than 4 bytes are not judged, and fewer than 10 are not where a tag starts.
few_passes : (head : List ℕ) (fuel : ℕ) → length head < 4 → check_flac (skip_tags fuel head) ≡ ok
unfolding skip_tags check_flac
few_passes head zero h = let few : ltb (length head) 4 ≡ true = ground (arith, h) in rw few refl
few_passes head (suc fuel) h =
    let few : ltb (length head) 4 ≡ true = ground (arith, h) in
    let cut : ltb (length head) 10 ≡ true = ground (arith, h) in
    elim (Bool-cases (starts_with id3 head)) [
      | inl e ↦ simp (e, cut) refl
      | inr e ↦ simp (e, few) refl
    ]

start_passes :
    (head : List ℕ) (fuel : ℕ)
    → length head < 10
    → starts_with id3 head ≡ true
    → check_flac (skip_tags (suc fuel) head) ≡ ok
unfolding skip_tags check_flac
start_passes head fuel h e =
    let cut : ltb (length head) 10 ≡ true = ground (arith, h) in simp (e, cut) refl

-- A tag whose header is there is passed over, or the bytes end before it does.
tag_passes :
    (head : List ℕ) (fuel : ℕ)
    → starts_with id3 head ≡ true
    → 10 ≤ length head
    → has_top_bit (take 4 (drop 6 head)) ≡ false
    → check_flac (skip_tags fuel (drop (tag_length head) head)) ≡ ok
    → check_flac (skip_tags (suc fuel) head) ≡ ok
unfolding skip_tags check_flac
tag_passes head fuel e h top next =
    let whole : ltb (length head) 10 ≡ false = ground (arith, h) in
    elim (Bool-cases (ltb (length head) (tag_length head))) [
      | inl cut ↦ simp (e, whole, top, cut) refl
      | inr held ↦ simp (e, whole, top, held) next
    ]

magic_passes : (audio : List ℕ) (fuel : ℕ) → check_flac (skip_tags fuel (flac_bytes [] audio)) ≡ ok
unfolding skip_tags check_flac starts_with
magic_passes audio zero = if_same _
magic_passes audio (suc fuel) = if_same _

-- Cut anywhere, the bytes hold the magic or do not reach so far.
magic-passes :
    (audio : List ℕ) (window fuel : ℕ)
    → check_flac (skip_tags fuel (take window (flac_bytes [] audio))) ≡ ok
magic-passes audio zero fuel = few_passes _ fuel (omega arith)
magic-passes audio (suc zero) fuel = few_passes _ fuel (omega arith)
magic-passes audio (suc (suc zero)) fuel = few_passes _ fuel (omega arith)
magic-passes audio (suc (suc (suc zero))) fuel = few_passes _ fuel (omega arith)
magic-passes audio (suc (suc (suc (suc n)))) fuel = magic_passes (take n audio) fuel

sized :
    (t : Tag)
    → ((bit_and t.flags 0x10 ≡ 0) × (length t.body ≡ declared_size t))
      ⊎ ((bit_and t.flags 0x10 ≡ 0x10) × (length t.body ≡ declared_size t + 10))
    → 10 + syncsafe t.s0 t.s1 t.s2 t.s3 + footer t.flags ≡ ten (length t.body)
sized t (inl (bit, e)) = rw bit (omega (arith, e))
sized t (inr (bit, e)) = rw bit (omega (arith, e))

-- A tag that the bytes hold whole is passed over, and one that they do not is not judged.
module _ (t : Tag) (rest : List ℕ) (valid : IsTag t) where
  tag_cut :
      (n fuel : ℕ) → n < 10 → check_flac (skip_tags (suc fuel) (take n (tag_bytes t rest))) ≡ ok
  unfolding starts_with
  tag_cut zero fuel h = few_passes _ (suc fuel) (omega arith)
  tag_cut (suc zero) fuel h = few_passes _ (suc fuel) (omega arith)
  tag_cut (suc (suc zero)) fuel h = few_passes _ (suc fuel) (omega arith)
  tag_cut (suc (suc (suc n))) fuel h =
      start_passes _ fuel
        (omega (
          arith,
          length-take n (t.major ∷ t.minor ∷ t.flags ∷ t.s0 ∷ t.s1 ∷ t.s2 ∷ t.s3 ∷ t.body ++ rest),
        ))
        refl

  drop_tag :
      (n : ℕ)
      → drop (tag_length (take (ten n) (tag_bytes t rest))) (take (ten n) (tag_bytes t rest))
        ≡ take (n - length t.body) rest
  unfolding tag_length
  drop_tag n =
      let (h0, h1, h2, h3, size) = valid in
      let e : 10 + syncsafe t.s0 t.s1 t.s2 t.s3 + footer t.flags ≡ ten (length t.body) =
        sized t size in
      ap (λ k. drop k (take (ten n) (tag_bytes t rest))) e ∙ drop-take t.body rest n

  tag_passed :
      (n fuel : ℕ)
      → check_flac (skip_tags fuel (take (n - length t.body) rest)) ≡ ok
      → check_flac (skip_tags (suc fuel) (take (ten n) (tag_bytes t rest))) ≡ ok
  unfolding starts_with
  tag_passed n fuel h =
      let (h0, h1, h2, h3, size) = valid in
      tag_passes (take (ten n) (tag_bytes t rest)) fuel refl (omega arith)
        (top_bit-clear t.s0 t.s1 t.s2 t.s3 h0 h1 h2 h3)
        (subst (λ xs. check_flac (skip_tags fuel xs) ≡ ok) (sym (drop_tag n)) h)

bound :
    (t : Tag) (rest : List ℕ) (window fuel : ℕ)
    → length (take window (tag_bytes t rest)) ≤ suc fuel
    → length (take (window - 10 - length t.body) rest) ≤ fuel
bound t rest window fuel enough = omega (
  arith,
  enough,
  length-take window (tag_bytes t rest),
  length-append t.body rest,
  length-take (window - 10 - length t.body) rest,
)

-- Cut anywhere, the bytes of a tagged file are not refused.
skip_tags-passes :
    (tags : List Tag) (audio : List ℕ) (window fuel : ℕ)
    → All IsTag tags
    → length (take window (flac_bytes tags audio)) ≤ fuel
    → check_flac (skip_tags fuel (take window (flac_bytes tags audio))) ≡ ok
skip_tags-passes [] audio window fuel all enough = magic-passes audio window fuel
skip_tags-passes (t ∷ tags) audio zero zero all enough = few_passes [] 0 (omega arith)
skip_tags-passes (t ∷ tags) audio (suc window) zero all enough = absurd (omega (arith, enough))
skip_tags-passes (t ∷ tags) audio window (suc fuel) (valid, all) enough =
    let rest = flac_bytes tags audio in
    let left = window - 10 - length t.body in
    let shorter : length (take left rest) ≤ fuel = bound t rest window fuel enough in
    elim (dec_lt window 10) [
      | yes h ↦ tag_cut t rest valid window fuel h
      | no h ↦
          let e : ten (window - 10) ≡ window = omega (arith, h) in
          subst (λ w. check_flac (skip_tags (suc fuel) (take w (tag_bytes t rest))) ≡ ok) e
            (tag_passed t rest valid (window - 10) fuel
              (skip_tags-passes tags audio left fuel all shorter))
    ]

-- A head that does not start with 0 is judged by its magic.
check_listed-judged :
    (b : ℕ) (bs : List ℕ)
    → (b == 0) ≡ false
    → check_listed (some (family flac)) (b ∷ bs)
      ≡ some (check_flac (skip_tags (length (b ∷ bs)) (b ∷ bs)))
unfolding check_listed check_family skip_id3v2 all_zeros
check_listed-judged b bs e =
    let some_bytes : (suc (length bs) == 0) ≡ false = ground arith in simp (some_bytes, e) refl

check_listed-flac :
    (tags : List Tag) (audio : List ℕ) (window : ℕ)
    → All IsTag tags
    → check_listed (some (family flac)) (take window (flac_bytes tags audio)) ≡ some ok
unfolding check_listed
check_listed-flac [] audio zero all = refl
check_listed-flac (t ∷ tags) audio zero all = refl
check_listed-flac [] audio (suc window) all =
    check_listed-judged _ _ refl
    ∙ ap some (skip_tags-passes [] audio (suc window) _ all (omega arith))
check_listed-flac (t ∷ tags) audio (suc window) all =
    check_listed-judged _ _ refl
    ∙ ap some (skip_tags-passes (t ∷ tags) audio (suc window) _ all (omega arith))

family_of-flac : family_of (some (codes "flac")) ≡ some (family flac)
unfolding family_of find_family
family_of-flac = refl

-- A file whose name has the extension flac and which is a FLAC file behind any number of ID3v2 tags of
-- any size passes the check, wherever the first 16 KiB end.
pub check_blob_head-flac :
    (name : String) (tags : List Tag) (audio : List ℕ)
    → extension_of name ≡ some (codes "flac")
    → All IsTag tags
    → check_blob_head name (some (flac_bytes tags audio)) ≡ some ok
unfolding check_blob_head check_head
check_blob_head-flac name tags audio e all =
    rw (e, family_of-flac) (check_listed-flac tags audio head_check_bytes all)
