-- ===== src/Match/Popcount.antt =====
-- src/lib/ber.ts: `popcount32` counts the bits of a word.
pub mod Octets
pub mod Tables
use localchune.Common.{
  ℕ, zero, suc, ◌+◌, ◌-◌, ◌*◌, ◌/◌, ◌%◌, ◌^◌, ◌≤◌, ◌<◌, min, max, String, ◌≡◌, refl, sym, ap, subst,
  ◌∙◌, ◌≡⟨◌⟩◌, ◌∎, ◌≢◌, ◌↔◌, ◌⊎◌, inl, inr, Bool, true, false, not, ◌&&◌, ◌||◌, Option, none, some,
  List, [], ◌∷◌, ◌++◌, map, arith, dec_lt, dec_le, ℕ_discrete, ltb, leb, ◌==◌, if◌then◌else◌,
  Bool-cases, Option-cases, dec_str, same, length, get_elem?, take, drop, keep, find_index,
  remove_at, insert_at, set, length-append, length-take, length-drop, take_of_length-le,
  length-keep-le, length-map, All, All-append, All-take, All-drop, All-keep, has, has-append,
  has_self, Uniq, Uniq-append, unique_by, has-take, has-of_take, has-drop, has-keep, Uniq-take,
  Uniq-drop, Uniq-keep, has-keep-not, unique_by-fresh, unique_by-Uniq, has-unique_by, has-drop-suc,
  has-remove_at, has-at, Uniq-remove_at, has-of_unique_by, All-of_has,
}
use Prim.Native.Nat.{bit_and}
use localchune.Match.Ber.{popcount32}
use localchune.Match.Popcount.Octets.{word, and_word}
use localchune.Match.Popcount.Tables.{
  ones, held_at, pairs_of, nibbles_of, count_of, pairs_table, nibbles_table, count_table,
  mask_table, ones_octet,
}

and_at : (m x y : ℕ) → x ≡ y → bit_and x m ≡ bit_and y m
and_at m x y e = ap (λ k. bit_and k m) e

-- What stands in the next byte does not reach through the masks.
pairs_at : (b c : ℕ) → b < 256 → c < 2 → bit_and (b / 2 + 128 * c) 0x55 ≡ bit_and (b / 2) 0x55
pairs_at b zero h l = and_at 0x55 _ _ (omega arith)
pairs_at b (suc zero) h l = ground (arith, held_at _ 256 b h pairs_table)
pairs_at b (suc (suc c)) h l = absurd (omega arith)

pairs_clear : (b c : ℕ) → b < 256 → bit_and (b / 2 + 128 * (c % 2)) 0x55 ≡ bit_and (b / 2) 0x55
pairs_clear b c h = pairs_at b (c % 2) h (omega arith)

pairs-le : (b : ℕ) → b < 256 → bit_and (b / 2) 0x55 ≤ b
pairs-le b h = ground (arith, held_at _ 256 b h pairs_table)

nibbles_at : (y c : ℕ) → y < 256 → c < 4 → bit_and (y / 4 + 64 * c) 0x33 ≡ bit_and (y / 4) 0x33
nibbles_at y zero h l = and_at 0x33 _ _ (omega arith)
nibbles_at y (suc zero) h l = ground (arith, held_at _ 256 y h nibbles_table)
nibbles_at y (suc (suc zero)) h l = ground (arith, held_at _ 256 y h nibbles_table)
nibbles_at y (suc (suc (suc zero))) h l = ground (arith, held_at _ 256 y h nibbles_table)
nibbles_at y (suc (suc (suc (suc c)))) h l = absurd (omega arith)

nibbles_clear : (y c : ℕ) → y < 256 → bit_and (y / 4 + 64 * (c % 4)) 0x33 ≡ bit_and (y / 4) 0x33
nibbles_clear y c h = nibbles_at y (c % 4) h (omega arith)

count_facts :
    (b : ℕ)
    → b < 256
    → (count_of (nibbles_of (pairs_of b)) ≡ ones 8 b)
      × (nibbles_of (pairs_of b) ≤ 68)
      × (nibbles_of (pairs_of b) % 16 ≤ 4)
      × (ones 8 b ≤ 8)
count_facts b h =
    let t = held_at _ 256 b h count_table in
    (ground (arith, t), ground (arith, t), ground (arith, t), ground (arith, t))

mask_low : (z : ℕ) → z < 256 → bit_and z 0x0f ≡ z % 16
mask_low z h = ground (arith, held_at _ 256 z h mask_table)

pairs_stage :
    (a b c d : ℕ)
    → a < 256
    → b < 256
    → c < 256
    → d < 256
    → word a b c d - bit_and (word a b c d / 2) 0x55555555
      ≡ word (pairs_of a) (pairs_of b) (pairs_of c) (pairs_of d)
pairs_stage a b c d ha hb hc hd =
    let shifted : word a b c d / 2
        ≡ word (a / 2 + 128 * (b % 2)) (b / 2 + 128 * (c % 2)) (c / 2 + 128 * (d % 2)) (d / 2) =
      omega arith in
    let masked =
      and_word (a / 2 + 128 * (b % 2)) (b / 2 + 128 * (c % 2)) (c / 2 + 128 * (d % 2)) (d / 2) 0x55
        (omega (arith, ha)) (omega (arith, hb)) (omega (arith, hc)) (omega arith) in
    rw shifted (
      omega (
        arith,
        masked,
        pairs_clear a b ha,
        pairs_clear b c hb,
        pairs_clear c d hc,
        pairs-le a ha,
        pairs-le b hb,
        pairs-le c hc,
        pairs-le d hd,
      ))

nibbles_stage :
    (a b c d : ℕ)
    → a < 256
    → b < 256
    → c < 256
    → d < 256
    → bit_and (word a b c d) 0x33333333 + bit_and (word a b c d / 4) 0x33333333
      ≡ word (nibbles_of a) (nibbles_of b) (nibbles_of c) (nibbles_of d)
nibbles_stage a b c d ha hb hc hd =
    let shifted : word a b c d / 4
        ≡ word (a / 4 + 64 * (b % 4)) (b / 4 + 64 * (c % 4)) (c / 4 + 64 * (d % 4)) (d / 4) =
      omega arith in
    let masked =
      and_word (a / 4 + 64 * (b % 4)) (b / 4 + 64 * (c % 4)) (c / 4 + 64 * (d % 4)) (d / 4) 0x33
        (omega (arith, ha)) (omega (arith, hb)) (omega (arith, hc)) (omega arith) in
    rw shifted (
      omega (
        arith,
        masked,
        and_word a b c d 0x33 ha hb hc (omega arith),
        nibbles_clear a b ha,
        nibbles_clear b c hb,
        nibbles_clear c d hc,
      ))

-- The sums of the nibbles do not run into the next byte.
count_stage :
    (a b c d : ℕ)
    → (a ≤ 68) × (a % 16 ≤ 4)
    → (b ≤ 68) × (b % 16 ≤ 4)
    → (c ≤ 68) × (c % 16 ≤ 4)
    → (d ≤ 68) × (d % 16 ≤ 4)
    → bit_and (word a b c d + word a b c d / 16) 0x0f0f0f0f
      ≡ word (count_of a) (count_of b) (count_of c) (count_of d)
count_stage a b c d (ha, la) (hb, lb) (hc, lc) (hd, ld) =
    let a' = a + a / 16 + 16 * (b % 16) in
    let b' = b + b / 16 + 16 * (c % 16) in
    let c' = c + c / 16 + 16 * (d % 16) in
    let d' = d + d / 16 in
    let sum : word a b c d + word a b c d / 16 ≡ word a' b' c' d' = omega arith in
    let masked =
      and_word a' b' c' d' 0x0f (omega (arith, ha, lb)) (omega (arith, hb, lc))
        (omega (arith, hc, ld)) (omega arith) in
    rw sum (
      omega (
        arith,
        masked,
        mask_low a' (omega (arith, ha, lb)),
        mask_low b' (omega (arith, hb, lc)),
        mask_low c' (omega (arith, hc, ld)),
        mask_low d' (omega (arith, hd)),
      ))

sum_stage :
    (a b c d : ℕ)
    → a ≤ 8
    → b ≤ 8
    → c ≤ 8
    → d ≤ 8
    → word a b c d * 0x01010101 % 2 ^ 32 / 2 ^ 24 ≡ a + b + c + d
sum_stage a b c d ha hb hc hd = omega (arith, ha, hb, hc, hd)

ones-word :
    (a b c d : ℕ)
    → a < 256
    → b < 256
    → c < 256
    → ones 32 (word a b c d) ≡ ones 8 a + ones 8 b + ones 8 c + ones 8 d
ones-word a b c d ha hb hc = omega (
  arith,
  ones_octet 24 a (b + 256 * (c + 256 * d)) ha,
  ones_octet 16 b (c + 256 * d) hb,
  ones_octet 8 c d hc,
)

popcount32-word :
    (a b c d : ℕ)
    → a < 256
    → b < 256
    → c < 256
    → d < 256
    → popcount32 (word a b c d) ≡ ones 32 (word a b c d)
unfolding popcount32
popcount32-word a b c d ha hb hc hd =
    let (ea, na, la, oa) = count_facts a ha in
    let (eb, nb, lb, ob) = count_facts b hb in
    let (ec, nc, lc, oc) = count_facts c hc in
    let (ed, nd, ld, od) = count_facts d hd in
    let small : (x : ℕ) → x < 256 → pairs_of x < 256 = λ x h. omega (arith, h) in
    rw
      (
        pairs_stage a b c d ha hb hc hd,
        nibbles_stage (pairs_of a) (pairs_of b) (pairs_of c) (pairs_of d) (small a ha) (small b hb)
            (small c hc) (small d hd),
        count_stage (nibbles_of (pairs_of a)) (nibbles_of (pairs_of b)) (nibbles_of (pairs_of c))
            (nibbles_of (pairs_of d)) (na, la) (nb, lb) (nc, lc) (nd, ld),
        ea,
        eb,
        ec,
        ed,
        ones-word a b c d ha hb hc,
      )
      (sum_stage (ones 8 a) (ones 8 b) (ones 8 c) (ones 8 d) oa ob oc od)

-- The multiplications and masks of `popcount32` count the bits of a word.
pub popcount32-ones : (x : ℕ) → x < 2 ^ 32 → popcount32 x ≡ ones 32 x
popcount32-ones x h =
    let a = x % 256 in
    let b = x / 256 % 256 in
    let c = x / 65536 % 256 in
    let d = x / 16777216 in
    let e : word a b c d ≡ x = omega arith in
    subst (λ k. popcount32 k ≡ ones 32 k) e
      (popcount32-word a b c d (omega arith) (omega arith) (omega arith) (omega (arith, h)))
