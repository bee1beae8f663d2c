-- ===== src/Match/Popcount/Tables.antt =====
-- The stages of `popcount32` on one byte, checked for every byte.
use localchune.Common.{
  ℕ, zero, suc, ◌+◌, ◌-◌, ◌*◌, ◌/◌, ◌%◌, ◌<◌, ◌≡◌, refl, ap, Bool, true, ◌&&◌, arith, ℕ_discrete,
  leb, ◌==◌,
}
use Prim.Native.Nat.{bit_and}

-- Whether a test holds of the first `n` numbers.
pub holds_up_to : (ℕ → Bool) → ℕ → Bool
holds_up_to test zero = true
holds_up_to test (suc n) = holds_up_to test n && test n

pub held_at : (test : ℕ → Bool) (n k : ℕ) → k < n → holds_up_to test n ≡ true → test k ≡ true
unfolding holds_up_to
held_at test zero k l h = absurd (omega (arith, l))
held_at test (suc n) k l h = elim (ℕ_discrete k n) [
  | yes e ↦ rw e (ground (arith, h))
  | no e ↦ held_at test n k (omega (arith, l, e)) (ground (arith, h))
]

-- The bits of a word, one by one.
unfoldable pub ones : ℕ → ℕ → ℕ
ones zero x = 0
ones (suc n) x = x % 2 + ones n (x / 2)

pub ones_octet :
    (n p q : ℕ)
    → p < 256
    → ones (suc (suc (suc (suc (suc (suc (suc (suc n)))))))) (p + 256 * q) ≡ ones 8 p + ones n q
unfolding ones
ones_octet n p q h =
    let e : (p + 256 * q) / 2 / 2 / 2 / 2 / 2 / 2 / 2 / 2 ≡ q = omega arith in
    omega (arith, ap (ones n) e)

-- One byte in each of the three stages.
abbrev pub pairs_of : ℕ → ℕ
pairs_of b = b - bit_and (b / 2) 0x55

abbrev pub nibbles_of : ℕ → ℕ
nibbles_of y = bit_and y 0x33 + bit_and (y / 4) 0x33

abbrev pub count_of : ℕ → ℕ
count_of n = (n + n / 16) % 16

pub pairs_table :
    holds_up_to
      (λ b. bit_and (b / 2 + 128) 0x55 == bit_and (b / 2) 0x55 && leb (bit_and (b / 2) 0x55) b)
      256
    ≡ true
unfolding holds_up_to
pairs_table = refl

pub nibbles_table :
    holds_up_to
      (λ y.
        bit_and (y / 4 + 64) 0x33 == bit_and (y / 4) 0x33
        && bit_and (y / 4 + 128) 0x33 == bit_and (y / 4) 0x33
        && bit_and (y / 4 + 192) 0x33 == bit_and (y / 4) 0x33)
      256
    ≡ true
unfolding holds_up_to
nibbles_table = refl

pub count_table :
    holds_up_to
      (λ b.
        count_of (nibbles_of (pairs_of b)) == ones 8 b
        && leb (nibbles_of (pairs_of b)) 68
        && leb (nibbles_of (pairs_of b) % 16) 4
        && leb (ones 8 b) 8)
      256
    ≡ true
unfolding holds_up_to ones
count_table = refl

pub mask_table : holds_up_to (λ z. bit_and z 0x0f == z % 16) 256 ≡ true
unfolding holds_up_to
mask_table = refl
