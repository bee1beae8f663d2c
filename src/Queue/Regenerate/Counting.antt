-- ===== src/Queue/Regenerate/Counting.antt =====
-- Lists of keys compared by length.
use localchune.Common.{
  ◌≤◌, ◌<◌, String, ◌≡◌, ◌≢◌, true, false, List, [], ◌∷◌, arith, if◌then◌else◌, same, length, All,
  has, Uniq,
}

-- A list of keys with all of its copies of one taken out.
without_key : String → List String → List String
without_key k [] = []
without_key k (x ∷ xs) = let rest = without_key k xs in if same x k then rest else x ∷ rest

length-without_key : (k : String) (xs : List String) → length (without_key k xs) ≤ length xs
unfolding without_key
length-without_key k [] = omega arith
length-without_key k (x ∷ xs) = ground (arith, length-without_key k xs)

length-without_key-lt :
    (k : String) (xs : List String) → has xs k ≡ true → length (without_key k xs) < length xs
unfolding without_key has
length-without_key-lt k [] h = cc
length-without_key-lt k (x ∷ xs) h =
    ground (arith, h, length-without_key k xs, length-without_key-lt k xs)

has-without_key :
    (k j : String) (xs : List String) → k ≢ j → has xs j ≡ true → has (without_key k xs) j ≡ true
unfolding without_key has
has-without_key k j [] n h = h
has-without_key k j (x ∷ xs) n h = ground (arith, n, h, has-without_key k j xs n)

-- Keys that differ are no more than the keys of a list that has them all.
pub length_of-Uniq :
    (ks xs : List String) → Uniq ks → All (λ k. has xs k ≡ true) ks → length ks ≤ length xs
unfolding has
length_of-Uniq [] xs u h = omega arith
length_of-Uniq (k ∷ ks) xs (n, u) (p, h) =
    omega
      (arith, length-without_key-lt k xs p, length_of-Uniq ks (without_key k xs) u (others ks n h))
  where
    others :
        (js : List String)
        → has js k ≡ false
        → All (λ j. has xs j ≡ true) js
        → All (λ j. has (without_key k xs) j ≡ true) js
    others [] n h = tt
    others (j ∷ js) n (p, h) =
        (has-without_key k j xs (λ e. ground (arith, n, e)) p, others js (ground (arith, n)) h)
