-- ===== src/Common/Keys.antt =====
-- JavaScript's `Set<string>` as the list of what was added, and lists without a repeated key.
use Prim.Native.Nat.{ℕ, zero, suc}
use Prim.Native.String.{String}
use mathlib.Core.Path.{◌≡◌, refl}
use mathlib.Core.Logic.{ite}
use mathlib.Core.Bool.{Bool, true, false, ◌||◌, not}
use mathlib.Core.Option.{some}
use mathlib.Core.List.{List, [], ◌∷◌, ◌++◌, map}
use native.Mathlib.Omega.{arith}
use localchune.Common.Tests.{dec_str, if◌then◌else◌, same}
use localchune.Common.Lists.{keep, take, drop, get_elem?, remove_at, All}

-- `set.has(k)`.
unfoldable pub has : List String → String → Bool
has [] k = false
has (x ∷ xs) k = ite (dec_str x k) true (has xs k)

pub has-append : (xs ys : List String) (k : String) → has (xs ++ ys) k ≡ (has xs k || has ys k)
unfolding has
has-append [] ys k = refl
has-append (x ∷ xs) ys k = ground (arith, has-append xs ys k)

pub has_self : (xs : List String) (k : String) → has (k ∷ xs) k ≡ true
unfolding has
has_self xs k = ground arith

-- No key occurs twice.
abbrev pub Uniq : List String → Type 0
Uniq [] = Unit
Uniq (k ∷ ks) = (has ks k ≡ false) × Uniq ks

pub Uniq-append :
    (xs ys : List String) → Uniq xs → Uniq ys → All (λ x. has ys x ≡ false) xs → Uniq (xs ++ ys)
Uniq-append [] ys h k d = k
Uniq-append (x ∷ xs) ys (p, h) k (q, d) =
    (ground (arith, has-append xs ys x), Uniq-append xs ys h k d)

module _ {ℓ} {A : Type ℓ} (key : A → String) where
  -- The loop that pushes the elements whose key it has not seen.
  unfoldable pub unique_by : List String → List A → List A
  unique_by seen [] = []
  unique_by seen (x ∷ xs) =
      let skip = unique_by seen xs in
      let push = x ∷ unique_by (key x ∷ seen) xs in if has seen (key x) then skip else push

  pub has-take :
      (n : ℕ) (xs : List A) (k : String)
      → has (map key xs) k ≡ false
      → has (map key (take n xs)) k ≡ false
  unfolding has
  has-take zero xs k h = refl
  has-take (suc n) [] k h = refl
  has-take (suc n) (x ∷ xs) k h = ground (arith, has-take n xs k)

  pub has-of_take :
      (n : ℕ) (xs : List A) (k : String)
      → has (map key (take n xs)) k ≡ true
      → has (map key xs) k ≡ true
  unfolding has
  has-of_take zero xs k h = cc
  has-of_take (suc n) [] k h = h
  has-of_take (suc n) (x ∷ xs) k h = ground (arith, has-of_take n xs k)

  pub has-drop :
      (n : ℕ) (xs : List A) (k : String)
      → has (map key xs) k ≡ false
      → has (map key (drop n xs)) k ≡ false
  unfolding has
  has-drop zero xs k h = h
  has-drop (suc n) [] k h = refl
  has-drop (suc n) (x ∷ xs) k h = has-drop n xs k (ground arith)

  pub has-keep :
      (p : A → Bool) (xs : List A) (k : String)
      → has (map key xs) k ≡ false
      → has (map key (keep p xs)) k ≡ false
  unfolding has
  has-keep p [] k h = refl
  has-keep p (x ∷ xs) k h = ground (arith, has-keep p xs k)

  pub Uniq-take : (n : ℕ) (xs : List A) → Uniq (map key xs) → Uniq (map key (take n xs))
  Uniq-take zero xs h = tt
  Uniq-take (suc n) [] h = tt
  Uniq-take (suc n) (x ∷ xs) (p, h) = (has-take n xs (key x) p, Uniq-take n xs h)

  pub Uniq-drop : (n : ℕ) (xs : List A) → Uniq (map key xs) → Uniq (map key (drop n xs))
  Uniq-drop zero xs h = h
  Uniq-drop (suc n) [] h = tt
  Uniq-drop (suc n) (x ∷ xs) (p, h) = Uniq-drop n xs h

  pub Uniq-keep : (p : A → Bool) (xs : List A) → Uniq (map key xs) → Uniq (map key (keep p xs))
  Uniq-keep p [] h = tt
  Uniq-keep p (x ∷ xs) (q, h) = ground (arith, has-keep p xs (key x) q, Uniq-keep p xs h)

  -- The filter `key(e) !== k` leaves no `k`.
  pub has-keep-not :
      (k : String) (xs : List A) → has (map key (keep (λ x. not (same (key x) k)) xs)) k ≡ false
  unfolding has
  has-keep-not k [] = refl
  has-keep-not k (x ∷ xs) = ground (arith, has-keep-not k xs)

  pub unique_by-fresh :
      (seen : List String) (xs : List A) (k : String)
      → has seen k ≡ true
      → has (map key (unique_by seen xs)) k ≡ false
  unfolding has unique_by
  unique_by-fresh seen [] k h = refl
  unique_by-fresh seen (x ∷ xs) k h =
      ground (arith, unique_by-fresh seen xs k, unique_by-fresh (key x ∷ seen) xs k)

  pub unique_by-Uniq : (seen : List String) (xs : List A) → Uniq (map key (unique_by seen xs))
  unfolding unique_by
  unique_by-Uniq seen [] = tt
  unique_by-Uniq seen (x ∷ xs) = ground (
    arith,
    unique_by-Uniq seen xs,
    unique_by-Uniq (key x ∷ seen) xs,
    unique_by-fresh (key x ∷ seen) xs (key x) (has_self seen (key x)),
  )

  pub has-unique_by :
      (seen : List String) (xs : List A) (k : String)
      → has (map key xs) k ≡ false
      → has (map key (unique_by seen xs)) k ≡ false
  unfolding has unique_by
  has-unique_by seen [] k h = refl
  has-unique_by seen (x ∷ xs) k h =
      ground (arith, has-unique_by seen xs k, has-unique_by (key x ∷ seen) xs k)

  -- What stands behind an element does not have its key.
  pub has-drop-suc :
      (i : ℕ) (xs : List A) {x : A}
      → Uniq (map key xs)
      → get_elem? xs i ≡ some x
      → has (map key (drop (suc i) xs)) (key x) ≡ false
  has-drop-suc i [] u h = cc
  has-drop-suc zero (x ∷ xs) u h = ground arith
  has-drop-suc (suc i) (x ∷ xs) (p, u) h = has-drop-suc i xs u h

  pub has-remove_at :
      (i : ℕ) (xs : List A) (k : String)
      → has (map key (remove_at i xs)) k ≡ true
      → has (map key xs) k ≡ true
  unfolding has
  has-remove_at i [] k h = h
  has-remove_at zero (x ∷ xs) k h = ground arith
  has-remove_at (suc i) (x ∷ xs) k h = ground (arith, has-remove_at i xs k)

  -- The key of an element is among the keys.
  pub has-at :
      (i : ℕ) (xs : List A) {x : A} → get_elem? xs i ≡ some x → has (map key xs) (key x) ≡ true
  unfolding has
  has-at i [] h = cc
  has-at zero (x ∷ xs) h = ground arith
  has-at (suc i) (x ∷ xs) h = ground (arith, has-at i xs h)

  -- Without the element at an index its key is gone, and no other comes twice.
  pub Uniq-remove_at :
      (i : ℕ) (xs : List A) {x : A}
      → Uniq (map key xs)
      → get_elem? xs i ≡ some x
      → Uniq (map key (remove_at i xs)) × (has (map key (remove_at i xs)) (key x) ≡ false)
  unfolding has
  Uniq-remove_at i [] u h = cc
  Uniq-remove_at zero (x ∷ xs) (p, u) h = ground arith
  Uniq-remove_at (suc i) (x ∷ xs) {x = y} (p, u) h =
      ground (arith, Uniq-remove_at i xs u h, has-remove_at i xs (key x), has-at i xs h)

  pub has-of_unique_by :
      (seen : List String) (xs : List A) (k : String)
      → has (map key (unique_by seen xs)) k ≡ true
      → has (map key xs) k ≡ true
  unfolding has unique_by
  has-of_unique_by seen [] k h = h
  has-of_unique_by seen (x ∷ xs) k h =
      ground (arith, has-of_unique_by seen xs k, has-of_unique_by (key x ∷ seen) xs k)

pub All-of_has :
    (xs ys : List String)
    → ((k : String) → has xs k ≡ true → has ys k ≡ false)
    → All (λ x. has ys x ≡ false) xs
unfolding has
All-of_has [] ys h = tt
All-of_has (x ∷ xs) ys h = (h x (has_self xs x), All-of_has xs ys (λ k p. h k (ground arith)))
