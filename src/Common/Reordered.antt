-- ===== src/Common/Reordered.antt =====
-- Keys without repetition in another order.
use localchune.Common.{suc, ap, length, String, ◌≡◌, refl, ◌∙◌, List, [], ◌∷◌, arith, has, Uniq}
use mathlib.Core.HLevel.{×_prop, Unit-prop}
use native.Mathlib.Nat.{ℕ_set}
use mathlib.Core.Bool.{Bool-set}
use mathlib.Core.Logic.{∥∥₁_elim}
use mathlib.Core.List.{Perm, Permᴰ}

Uniq-prop : (ks : List String) → IsProp (Uniq ks)
Uniq-prop [] = Unit-prop
Uniq-prop (k ∷ ks) = ×_prop (Bool-set _ _) (Uniq-prop ks)

has-permᴰ : {xs ys : List String} → Permᴰ xs ys → (k : String) → has xs k ≡ has ys k
unfolding has
has-permᴰ Permᴰ.nil k = refl
has-permᴰ (Permᴰ.cons e p) k = ground (arith, has-permᴰ p k)
has-permᴰ (Permᴰ.swap e e') k = ground arith
has-permᴰ (Permᴰ.trans p q) k = has-permᴰ p k ∙ has-permᴰ q k

Uniq-permᴰ : {xs ys : List String} → Permᴰ xs ys → Uniq xs → Uniq ys
unfolding has
Uniq-permᴰ Permᴰ.nil u = u
Uniq-permᴰ (Permᴰ.cons {a} {b} e p) (h, u) = (ground (arith, has-permᴰ p a), Uniq-permᴰ p u)
Uniq-permᴰ (Permᴰ.swap e e') u = ground arith
Uniq-permᴰ (Permᴰ.trans p q) u = Uniq-permᴰ q (Uniq-permᴰ p u)

pub has-perm : {xs ys : List String} → Perm xs ys → (k : String) → has xs k ≡ has ys k
has-perm {xs} {ys} p k = ∥∥₁_elim p (Bool-set _ _) (λ q. has-permᴰ q k)

pub Uniq-perm : {xs ys : List String} → Perm xs ys → Uniq xs → Uniq ys
Uniq-perm {xs} {ys} p u = ∥∥₁_elim p (Uniq-prop ys) (λ q. Uniq-permᴰ q u)

module _ {ℓ} {A : Type ℓ} where
  length-permᴰ : {xs ys : List A} → Permᴰ xs ys → length xs ≡ length ys
  length-permᴰ Permᴰ.nil = refl
  length-permᴰ (Permᴰ.cons e p) = ap suc (length-permᴰ p)
  length-permᴰ (Permᴰ.swap e e') = refl
  length-permᴰ (Permᴰ.trans p q) = length-permᴰ p ∙ length-permᴰ q

  pub length-perm : {xs ys : List A} → Perm xs ys → length xs ≡ length ys
  length-perm p = ∥∥₁_elim p (ℕ_set _ _) length-permᴰ
