-- ===== src/Upload/Head/Rounds.antt =====
-- src/lib/head-check.ts: the loop over the tags ends by itself.
use localchune.Common.{
  ℕ, zero, suc, ◌≤◌, ◌≡◌, refl, List, [], ◌∷◌, arith, length, drop, length-drop,
}
use localchune.Upload.Head.{skip_tags, tag_length, starts_with}

tag_length-large : (head : List ℕ) → 10 ≤ tag_length head
unfolding tag_length
tag_length-large [] = omega arith
tag_length-large (a ∷ []) = omega arith
tag_length-large (a ∷ b ∷ []) = omega arith
tag_length-large (a ∷ b ∷ c ∷ []) = omega arith
tag_length-large (a ∷ b ∷ c ∷ d ∷ []) = omega arith
tag_length-large (a ∷ b ∷ c ∷ d ∷ e ∷ []) = omega arith
tag_length-large (a ∷ b ∷ c ∷ d ∷ e ∷ f ∷ []) = omega arith
tag_length-large (a ∷ b ∷ c ∷ d ∷ e ∷ f ∷ g ∷ []) = omega arith
tag_length-large (a ∷ b ∷ c ∷ d ∷ e ∷ f ∷ g ∷ h ∷ []) = omega arith
tag_length-large (a ∷ b ∷ c ∷ d ∷ e ∷ f ∷ g ∷ h ∷ i ∷ []) = omega arith
tag_length-large (a ∷ b ∷ c ∷ d ∷ e ∷ f ∷ g ∷ h ∷ i ∷ j ∷ rest) = omega arith

-- As many rounds as there are bytes are enough: any number above it gives the same.
skip_tags-enough :
    (n m : ℕ) (head : List ℕ)
    → length head ≤ n
    → length head ≤ m
    → skip_tags n head ≡ skip_tags m head
unfolding skip_tags starts_with
skip_tags-enough zero zero head p q = refl
skip_tags-enough zero (suc m) [] p q = refl
skip_tags-enough zero (suc m) (x ∷ head) p q = absurd (omega (arith, p))
skip_tags-enough (suc n) zero [] p q = refl
skip_tags-enough (suc n) zero (x ∷ head) p q = absurd (omega (arith, q))
skip_tags-enough (suc n) (suc m) head p q =
    let left = length-drop (tag_length head) head in
    let large = tag_length-large head in
    let same_rest =
      skip_tags-enough n m (drop (tag_length head) head) (omega (arith, left, large, p))
        (omega (arith, left, large, q)) in
    rw same_rest refl
