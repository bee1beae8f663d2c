-- ===== src/Queue/Reorder/Laws.antt =====
-- Where a move puts every item.
use localchune.Common.Reordered.{length-perm}
use localchune.Common.{
  ℕ, zero, suc, ◌+◌, ◌-◌, ◌≤◌, ◌<◌, min, ◌≡◌, refl, sym, ap, subst, ◌∙◌, ◌≡⟨◌⟩◌, ◌∎, ◌≢◌, ◌⊎◌, inl,
  inr, none, some, List, [], ◌∷◌, arith, ◌==◌, Bool-cases, Option-cases, same, length, get_elem?,
  remove_at, insert_at,
}
use localchune.Common.Number.{ℤ, pos, Number, int, whole_between}
use localchune.Queue.Reorder.{clamp, move_to, move_from, move_item}
use mathlib.Core.List.{Perm}
use mathlib.Core.List.Perm

clamp-lt : (n : ℕ) (to : ℤ) → 0 < n → clamp (n - 1) to < n
unfolding clamp
clamp-lt n to h = ground arith

module _ {ℓ} {A : Type ℓ} where
  remove_at-insert_at :
      (i : ℕ) (y : A) (xs : List A) → i ≤ length xs → remove_at i (insert_at i y xs) ≡ xs
  remove_at-insert_at zero y xs h = refl
  remove_at-insert_at (suc i) y [] h = absurd (omega arith)
  remove_at-insert_at (suc i) y (x ∷ xs) h = ap (◌∷◌ x) (remove_at-insert_at i y xs (omega arith))

  get_elem?-insert_at :
      (i : ℕ) (y : A) (xs : List A) → i ≤ length xs → get_elem? (insert_at i y xs) i ≡ some y
  get_elem?-insert_at zero y xs h = refl
  get_elem?-insert_at (suc i) y [] h = absurd (omega arith)
  get_elem?-insert_at (suc i) y (x ∷ xs) h = get_elem?-insert_at i y xs (omega arith)

  insert_at-remove_at :
      (i : ℕ) (y : A) (xs : List A) → get_elem? xs i ≡ some y → insert_at i y (remove_at i xs) ≡ xs
  insert_at-remove_at i y [] h = cc
  insert_at-remove_at zero y (x ∷ xs) h = cc
  insert_at-remove_at (suc i) y (x ∷ xs) h = ap (◌∷◌ x) (insert_at-remove_at i y xs h)

  pub length-remove_at :
      (i : ℕ) (xs : List A) → i < length xs → length (remove_at i xs) + 1 ≡ length xs
  length-remove_at i [] h = absurd (omega arith)
  length-remove_at zero (x ∷ xs) h = omega arith
  length-remove_at (suc i) (x ∷ xs) h = omega (arith, length-remove_at i xs (omega arith))

  length-insert_at : (i : ℕ) (y : A) (xs : List A) → length (insert_at i y xs) ≡ length xs + 1
  length-insert_at zero y xs = omega arith
  length-insert_at (suc i) y [] = omega arith
  length-insert_at (suc i) y (x ∷ xs) = omega (arith, length-insert_at i y xs)

  pub get_elem?-some : (i : ℕ) (xs : List A) → i < length xs → (y : A) × (get_elem? xs i ≡ some y)
  get_elem?-some i [] h = absurd (omega arith)
  get_elem?-some zero (x ∷ xs) h = (x, refl)
  get_elem?-some (suc i) (x ∷ xs) h = get_elem?-some i xs (omega arith)

  insert_at-perm : (i : ℕ) (y : A) (xs : List A) → Perm (insert_at i y xs) (y ∷ xs)
  insert_at-perm zero y xs = Perm.refl (y ∷ xs)
  insert_at-perm (suc i) y [] = Perm.refl (y ∷ [])
  insert_at-perm (suc i) y (x ∷ xs) =
      Perm.trans (Perm.cons x (insert_at-perm i y xs)) (Perm.swap y x xs)

  -- The item at `from` stands at `dest`, the others keep their order, and nothing is lost.
  pub record IsMoved (list : List A) (from dest : ℕ) (out : List A) : Type ℓ where
    pub landed : get_elem? out dest ≡ get_elem? list from
    pub others : remove_at dest out ≡ remove_at from list
    pub size : length out ≡ length list
    pub same_items : Perm out list

  move_to-IsMoved :
      (list : List A) (from dest : ℕ)
      → from < length list
      → dest < length list
      → IsMoved list from dest (move_to list from dest)
  unfolding move_to
  move_to-IsMoved list from dest h k =
      let (y, e) = get_elem?-some from list h in
      let room : dest ≤ length (remove_at from list) =
        omega (arith, length-remove_at from list h) in
      let back = insert_at-remove_at from y list e in
      rw (e, move_to)
        (record {
          landed = rw e (get_elem?-insert_at dest y (remove_at from list) room);
          others = remove_at-insert_at dest y (remove_at from list) room;
          size =
              omega (
                arith,
                length-insert_at dest y (remove_at from list),
                length-remove_at from list h,
              );
          same_items = Perm.trans (insert_at-perm dest y (remove_at from list)) (
              Perm.symm (
                subst (λ xs. Perm xs (y ∷ remove_at from list)) back
                  (insert_at-perm from y (remove_at from list))));
        })

  move_from-IsMoved :
      (list : List A) (from dest : ℕ)
      → from < length list
      → dest < length list
      → IsMoved list from dest (move_from list from dest)
  unfolding move_from
  move_from-IsMoved list from dest h k = elim (Bool-cases (dest == from)) [
    | inl same ↦
        let e : dest ≡ from = ground arith in
        rw (same, e)
          (record { landed = refl; others = refl; size = refl; same_items = Perm.refl list })
    | inr other ↦ rw other (move_to-IsMoved list from dest h k)
  ]

  pub move_item-IsMoved :
      (list : List A) (i : ℕ) (to : ℤ)
      → i < length list
      → IsMoved list i (clamp (length list - 1) to) (move_item list (int (pos i)) (int to))
  unfolding move_item
  move_item-IsMoved list i to h =
      let e : whole_between 0 (length list) (int (pos i)) ≡ some i = ground arith in
      rw (e, move_item)
        (move_from-IsMoved list i (clamp (length list - 1) to) h
          (clamp-lt (length list) to (omega arith)))

  -- Every other source leaves the list as it is, and so does a destination that is no whole number.
  pub move_item-rejected :
      (list : List A) (from to : Number)
      → (whole_between 0 (length list) from ≡ none) ⊎ ((z : ℤ) → to ≢ int z)
      → move_item list from to ≡ list
  unfolding move_item
  move_item-rejected list from (int z) (inl h) = rw (h, move_item)
  move_item-rejected list from (int z) (inr h) = absurd (h z refl)
  move_item-rejected list from _ h = refl

  IsMoved-unique :
      {list out out' : List A} {from dest : ℕ} (y : A)
      → get_elem? list from ≡ some y
      → IsMoved list from dest out
      → IsMoved list from dest out'
      → out ≡ out'
  IsMoved-unique {list} {out} {out'} {from} {dest} y e m m' =
      out
      ≡⟨ sym (insert_at-remove_at dest y out (m.landed ∙ e)) ⟩ insert_at dest y (remove_at dest out)
      ≡⟨ ap (insert_at dest y) (m.others ∙ sym m'.others) ⟩ insert_at dest y (remove_at dest out')
      ≡⟨ insert_at-remove_at dest y out' (m'.landed ∙ e) ⟩ out' ∎

  -- A move between two rows of the list is undone by the move back.
  pub move_item-move_item :
      (list : List A) (i j : ℕ)
      → i < length list
      → j < length list
      → move_item (move_item list (int (pos i)) (int (pos j))) (int (pos j)) (int (pos i)) ≡ list
  unfolding clamp
  move_item-move_item list i j h k =
      let out = move_item list (int (pos i)) (int (pos j)) in
      let (y, e) = get_elem?-some i list h in
      let cj : min j (length list - 1) ≡ j = omega arith in
      let m : IsMoved list i j out =
        subst (λ d. IsMoved list i d out) cj (move_item-IsMoved list i (pos j) h) in
      let ci : min i (length out - 1) ≡ i = omega (arith, m.size) in
      let back : IsMoved out j i (move_item out (int (pos j)) (int (pos i))) =
        subst (λ d. IsMoved out j d (move_item out (int (pos j)) (int (pos i)))) ci
          (move_item-IsMoved out j (pos i) (omega (arith, m.size))) in
      IsMoved-unique y (m.landed ∙ e) back (record {
        landed = sym m.landed;
        others = sym m.others;
        size = sym m.size;
        same_items = Perm.symm m.same_items;
      })

  move_to-perm : (list : List A) (from dest : ℕ) → Perm (move_to list from dest) list
  unfolding move_to
  move_to-perm list from dest = elim (Option-cases (get_elem? list from)) [
    | inl gone ↦ rw (gone, move_to) (Perm.refl list)
    | inr (y, e) ↦
        let back = insert_at-remove_at from y list e in
        let rest = remove_at from list in
        rw (e, move_to)
          (Perm.trans (insert_at-perm dest y rest)
            (Perm.symm (subst (λ xs. Perm xs (y ∷ rest)) back (insert_at-perm from y rest))))
  ]

  move_from-perm : (list : List A) (from dest : ℕ) → Perm (move_from list from dest) list
  unfolding move_from
  move_from-perm list from dest = elim (Bool-cases (dest == from)) [
    | inl here ↦ rw here (Perm.refl list)
    | inr other ↦ rw other (move_to-perm list from dest)
  ]

  -- Any move, accepted or not, is a permutation.
  pub move_item-perm : (list : List A) (from to : Number) → Perm (move_item list from to) list
  unfolding move_item
  move_item-perm list from (int z) = elim (Option-cases (whole_between 0 (length list) from)) [
    | inl out ↦ rw (out, move_item) (Perm.refl list)
    | inr (i, e) ↦ rw (e, move_item) (move_from-perm list i (clamp (length list - 1) z))
  ]
  move_item-perm list from _ = Perm.refl list

  pub length-move_item :
      (list : List A) (from to : Number) → length (move_item list from to) ≡ length list
  length-move_item list from to = length-perm (move_item-perm list from to)
