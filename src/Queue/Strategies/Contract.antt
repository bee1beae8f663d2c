-- ===== src/Queue/Strategies/Contract.antt =====
-- What every strategy promises the engine.
use localchune.Queue.Engine.Rows.{get_elem?-lt}
use localchune.Common.Reordered.{has-perm, Uniq-perm, length-perm}
use localchune.Queue.Reorder.Laws.{length-remove_at, get_elem?-some}
use localchune.Queue.Strategies.Walk.{
  seed_id, hash_seed, output_of, shuffled, pick_below, next_state, greedy_walk, shuffle_down,
  select, beats, walk_from, Score, swap_at, best_index, best_from,
}
use localchune.Queue.Strategies.{
  bpm_score, score, track_id_of, TrackFeatures, StrategyContext, Host,
}
use localchune.Common.{
  has-at, has-of_take, length-map, ℕ, zero, suc, ◌+◌, ◌-◌, ◌<◌, min, String, ◌≡◌, refl, sym, subst,
  ◌∙◌, ◌≢◌, inl, inr, Bool, true, Option, some, List, [], ◌∷◌, map, arith, Option-cases, length,
  get_elem?, take, remove_at, set, length-take, has, Uniq, unique_by, Uniq-take, unique_by-Uniq,
  has-remove_at, Uniq-remove_at,
}
use mathlib.Core.List.{Perm}
use mathlib.Core.List.Perm
use localchune.Queue.Model.{AutoMethod}

-- The candidates with a second row of one file dropped.
abbrev pub distinct : StrategyContext → List TrackFeatures
distinct ctx = unique_by track_id_of [] ctx.candidates

-- Some of the offered ids, none twice, and as many of the wanted as the candidates allow.
pub record IsSelection (wanted : ℕ) (pool : List TrackFeatures) (out : List String) : Type 0 where
  pub size : length out ≡ min wanted (length pool)
  pub once : Uniq out
  pub offered : (k : String) → has out k ≡ true → has (map track_id_of pool) k ≡ true

module _ {ℓ} {A : Type ℓ} (less : A → A → Bool) where
  best_from-lt :
      (i best : ℕ) (x : A) (ys : List A) → best < i → best_from less i best x ys < i + length ys
  unfolding best_from
  best_from-lt i best x [] h = omega arith
  best_from-lt i best x (y ∷ ys) h = ground (
    arith,
    best_from-lt (suc i) i y ys (omega arith),
    best_from-lt (suc i) best x ys (omega arith),
  )

  best_index-lt : (x : A) (xs : List A) → best_index less (x ∷ xs) < length (x ∷ xs)
  unfolding best_index
  best_index-lt x xs = omega (arith, best_from-lt 1 0 x xs (omega arith))

pick-IsSelection :
    (want best : ℕ) (pool : List TrackFeatures) (chosen : TrackFeatures) (out : List String)
    → Uniq (map track_id_of pool)
    → get_elem? pool best ≡ some chosen
    → IsSelection want (remove_at best pool) out
    → IsSelection (suc want) pool (chosen.file_id ∷ out)
unfolding has
pick-IsSelection want best pool chosen out u here rest =
    let (once, gone) = Uniq-remove_at track_id_of best pool u here in
    record {
      size =
          omega (arith, rest.size, length-remove_at best pool (get_elem?-lt best pool chosen here));
      once = (ground (arith, rest.offered chosen.file_id), rest.once);
      offered = λ k h. ground (
        arith,
        rest.offered k,
        has-remove_at track_id_of best pool k,
        has-at track_id_of best pool here,
      );
    }

module _ (host : Host) (score_of : Score) where
  walk_from-IsSelection :
      (want : ℕ) (seed : Option TrackFeatures) (pool : List TrackFeatures)
      → Uniq (map track_id_of pool)
      → IsSelection want pool (walk_from host score_of want seed pool)
  unfolding walk_from has
  walk_from-IsSelection zero seed pool u = record {
    size = omega arith;
    once = tt;
    offered = λ k h. cc;
  }
  walk_from-IsSelection (suc want) seed [] u = record {
    size = omega arith;
    once = tt;
    offered = λ k h. cc;
  }
  walk_from-IsSelection (suc want) seed (x ∷ xs) u =
      let pool = x ∷ xs in
      let best = best_index (beats host score_of seed) pool in
      let (chosen, here) =
        get_elem?-some best pool (best_index-lt (beats host score_of seed) x xs) in
      let (once, gone) = Uniq-remove_at track_id_of best pool u here in
      rw (here, walk_from)
        (pick-IsSelection want best pool chosen
          (walk_from host score_of want (some chosen) (remove_at best pool)) u here
          (walk_from-IsSelection want (some chosen) (remove_at best pool) once))

module _ {ℓ} {A : Type ℓ} where
  get_elem?-set :
      (xs : List A) (i j : ℕ) (y : A) → get_elem? xs j ≡ some y → get_elem? (set xs i y) j ≡ some y
  get_elem?-set [] i j y h = h
  get_elem?-set (x ∷ xs) zero zero y h = refl
  get_elem?-set (x ∷ xs) zero (suc j) y h = h
  get_elem?-set (x ∷ xs) (suc i) zero y h = h
  get_elem?-set (x ∷ xs) (suc i) (suc j) y h = get_elem?-set xs i j y h

  set-perm :
      (xs : List A) (i : ℕ) (x y : A) → get_elem? xs i ≡ some x → Perm (x ∷ set xs i y) (y ∷ xs)
  set-perm [] i x y h = cc
  set-perm (z ∷ xs) zero x y h =
      let e : z ≡ x = cc in subst (λ w. Perm (x ∷ y ∷ xs) (y ∷ w ∷ xs)) (sym e) (Perm.swap y x xs)
  set-perm (z ∷ xs) (suc i) x y h =
      Perm.trans (Perm.swap z x (set xs i y))
        (Perm.trans (Perm.cons z (set-perm xs i x y h)) (Perm.swap y z xs))

  swap_at-perm : (xs : List A) (i j : ℕ) → Perm (swap_at xs i j) xs
  unfolding swap_at
  swap_at-perm xs i j = elim (Option-cases (get_elem? xs i)) [
    | inl gone ↦ rw (gone, swap_at) (Perm.refl xs)
    | inr (x, p) ↦ elim (Option-cases (get_elem? xs j)) [
      | inl gone ↦ rw (p, swap_at, gone) (Perm.refl xs)
      | inr (y, q) ↦
          rw (p, swap_at, q)
            (Perm.cons_inv (
              Perm.trans (set-perm (set xs i y) j y x (get_elem?-set xs i j y q))
                (set-perm xs i x y p)))
    ]
  ]

  shuffle_down-perm : (i state : ℕ) (pool : List A) → Perm (shuffle_down i state pool) pool
  unfolding shuffle_down
  shuffle_down-perm zero state pool = Perm.refl pool
  shuffle_down-perm (suc i) state pool =
      let a = next_state state in
      let swapped = swap_at pool (suc i) (pick_below (output_of a) (suc i)) in
      Perm.trans (shuffle_down-perm i a swapped)
        (swap_at-perm pool (suc i) (pick_below (output_of a) (suc i)))

-- The first elements of a permutation of the pool are a selection.
take-IsSelection :
    (want : ℕ) (pool mixed : List TrackFeatures)
    → Uniq (map track_id_of pool)
    → Perm mixed pool
    → IsSelection want pool (map track_id_of (take want mixed))
take-IsSelection want pool mixed u p =
    let keys = Perm.map track_id_of p in
    record {
      size = omega (
        arith,
        length-map {0, 0} track_id_of (take want mixed),
        length-take {0} want mixed,
        length-perm p,
      );
      once = Uniq-take track_id_of want mixed (Uniq-perm (Perm.symm keys) u);
      offered = λ k h. sym (has-perm keys k) ∙ has-of_take track_id_of want mixed k h;
    }

-- Whatever the seed and the candidates, each method but off returns candidates' ids, none twice,
-- and as many as are wanted or else one for each file among the candidates.
pub select-IsSelection :
    (host : Host) (method : AutoMethod) (ctx : StrategyContext)
    → method ≢ AutoMethod.off
    → IsSelection ctx.need (distinct ctx) (select host method ctx)
unfolding select greedy_walk shuffled
select-IsSelection host AutoMethod.off ctx h = absurd (h refl)
select-IsSelection host AutoMethod.harmonic ctx h =
    walk_from-IsSelection host score ctx.need ctx.seed (distinct ctx)
      (unique_by-Uniq track_id_of [] ctx.candidates)
select-IsSelection host AutoMethod.bpm ctx h =
    walk_from-IsSelection host bpm_score ctx.need ctx.seed (distinct ctx)
      (unique_by-Uniq track_id_of [] ctx.candidates)
select-IsSelection host AutoMethod.shuffle ctx h =
    take-IsSelection ctx.need (distinct ctx) (shuffled ctx)
      (unique_by-Uniq track_id_of [] ctx.candidates)
      (shuffle_down-perm (length (distinct ctx) - 1) (hash_seed (seed_id ctx.seed)) (distinct ctx))
