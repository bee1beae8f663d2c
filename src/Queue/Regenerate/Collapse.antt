-- ===== src/Queue/Regenerate/Collapse.antt =====
-- One row per recording.
use localchune.Queue.Engine.Rows.{get_elem?-lt, get_elem?-append_left}
use localchune.Queue.Regenerate.{
  collapse_by_recording, preferred_copy, collapse_from, better_at, seen_at,
}
use localchune.Queue.Model.{recording_of}
use localchune.Common.{
  ℕ, zero, suc, String, ◌≡◌, refl, sym, ap, subst, ◌∙◌, ◌≢◌, inl, inr, true, false, ◌||◌, none,
  some, List, [], ◌∷◌, ◌++◌, arith, ℕ_discrete, Bool-cases, Option-cases, dec_str, length,
  get_elem?, set, has, has-append, Uniq, Uniq-append, All-of_has,
}
use localchune.Queue.Strategies.{Host, TrackFeatures}

-- The known recordings of the rows, in their order.
abbrev pub recs : List TrackFeatures → List String
recs [] = []
recs (t ∷ ts) = elim (recording_of t.identity) [ none ↦ recs ts | some r ↦ r ∷ recs ts ]

recs-free :
    (ts : List TrackFeatures) (c : TrackFeatures)
    → recording_of c.identity ≡ none
    → recs (ts ++ c ∷ []) ≡ recs ts
recs-free [] c p = ground arith
recs-free (t ∷ ts) c p = ground (arith, recs-free ts c p)

recs-new :
    (ts : List TrackFeatures) (c : TrackFeatures) (r : String)
    → recording_of c.identity ≡ some r
    → recs (ts ++ c ∷ []) ≡ recs ts ++ r ∷ []
recs-new [] c r p = ground arith
recs-new (t ∷ ts) c r p = ground (arith, recs-new ts c r p)

recs-set :
    (ts : List TrackFeatures) (i : ℕ) (c t : TrackFeatures)
    → get_elem? ts i ≡ some t
    → recording_of t.identity ≡ recording_of c.identity
    → recs (set ts i c) ≡ recs ts
recs-set [] i c t h e = refl
recs-set (x ∷ ts) zero c t h e = ground arith
recs-set (x ∷ ts) (suc i) c t h e = ground (arith, recs-set ts i c t h e)

-- The map leads from each recording to a row of it, and knows every recording among the rows.
pub record IsIndex (at : List (String × ℕ)) (out : List TrackFeatures) : Type 0 where
  pub known :
      (r : String) (i : ℕ)
      → seen_at at r ≡ some i
      → (t : TrackFeatures) × (get_elem? out i ≡ some t) × (recording_of t.identity ≡ some r)
  pub unknown : (r : String) → seen_at at r ≡ none → has (recs out) r ≡ false
  pub once : Uniq (recs out)

get_elem?-last {ℓ} :
    {A : Type ℓ} (xs : List A) (x : A) → get_elem? (xs ++ x ∷ []) (length xs) ≡ some x
get_elem?-last [] x = refl
get_elem?-last (y ∷ xs) x = get_elem?-last xs x

get_elem?-set_self {ℓ} :
    {A : Type ℓ} (xs : List A) (i : ℕ) (x y : A)
    → get_elem? xs i ≡ some x
    → get_elem? (set xs i y) i ≡ some y
get_elem?-set_self [] i x y h = cc
get_elem?-set_self (z ∷ xs) zero x y h = refl
get_elem?-set_self (z ∷ xs) (suc i) x y h = get_elem?-set_self xs i x y h

get_elem?-set_ne {ℓ} :
    {A : Type ℓ} (xs : List A) (i j : ℕ) (y : A) → i ≢ j → get_elem? (set xs i y) j ≡ get_elem? xs j
get_elem?-set_ne [] i j y h = refl
get_elem?-set_ne (x ∷ xs) zero zero y h = absurd (h refl)
get_elem?-set_ne (x ∷ xs) zero (suc j) y h = refl
get_elem?-set_ne (x ∷ xs) (suc i) zero y h = refl
get_elem?-set_ne (x ∷ xs) (suc i) (suc j) y h = get_elem?-set_ne xs i j y (λ e. h (ap suc e))

pub append_free :
    (at : List (String × ℕ)) (out : List TrackFeatures) (c : TrackFeatures)
    → recording_of c.identity ≡ none
    → IsIndex at out
    → IsIndex at (out ++ c ∷ [])
append_free at out c p ix = record {
  known = λ r i h.
      let (t, found, q) = ix.known r i h in
      (t, get_elem?-append_left i out (c ∷ []) (get_elem?-lt i out t found) ∙ found, q);
  unknown = λ r h. rw (recs-free out c p) (ix.unknown r h);
  once = rw (recs-free out c p) ix.once;
}

pub append_new :
    (at : List (String × ℕ)) (out : List TrackFeatures) (c : TrackFeatures) (r : String)
    → recording_of c.identity ≡ some r
    → seen_at at r ≡ none
    → IsIndex at out
    → IsIndex ((r, length out) ∷ at) (out ++ c ∷ [])
unfolding seen_at has
append_new at out c r p new ix = record {
  known = λ r' i h. elim (dec_str r r') [
    | yes e ↦
        let here : length out ≡ i = ground arith in
        (
          c,
          subst (λ j. get_elem? (out ++ c ∷ []) j ≡ some c) here (get_elem?-last out c),
          rw (← e) p,
        )
    | no n ↦
        let (t, found, q) = ix.known r' i (ground arith) in
        (t, get_elem?-append_left i out (c ∷ []) (get_elem?-lt i out t found) ∙ found, q)
  ];
  unknown = λ r' h.
      rw (recs-new out c r p) (ground (arith, has-append (recs out) (r ∷ []) r', ix.unknown r'));
  once = rw (recs-new out c r p) (
      Uniq-append (recs out) (r ∷ []) ix.once (refl, tt)
        (All-of_has (recs out) (r ∷ []) (λ k h. ground (arith, ix.unknown r new))));
}

pub set_held :
    (at : List (String × ℕ)) (out : List TrackFeatures) (c t : TrackFeatures) (r : String) (i : ℕ)
    → recording_of c.identity ≡ some r
    → get_elem? out i ≡ some t
    → recording_of t.identity ≡ some r
    → IsIndex at out
    → IsIndex at (set out i c)
set_held at out c t r i p found q ix =
    let kept = recs-set out i c t found (q ∙ sym p) in
    record {
      known = λ r' j h.
          let (t', found', q') = ix.known r' j h in
          elim (ℕ_discrete i j) [
            | yes e ↦
                let same_row : t ≡ t' = ground arith in
                let same_rec : some r ≡ some r' =
                  sym q ∙ ap (λ (x : TrackFeatures). recording_of x.identity) same_row ∙ q' in
                (
                  c,
                  subst (λ k. get_elem? (set out i c) k ≡ some c) e
                      (get_elem?-set_self out i t c found),
                  p ∙ same_rec,
                )
            | no n ↦ (t', get_elem?-set_ne out i j c n ∙ found', q')
          ];
      unknown = λ r' h. rw kept (ix.unknown r' h);
      once = rw kept ix.once;
    }

pub replace_held :
    (host : Host) (at : List (String × ℕ)) (out : List TrackFeatures) (c : TrackFeatures)
    (r : String) (i : ℕ)
    → recording_of c.identity ≡ some r
    → seen_at at r ≡ some i
    → IsIndex at out
    → IsIndex at (better_at host c out i) × (recs (better_at host c out i) ≡ recs out)
replace_held host at out c r i p old ix =
    let (t, found, q) = ix.known r i old in
    elim (Bool-cases (preferred_copy host c t)) [
      | inl better ↦
          rw (found, better_at, better)
            (set_held at out c t r i p found q ix, recs-set out i c t found (q ∙ sym p))
      | inr worse ↦ rw (found, better_at, worse) (ix, refl)
    ]

pub recs-has :
    (ts : List TrackFeatures) (i : ℕ) (t : TrackFeatures) (r : String)
    → get_elem? ts i ≡ some t
    → recording_of t.identity ≡ some r
    → has (recs ts) r ≡ true
unfolding has
recs-has [] i t r h p = cc
recs-has (x ∷ ts) zero t r h p = ground arith
recs-has (x ∷ ts) (suc i) t r h p = ground (arith, recs-has ts i t r h p)

pub empty-IsIndex : IsIndex [] []
unfolding seen_at has
empty-IsIndex = record { known = λ r i h. cc; unknown = λ r h. refl; once = tt }

-- The rows that come out have distinct recordings, and the recordings of what went in.
collapse_from-recs :
    (host : Host) (at : List (String × ℕ)) (out cs : List TrackFeatures)
    → IsIndex at out
    → Uniq (recs (collapse_from host at out cs))
      × ((r : String)
          → has (recs (collapse_from host at out cs)) r ≡ (has (recs out) r || has (recs cs) r))
unfolding collapse_from has
collapse_from-recs host at out [] ix = (ix.once, λ r. ground arith)
collapse_from-recs host at out (c ∷ cs) ix = elim (Option-cases (recording_of c.identity)) [
  | inl p ↦
      let (u, h) = collapse_from-recs host at (out ++ c ∷ []) cs (append_free at out c p ix) in
      rw (p, collapse_from)
        (u, λ r. ground (arith, h r, ap (λ (l : List String). has l r) (recs-free out c p)))
  | inr (rec, p) ↦ elim (Option-cases (seen_at at rec)) [
    | inl new ↦
        let (u, h) =
          collapse_from-recs host ((rec, length out) ∷ at) (out ++ c ∷ []) cs
            (append_new at out c rec p new ix) in
        rw (p, collapse_from, new)
          (
            u,
            λ r. ground (
              arith,
              h r,
              ap (λ (l : List String). has l r) (recs-new out c rec p),
              has-append (recs out) (rec ∷ []) r,
            ),
          )
    | inr (i, old) ↦
        let (t, found, q) = ix.known rec i old in
        let held = recs-has out i t rec found q in
        let (ix', kept) = replace_held host at out c rec i p old ix in
        let (u, h) = collapse_from-recs host at (better_at host c out i) cs ix' in
        rw (p, collapse_from, old)
          (u, λ r. ground (arith, h r, ap (λ (l : List String). has l r) kept, held))
  ]
]

-- The collapse keeps one row of each recording: no recording has two rows, and the recordings are
-- those of the candidates.
pub collapse_by_recording-recs :
    (host : Host) (candidates : List TrackFeatures)
    → Uniq (recs (collapse_by_recording host candidates))
      × ((r : String)
          → has (recs (collapse_by_recording host candidates)) r ≡ has (recs candidates) r)
unfolding collapse_by_recording has
collapse_by_recording-recs host candidates =
    let (u, h) = collapse_from-recs host [] [] candidates empty-IsIndex in (u, λ r. h r)
