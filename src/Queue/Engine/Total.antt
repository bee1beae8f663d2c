-- ===== src/Queue/Engine/Total.antt =====
-- On which events the reducer returns.
use localchune.Common.Number.{nan, pos_inf, neg_inf}
use localchune.Queue.Reorder.Laws.{get_elem?-some}
use localchune.Queue.Engine.Reduce.{reduce_play_track, track_at, reduce_play_crate, reduce}
use localchune.Queue.Engine.{
  play_track, entry_id, play_crate, replace_with, crate_start, QueueEvent,
}
use localchune.Common.Number.{whole_between, negsuc, pos, int, frac, Number}
use localchune.Common.{
  ℕ, ◌≤◌, ◌<◌, String, ◌≡◌, refl, ◌≢◌, ◌↔◌, inl, inr, Bool, Option, none, some, List, [], ◌∷◌,
  arith, Bool-cases, Option-cases, same, length, get_elem?, find_index,
}
use localchune.Queue.Model.{QueueEntry, QueueState, QueueOrigin}

-- The start that is no index of a list of `n + 1` entries: NaN, or a fraction between two of them.
abbrev pub IsBroken : Number → ℕ → Type 0
IsBroken nan last = Unit
IsBroken (frac (pos n)) last = n < last
IsBroken _ last = ⊥

-- PLAY_CRATE on a crate that has entries, at a start that is no index.
abbrev pub IsBrokenEvent : QueueEvent → Type 0
IsBrokenEvent (play_crate crate_id (x ∷ xs) start label) = IsBroken start (length xs)
IsBrokenEvent _ = ⊥

crate_start-none : (start : Number) (last : ℕ) → crate_start start last ≡ none → IsBroken start last
unfolding crate_start
crate_start-none (int (pos n)) last h = cc
crate_start-none (int (negsuc n)) last h = cc
crate_start-none (frac (pos n)) last h = ground arith
crate_start-none (frac (negsuc n)) last h = cc
crate_start-none nan last h = tt
crate_start-none pos_inf last h = cc
crate_start-none neg_inf last h = cc

crate_start-broken :
    (start : Number) (last : ℕ) → IsBroken start last → crate_start start last ≡ none
unfolding crate_start
crate_start-broken (int z) last h = absurd h
crate_start-broken (frac (pos n)) last h = ground arith
crate_start-broken (frac (negsuc n)) last h = absurd h
crate_start-broken nan last h = refl
crate_start-broken pos_inf last h = absurd h
crate_start-broken neg_inf last h = absurd h

crate_start-le : (start : Number) (last at : ℕ) → crate_start start last ≡ some at → at ≤ last
unfolding crate_start
crate_start-le (int (pos n)) last at h = ground arith
crate_start-le (int (negsuc n)) last at h = ground arith
crate_start-le (frac (pos n)) last at h = ground arith
crate_start-le (frac (negsuc n)) last at h = ground arith
crate_start-le nan last at h = cc
crate_start-le pos_inf last at h = ground arith
crate_start-le neg_inf last at h = ground arith

replace_with-some :
    (s : QueueState) (list : List QueueEntry) (at : ℕ) (origin : QueueOrigin)
    (label : Option String)
    → at < length list
    → replace_with s list at origin label ≢ none
unfolding replace_with
replace_with-some s list at origin label h =
    let (e, here) = get_elem?-some at list h in λ p. absurd (ground arith)

find_index-lt :
    (p : QueueEntry → Bool) (list : List QueueEntry) (i : ℕ)
    → find_index p list ≡ some i
    → i < length list
find_index-lt p [] i h = cc
find_index-lt p (x ∷ xs) i h = elim (Option-cases (find_index p xs)) [
  | inl gone ↦ ground arith
  | inr (j, e) ↦ ground (arith, find_index-lt p xs j e)
]

whole_between-lt : (size i : ℕ) (index : Number) → whole_between 0 size index ≡ some i → i < size
whole_between-lt size i (int (pos n)) h = ground arith
whole_between-lt size i index h = cc

track_at-lt :
    (list : List QueueEntry) (file_id : String) (index : Number) (at : ℕ)
    → track_at list file_id index ≡ some at
    → at < length list
track_at-lt list file_id index at h =
    let found = find_index-lt (λ (e : QueueEntry). same (entry_id e) file_id) list at in
    elim (Option-cases (whole_between 0 (length list) index)) [
      | inl out ↦ found (rw (out, track_at) at h)
      | inr (i, p) ↦
          let small = whole_between-lt (length list) i index p in
          elim (Option-cases (get_elem? list i)) [
            | inl gone ↦ found (rw (p, track_at, gone) at h)
            | inr (e, here) ↦ elim (Bool-cases (same (entry_id e) file_id)) [
              | inl hit ↦
                  (let q : some i ≡ some at = rw (p, track_at, here, hit) at h in ground arith)
              | inr other ↦ found (rw (p, track_at, here, other) at h)
            ]
          ]
    ]

play_crate-none_iff :
    (s : QueueState) (x : QueueEntry) (xs : List QueueEntry) (start : Number)
    (label : Option String)
    → (reduce_play_crate s (x ∷ xs) start label ≡ none) ↔ IsBroken start (length xs)
unfolding reduce_play_crate
play_crate-none_iff s x xs start label = elim (Option-cases (crate_start start (length xs))) [
  | inl broken ↦
      (λ h. crate_start-none start (length xs) broken, λ h. rw (broken, reduce_play_crate) refl)
  | inr (at, e) ↦ (
    λ h. absurd (
        replace_with-some s (x ∷ xs) at QueueOrigin.crate label
          (omega (arith, crate_start-le start (length xs) at e)) (rw (e, reduce_play_crate) at h)),
    λ h. cc (crate_start-broken start (length xs) h),
  )
]

play_track-some :
    (s : QueueState) (list : List QueueEntry) (at : Option ℕ) (label : Option String)
    → ((i : ℕ) → at ≡ some i → i < length list)
    → reduce_play_track s list at label ≢ none
unfolding reduce_play_track
play_track-some s list none label h = λ p. cc
play_track-some s list (some i) label h = replace_with-some s list i _ label (h i refl)

never : {A : Type 0} {r : A} → (some r ≡ none) ↔ ⊥
never = (λ h. cc, λ h. absurd h)

-- The reducer fails to return exactly on PLAY_CRATE for a crate with entries, at a start that is
-- NaN or a fraction between two of its indices.
pub reduce-eq-none_iff :
    (s : QueueState) (event : QueueEvent) → (reduce s event ≡ none) ↔ IsBrokenEvent event
unfolding reduce reduce_play_crate
reduce-eq-none_iff s (play_track file_id list index label) = (
  play_track-some s list (track_at list file_id index) label
      (λ i h. track_at-lt list file_id index i h),
  λ h. absurd h,
)
reduce-eq-none_iff s (play_crate crate_id (x ∷ xs) start label) =
    play_crate-none_iff s x xs start label
reduce-eq-none_iff s (play_crate crate_id [] start label) = never
reduce-eq-none_iff s _ = never
