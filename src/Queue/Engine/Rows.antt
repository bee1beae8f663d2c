-- ===== src/Queue/Engine/Rows.antt =====
-- Entries by their row and by their file, and what a removal remembers.
use localchune.Queue.Model.Fill.{SameTrack-has_any, SameTrack}
use localchune.Queue.Model.Assemble.{IsFresh, unlisted-is_taken}
use native.Mathlib.Nat.{zero-add}
use localchune.Common.{
  ℕ, zero, suc, ◌+◌, ◌<◌, String, ◌≡◌, refl, ap, subst, ◌∙◌, inl, inr, true, false, none, some,
  List, [], ◌∷◌, ◌++◌, arith, Option-cases, same, length, get_elem?, find_index, remove_at, All,
  has, Uniq,
}
use localchune.Queue.Model.{
  recording_of, history_max, identity_tokens, TrackIdentity, is_taken, has_any, QueueEntry,
  QueueState,
}
use localchune.Queue.Engine.{push_from, push_front, without, ids, entry_id}

module _ (x : QueueEntry) where
  pub has-row :
      (k : ℕ) (xs : List QueueEntry) → get_elem? xs k ≡ some x → has (ids xs) (entry_id x) ≡ true
  unfolding has
  has-row k [] h = cc
  has-row zero (y ∷ xs) h = ground arith
  has-row (suc k) (y ∷ xs) h = ground (arith, has-row k xs h)

  without_absent :
      (xs : List QueueEntry) → has (ids xs) (entry_id x) ≡ false → without (entry_id x) xs ≡ xs
  unfolding has
  without_absent [] h = refl
  without_absent (y ∷ xs) h = ground (arith, without_absent xs)

  pub without-at :
      (k : ℕ) (xs : List QueueEntry)
      → Uniq (ids xs)
      → get_elem? xs k ≡ some x
      → without (entry_id x) xs ≡ remove_at k xs
  without-at k [] u h = cc
  without-at zero (y ∷ xs) (p, u) h = ground (arith, without_absent xs)
  without-at (suc k) (y ∷ xs) (p, u) h =
      let there = has-row k xs h in ground (arith, without-at k xs u h)

  pub find_index-at :
      (k : ℕ) (xs : List QueueEntry)
      → Uniq (ids xs)
      → get_elem? xs k ≡ some x
      → find_index (λ e. same (entry_id e) (entry_id x)) xs ≡ some k
  find_index-at k [] u h = cc
  find_index-at zero (y ∷ xs) (p, u) h = ground arith
  find_index-at (suc k) (y ∷ xs) (p, u) h =
      let there = has-row k xs h in ground (arith, find_index-at k xs u h)

  pub find_index_absent :
      (xs : List QueueEntry)
      → has (ids xs) (entry_id x) ≡ false
      → find_index (λ e. same (entry_id e) (entry_id x)) xs ≡ none
  unfolding has
  find_index_absent [] h = refl
  find_index_absent (y ∷ xs) h = ground (arith, find_index_absent xs)

pub get_elem?-append_left {ℓ} :
    {A : Type ℓ} (k : ℕ) (xs ys : List A) → k < length xs → get_elem? (xs ++ ys) k ≡ get_elem? xs k
get_elem?-append_left k [] ys h = absurd (omega arith)
get_elem?-append_left zero (x ∷ xs) ys h = refl
get_elem?-append_left (suc k) (x ∷ xs) ys h = get_elem?-append_left k xs ys (omega arith)

pub get_elem?-append_right {ℓ} :
    {A : Type ℓ} (xs ys : List A) (k : ℕ) → get_elem? (xs ++ ys) (length xs + k) ≡ get_elem? ys k
get_elem?-append_right [] ys k = ap (get_elem? ys) (zero-add k)
get_elem?-append_right (x ∷ xs) ys k =
    ap (get_elem? (x ∷ (xs ++ ys))) (suc_add (length xs) k) ∙ get_elem?-append_right xs ys k
  where
    suc_add : (m n : ℕ) → suc m + n ≡ suc (m + n)
    suc_add m n = omega arith

pub All-at {ℓ κ} :
    {A : Type ℓ} (P : A → Type κ) (k : ℕ) (xs : List A) (x : A)
    → All P xs
    → get_elem? xs k ≡ some x
    → P x
All-at P k [] x h e = cc
All-at P zero (y ∷ xs) x (p, h) e = let q : y ≡ x = cc in subst P q p
All-at P (suc k) (y ∷ xs) x (p, h) e = All-at P k xs x h e

has_any-subset :
    (xs ys ts : List String)
    → ((k : String) → has xs k ≡ true → has ys k ≡ true)
    → has_any xs ts ≡ true
    → has_any ys ts ≡ true
unfolding has_any
has_any-subset xs ys [] h p = p
has_any-subset xs ys (t ∷ ts) h p = ground (arith, h t, has_any-subset xs ys ts h)

-- A memory that an entry's tokens are pushed into holds them all.
has-push_front :
    (t : TrackIdentity) (list : List String) (k : String)
    → has (identity_tokens t) k ≡ true
    → has (push_front list (identity_tokens t) history_max) k ≡ true
unfolding has push_front push_from identity_tokens
has-push_front t list k h = elim (Option-cases (recording_of t)) [
  | inl p ↦ rw (p, identity_tokens) (let q = rw (p, identity_tokens) at h in ground arith)
  | inr (r, p) ↦ rw (p, identity_tokens) (let q = rw (p, identity_tokens) at h in ground arith)
]

-- A removed entry is of no track that a later tail takes.
removed_excluded :
    (s : QueueState) (t : QueueEntry) (list : List String) (e : TrackIdentity)
    → s.suppressed ≡ push_front list (identity_tokens t.identity) history_max
    → IsFresh s e
    → ¬ SameTrack t.identity e
unfolding is_taken
removed_excluded s t list e p fresh = λ same_track.
    let shared =
      has_any-subset (identity_tokens t.identity) s.suppressed (identity_tokens e)
        (λ k h. rw p (has-push_front t.identity list k h)) (SameTrack-has_any same_track) in
    let apart = unlisted-is_taken s.suppressed e fresh.not_suppressed in cc apart

pub tail_without :
    (s : QueueState) (t : QueueEntry) (list : List String) (ts : List QueueEntry)
    → s.suppressed ≡ push_front list (identity_tokens t.identity) history_max
    → All (λ e. IsFresh s e.identity) ts
    → All (λ e. ¬ SameTrack t.identity e.identity) ts
tail_without s t list [] p h = tt
tail_without s t list (x ∷ ts) p (q, h) =
    (removed_excluded s t list x.identity p q, tail_without s t list ts p h)

pub get_elem?-lt {ℓ} :
    {A : Type ℓ} (k : ℕ) (xs : List A) (x : A) → get_elem? xs k ≡ some x → k < length xs
get_elem?-lt k [] x h = cc
get_elem?-lt zero (y ∷ xs) x h = omega arith
get_elem?-lt (suc k) (y ∷ xs) x h = omega (arith, get_elem?-lt k xs x h)
