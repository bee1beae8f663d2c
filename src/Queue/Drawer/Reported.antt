-- ===== src/Queue/Drawer/Reported.antt =====
-- ADD_TO_QUEUE and the line that reports what did not fit.
use localchune.Queue.Engine.Advancing.{Returns}
use localchune.Queue.Engine.Reduce.{reduce_add, reduce}
use localchune.Queue.Model.{truncate_intent, slots_for, head_of, QueueState, QueueEntry}
use localchune.Common.{
  subst, length-take, has-append, length-append, ◌+◌, take_of_length-le, ℕ, ◌-◌, ◌≤◌, min, String,
  ◌≡◌, refl, ap, true, false, Option, none, some, List, [], ◌∷◌, ◌++◌, arith, ◌==◌, length, take,
  All, has, has_self, unique_by,
}
use localchune.Queue.Drawer.{truncation_for}
use localchune.Queue.Engine.{add_to_queue, ReduceResult, ids, entry_id}

has-unique_by_all :
    (seen : List String) (xs : List QueueEntry) (k : String)
    → has (ids xs) k ≡ true
    → has seen k ≡ false
    → has (ids (unique_by entry_id seen xs)) k ≡ true
unfolding has unique_by
has-unique_by_all seen [] k h p = h
has-unique_by_all seen (x ∷ xs) k h p =
    ground (arith, has-unique_by_all seen xs k, has-unique_by_all (entry_id x ∷ seen) xs k)

length-unique_by_le :
    (seen : List String) (xs : List QueueEntry) → length (unique_by entry_id seen xs) ≤ length xs
unfolding unique_by
length-unique_by_le seen [] = omega arith
length-unique_by_le seen (x ∷ xs) =
    ground (arith, length-unique_by_le seen xs, length-unique_by_le (entry_id x ∷ seen) xs)

All-has :
    (ks : List String) (xs : List QueueEntry)
    → ((k : String) → has (ids xs) k ≡ true → has ks k ≡ true)
    → All (λ e. has ks (entry_id e) ≡ true) xs
unfolding has
All-has ks [] h = tt
All-has ks (x ∷ xs) h =
    (h (entry_id x) (has_self (ids xs) (entry_id x)), All-has ks xs (λ k p. h k (ground arith)))

ids-append : (xs ys : List QueueEntry) → ids (xs ++ ys) ≡ ids xs ++ ids ys
ids-append [] ys = refl
ids-append (x ∷ xs) ys = ap (◌∷◌ (entry_id x)) (ids-append xs ys)

take-append_left : (xs ys : List QueueEntry) → take (length xs) (xs ++ ys) ≡ xs
take-append_left [] ys = refl
take-append_left (x ∷ xs) ys = ap (◌∷◌ x) (take-append_left xs ys)

-- The files that are playing or in the user's layer.
abbrev pub queued : QueueState → List String
queued s = ids (head_of s.current) ++ ids s.intent

-- The entries are queued behind the user's earlier ones, which stay as they are; the count is that
-- of the new ones; and unless a truncation is reported, every entry offered is queued.
pub record IsAdded (s : QueueState) (entries : List QueueEntry) (label : Option String)
    (r : ReduceResult) : Type 0 where
  pub current : r.state.current ≡ s.current
  pub before : take (length s.intent) r.state.intent ≡ s.intent
  pub count : r.added ≡ some (length r.state.intent - length s.intent)
  pub reported :
      truncation_for r.added r.offered label ((slots_for r.state).need == 0) ≡ none
      → All (λ e. has (queued r.state) (entry_id e) ≡ true) entries

module _ (s : QueueState) (entries : List QueueEntry) (label : Option String) where
  -- Either the fresh entries all fit, or the truncation is reported.
  fits-or_reported :
      (room size added offered : ℕ)
      → size ≤ offered
      → added ≡ min room size
      → truncation_for (some added) (some offered) label (room - added == 0) ≡ none
      → size ≤ room
  unfolding truncation_for
  fits-or_reported room size added offered small count h = ground arith

  has-kept :
      (room : ℕ) (k : String)
      → length (unique_by entry_id (queued s) entries) ≤ room
      → has (ids entries) k ≡ true
      → has
          (ids (head_of s.current)
            ++ ids (s.intent ++ take room (unique_by entry_id (queued s) entries)))
          k
        ≡ true
  has-kept room k h p =
      let fresh = unique_by entry_id (queued s) entries in
      rw (take_of_length-le room fresh h) (
        ground (
          arith,
          has-append (ids (head_of s.current)) (ids (s.intent ++ fresh)) k,
          ids-append s.intent fresh,
          has-append (ids s.intent) (ids fresh) k,
          has-append (ids (head_of s.current)) (ids s.intent) k,
          has-unique_by_all (queued s) entries k p,
        ))

-- In every state, ADD_TO_QUEUE puts entries behind the user's earlier ones, which stay as they are,
-- counts them, and plays on; and unless the drawer reports a truncation, every entry that was
-- offered is playing or in the user's layer.
pub reduce-IsAdded :
    (s : QueueState) (entries : List QueueEntry) (label : Option String)
    → Returns (reduce s (add_to_queue entries)) (IsAdded s entries label)
unfolding reduce reduce_add truncate_intent slots_for
reduce-IsAdded s entries label =
    let fresh = unique_by entry_id (queued s) entries in
    let room = (slots_for s).slots - length s.intent in
    let size : length (s.intent ++ take room fresh) ≡ length s.intent + length (take room fresh) =
      length-append s.intent (take room fresh) in
    record {
      current = refl;
      before = take-append_left s.intent (take room fresh);
      count = ap some (omega (arith, size));
      reported = λ silent.
          let left : (slots_for s).slots - length (s.intent ++ take room fresh)
              ≡ room - length (take room fresh) =
            omega (arith, size) in
          let fits =
            fits-or_reported s entries label room (length fresh) (length (take room fresh))
              (length entries) (length-unique_by_le (queued s) entries) (length-take room fresh)
              (subst
                (λ (n : ℕ).
                  truncation_for (some (length (take room fresh))) (some (length entries)) label
                    (n == 0)
                  ≡ none)
                left silent) in
          All-has (queued (reduce_add s entries).state) entries
            (λ k p. has-kept s entries label room k fits p);
    }
