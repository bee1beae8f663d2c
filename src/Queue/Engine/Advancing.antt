-- ===== src/Queue/Engine/Advancing.antt =====
-- SKIP, TRACK_ENDED, SELECT_QUEUE_ENTRY and TRACK_FAILED on the array that the state rendered.
use localchune.Common.Number.{pos, int}
use localchune.Queue.Engine.Rendered.{keep-pinned}
use native.Mathlib.Numerals.{one-add}
use native.Mathlib.Nat.{zero-add}
use localchune.Queue.Engine.Valid.{IsValid}
use localchune.Queue.Model.Assemble.{length-head_of, assemble_queue-layout, tail_of}
use localchune.Queue.Engine.Reduce.{reduce_select, reduce_advance, reduce}
use localchune.Queue.Engine.{
  flat_tokens, addressable, selected, select_queue_entry, push_from, played, track_ended,
  push_front, skipped, departed, skip, arrived, ReduceResult, advance_to, AdvanceReason,
}
use localchune.Common.{
  ℕ, suc, ◌+◌, ◌<◌, String, ◌≡◌, refl, ap, subst, ◌∙◌, inl, inr, Option, none, some, List, [], ◌∷◌,
  ◌++◌, arith, Option-cases, length, get_elem?, take, drop, length-append, has,
}
use localchune.Queue.Model.{
  recording_key, recording_of, TrackIdentity, identity_tokens, history_max, assemble_queue,
  head_size, head_of, QueueEntry, QueueState,
}

-- The rows behind what is playing.
abbrev pub rows_of : QueueState → List QueueEntry → List QueueEntry
rows_of s es = s.intent ++ tail_of s es

-- The reducer's step to row `k` of the rows behind what is playing.
pub record IsAdvance (s : QueueState) (es : List QueueEntry) (k : ℕ) (reason : AdvanceReason)
    (r : ReduceResult) : Type 0 where
  pub current : r.state.current ≡ arrived (get_elem? (rows_of s es) k)
  pub intent : r.state.intent ≡ drop (suc k) s.intent
  pub report : r.advance ≡ departed s.current reason
  pub method : r.state.method ≡ s.method

pub get_elem?-head :
    (o : Option QueueEntry) (xs : List QueueEntry) (k : ℕ)
    → get_elem? (head_of o ++ xs) (head_size o + k) ≡ get_elem? xs k
get_elem?-head none xs k = ap (get_elem? xs) (zero-add k)
get_elem?-head (some e) xs k = ap (get_elem? (e ∷ xs)) (one-add k)

drop-head :
    (o : Option QueueEntry) (xs : List QueueEntry) (k : ℕ)
    → drop (suc (head_size o + k)) (head_of o ++ xs) ≡ drop (suc k) xs
drop-head none xs k = ap (λ (n : ℕ). drop (suc n) xs) (zero-add k)
drop-head (some e) xs k = ap (λ (n : ℕ). drop n xs) (one-add k)

-- To advance to row `k` behind what is playing makes that row current, takes from the user's layer
-- what stands before and at that row, keeps the rest in its order, and reports what was playing.
pub advance_to-IsAdvance :
    (s : QueueState) (es : List QueueEntry) (k : ℕ) (reason : AdvanceReason)
    → IsValid s
    → IsAdvance s es k reason (advance_to s (assemble_queue s es) (head_size s.current + k) reason)
unfolding advance_to
advance_to-IsAdvance s es k reason v =
    let layout = assemble_queue-layout s es v.cap in
    let rows = rows_of s es in
    record {
      current = rw layout (ap arrived (get_elem?-head s.current rows k));
      intent = rw (layout, drop-head s.current rows k) (keep-pinned s es (suc k));
      report = refl;
      method = refl;
    }

-- The reducer returns, with a result of which the predicate holds.
abbrev pub Returns : Option ReduceResult → (ReduceResult → Type 0) → Type 0
Returns none P = ⊥
Returns (some r) P = P r

tokens-head : (t : TrackIdentity) → (ts : List String) × (identity_tokens t ≡ t.file_id ∷ ts)
unfolding identity_tokens
tokens-head t = elim (Option-cases (recording_of t)) [
  | inl p ↦ ([], rw (p, identity_tokens) refl)
  | inr (r, p) ↦ (recording_key r ∷ [], rw (p, identity_tokens) refl)
]

push_front-head :
    (list tokens : List String) (t : String)
    → get_elem? (push_front list (t ∷ tokens) history_max) 0 ≡ some t
unfolding push_front push_from has
push_front-head list tokens t = refl

history-head :
    (o : Option QueueEntry) (rows : List QueueEntry) (history : List String) (e : QueueEntry)
    → o ≡ some e
    → get_elem? (push_front history (flat_tokens (take 1 (head_of o ++ rows))) history_max) 0
      ≡ some e.file_id
history-head none rows history e p = cc
history-head (some x) rows history e p =
    let same_entry : x ≡ e = ground arith in
    let (ts, q) = tokens-head x.identity in
    ap (λ (tokens : List String). get_elem? (push_front history (tokens ++ []) history_max) 0) q
    ∙ push_front-head history (ts ++ []) x.file_id
    ∙ ap (λ (y : QueueEntry). some y.file_id) same_entry

reduce_advance-some :
    (s : QueueState) (queue : List QueueEntry) (e : QueueEntry) (reason : AdvanceReason)
    → s.current ≡ some e
    → reduce_advance s queue reason ≡ advance_to s queue 1 reason
unfolding reduce_advance
reduce_advance-some s queue e reason p = ground arith

module _ (s : QueueState) (es : List QueueEntry) (v : IsValid s) where
  reduce_advance-IsAdvance :
      (e : QueueEntry) (reason : AdvanceReason)
      → s.current ≡ some e
      → IsAdvance s es 0 reason (reduce_advance s (assemble_queue s es) reason)
  reduce_advance-IsAdvance e reason p =
      let one : head_size s.current + 0 ≡ 1 = ground arith in
      rw (reduce_advance-some s (assemble_queue s es) e reason p) (
        subst (λ n. IsAdvance s es 0 reason (advance_to s (assemble_queue s es) n reason)) one
          (advance_to-IsAdvance s es 0 reason v))

  reduce_advance-history :
      (e : QueueEntry) (reason : AdvanceReason)
      → s.current ≡ some e
      → get_elem? (reduce_advance s (assemble_queue s es) reason).state.history 0 ≡ some e.file_id
  unfolding advance_to
  reduce_advance-history e reason p =
      rw (reduce_advance-some s (assemble_queue s es) e reason p, assemble_queue-layout s es v.cap)
        (history-head s.current (rows_of s es) s.history e p)

  -- SKIP and TRACK_ENDED in a valid state, on its rendered array, while something plays: the first
  -- row behind it plays, or nothing if there is none; the user's layer loses its first entry; the
  -- file that played is first in the history, and is reported with the event's reason.
  pub reduce-skip :
      (e : QueueEntry)
      → s.current ≡ some e
      → Returns
          (reduce s (skip (assemble_queue s es)))
          (λ r. IsAdvance s es 0 skipped r × (get_elem? r.state.history 0 ≡ some e.file_id))
        × Returns
            (reduce s (track_ended (assemble_queue s es)))
            (λ r. IsAdvance s es 0 played r × (get_elem? r.state.history 0 ≡ some e.file_id))
  unfolding reduce
  reduce-skip e p = (
    (reduce_advance-IsAdvance e skipped p, reduce_advance-history e skipped p),
    (reduce_advance-IsAdvance e played p, reduce_advance-history e played p),
  )

  pub length-assemble_queue :
      length (assemble_queue s es) ≡ head_size s.current + length (rows_of s es)
  length-assemble_queue = rw (assemble_queue-layout s es v.cap) (
      omega (arith, length-append {0} (head_of s.current) (rows_of s es), length-head_of s.current))

  -- The drawer's row `k` behind what is playing is addressable, and is that entry.
  pub addressable-row :
      (k : ℕ)
      → k < length (rows_of s es)
      → (addressable s (assemble_queue s es) (int (pos (head_size s.current + k)))
          ≡ some (head_size s.current + k))
        × (get_elem? (assemble_queue s es) (head_size s.current + k) ≡ get_elem? (rows_of s es) k)
  addressable-row k h =
      let size = length-assemble_queue in
      (
        ground arith,
        rw (assemble_queue-layout s es v.cap) (get_elem?-head s.current (rows_of s es) k),
      )

  -- In a valid state, SELECT_QUEUE_ENTRY on the rendered row `k` behind what is playing makes that
  -- row current, drops the user's entries up to it, keeps the others in their order, and reports
  -- what was playing.
  pub reduce-select :
      (k : ℕ)
      → k < length (rows_of s es)
      → Returns
          (reduce s
            (select_queue_entry (int (pos (head_size s.current + k))) (assemble_queue s es)))
          (IsAdvance s es k selected)
  unfolding reduce reduce_select
  reduce-select k h =
      rw ((addressable-row k h).0, reduce_select) (advance_to-IsAdvance s es k selected v)
