-- ===== src/Queue/Engine/Editing.antt =====
-- REMOVE_QUEUE_ENTRY and MOVE_QUEUE_ENTRY on the array that the state rendered.
use localchune.Queue.Reorder.{move_item}
use localchune.Queue.Model.Fill.{SameTrack}
use localchune.Queue.Engine.Rendered.{tail_of-not_intent}
use localchune.Queue.Engine.Rows.{
  tail_without, find_index-at, without-at, find_index_absent, has-row, All-at, get_elem?-lt,
  get_elem?-append_right, get_elem?-append_left,
}
use localchune.Queue.Model.Assemble.{tail_of-IsFresh, tail_of}
use localchune.Queue.Engine.Reduce.{remove_target, move_target, reduce_remove, reduce_move, reduce}
use localchune.Queue.Engine.Advancing.{addressable-row, Returns, rows_of}
use localchune.Queue.Engine.{push_front, only, remove_queue_entry, move_queue_entry, entry_id, ids}
use localchune.Common.Number.{minus, pos, int, Number}
use localchune.Queue.Engine.Valid.{IsValid}
use localchune.Common.{
  ℕ, ◌+◌, ◌≡◌, refl, ◌∙◌, false, Option, none, some, List, ◌++◌, length, get_elem?, remove_at, All,
  has, Uniq,
}
use localchune.Queue.Model.{
  history_max, identity_tokens, head_size, assemble_queue, head_of, QueueEntry, QueueState,
}

intent_once : (s : QueueState) → IsValid s → Uniq (ids s.intent)
intent_once s v = within s.current v.files
  where
    within : (o : Option QueueEntry) → Uniq (ids (head_of o) ++ ids s.intent) → Uniq (ids s.intent)
    within none u = u
    within (some e) (h, u) = u

module _ (s : QueueState) (es : List QueueEntry) (v : IsValid s) where
  -- The row `k` behind what is playing, as the index that the drawer reports.
  abbrev row : ℕ → Number
  row k = int (pos (head_size s.current + k))

  remove-row :
      (k : ℕ) (x : QueueEntry)
      → get_elem? (rows_of s es) k ≡ some x
      → reduce s (remove_queue_entry (row k) (assemble_queue s es))
        ≡ some (only (remove_target s x))
  unfolding reduce reduce_remove
  remove-row k x e =
      let (reached, found) = addressable-row s es v k (get_elem?-lt k (rows_of s es) x e) in
      rw (reached, reduce_remove, found, e) refl

  move-row :
      (k : ℕ) (x : QueueEntry) (to : Number)
      → get_elem? (rows_of s es) k ≡ some x
      → reduce s (move_queue_entry (row k) to (assemble_queue s es))
        ≡ some (only (move_target s x to))
  unfolding reduce reduce_move
  move-row k x to e =
      let (reached, found) = addressable-row s es v k (get_elem?-lt k (rows_of s es) x e) in
      rw (reached, reduce_move, found, e) refl

  pinned-row :
      (k : ℕ) (x : QueueEntry) → get_elem? s.intent k ≡ some x → get_elem? (rows_of s es) k ≡ some x
  pinned-row k x e =
      get_elem?-append_left k s.intent (tail_of s es) (get_elem?-lt k s.intent x e) ∙ e

  ranked-row :
      (k : ℕ) (x : QueueEntry)
      → get_elem? (tail_of s es) k ≡ some x
      → (get_elem? (rows_of s es) (length s.intent + k) ≡ some x)
        × (has (ids s.intent) (entry_id x) ≡ false)
  ranked-row k x e = (
    get_elem?-append_right s.intent (tail_of s es) k ∙ e,
    All-at (λ (y : QueueEntry). has (ids s.intent) (entry_id y) ≡ false) k (tail_of s es) x
        (tail_of-not_intent s es) e,
  )

  -- In a valid state, REMOVE_QUEUE_ENTRY on a rendered row of the user's layer takes out that row
  -- and changes nothing else.
  pub reduce-remove_pinned :
      (k : ℕ) (x : QueueEntry)
      → get_elem? s.intent k ≡ some x
      → reduce s (remove_queue_entry (int (pos (head_size s.current + k))) (assemble_queue s es))
        ≡ some (only (record s { intent = remove_at k s.intent }))
  reduce-remove_pinned k x e =
      rw
        (
          remove-row k x (pinned-row k x e),
          has-row x k s.intent e,
          without-at x k s.intent (intent_once s v) e,
        )
        refl

  -- In a valid state, REMOVE_QUEUE_ENTRY on a rendered row of the automatic tail leaves the user's
  -- layer as it is, and the state's next tail, whatever its ranking, has no entry of the removed
  -- track.
  pub reduce-remove_ranked :
      (k : ℕ) (x : QueueEntry) (later : List QueueEntry)
      → get_elem? (tail_of s es) k ≡ some x
      → Returns
          (reduce s (
            remove_queue_entry
              (int (pos (head_size s.current + (length s.intent + k))))
              (assemble_queue s es)))
          (λ r.
            (r.state.intent ≡ s.intent)
            × All (λ e. ¬ SameTrack x.identity e.identity) (tail_of r.state later))
  reduce-remove_ranked k x later e =
      let (row_x, absent) = ranked-row k x e in
      let t = record s {
        suppressed = push_front s.suppressed (identity_tokens x.identity) history_max;
      } in
      rw (remove-row (length s.intent + k) x row_x, absent)
        (refl, tail_without t x s.suppressed (tail_of t later) refl (tail_of-IsFresh t later).0)

  -- In a valid state, MOVE_QUEUE_ENTRY on a rendered row of the user's layer is `move_item` on that
  -- layer, with both rows counted from its start, wherever the destination is.
  pub reduce-move_pinned :
      (k : ℕ) (x : QueueEntry) (to : Number)
      → get_elem? s.intent k ≡ some x
      → reduce s (move_queue_entry (int (pos (head_size s.current + k))) to (assemble_queue s es))
        ≡ some (
            only (record s {
              intent = move_item s.intent (int (pos k)) (minus to (head_size s.current));
            }))
  reduce-move_pinned k x to e =
      rw
        (
          move-row k x to (pinned-row k x e),
          move_target,
          find_index-at x k s.intent (intent_once s v) e,
        )
        refl

  -- On a row of the automatic tail MOVE_QUEUE_ENTRY changes nothing.
  pub reduce-move_ranked :
      (k : ℕ) (x : QueueEntry) (to : Number)
      → get_elem? (tail_of s es) k ≡ some x
      → reduce s (
          move_queue_entry
            (int (pos (head_size s.current + (length s.intent + k))))
            to
            (assemble_queue s es))
        ≡ some (only s)
  reduce-move_ranked k x to e =
      let (row_x, absent) = ranked-row k x e in
      rw
        (
          move-row (length s.intent + k) x to row_x,
          move_target,
          find_index_absent x s.intent absent,
        )
        refl
