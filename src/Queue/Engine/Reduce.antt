-- ===== src/Queue/Engine/Reduce.antt =====
-- src/lib/queue-engine.ts: `reduce`, a case for each event, and the question before a replacement.
use localchune.Common.{
  ℕ, ◌-◌, String, Bool, true, false, ◌&&◌, Option, none, some, List, [], ◌∷◌, ◌++◌, ltb,
  if◌then◌else◌, same, length, get_elem?, find_index, has, unique_by,
}
use localchune.Common.Number.{pos, Number, int, minus, whole_between}
use localchune.Queue.Model.{
  QueueEntry, QueueState, QueueOrigin, history_max, head_size, head_of, identity_tokens, slots_for,
  truncate_intent,
}
use localchune.Queue.Reorder.{move_item}
use localchune.Queue.Engine.{
  QueueEvent, play_track, play_crate, add_to_queue, select_queue_entry, skip, track_ended,
  remove_queue_entry, move_queue_entry, track_failed, set_method, clear_queue, restore_current,
  AdvanceReason, played, skipped, selected, failed, ReduceResult, only, push_front, as_current,
  entry_id, ids, without, replace_with, advance_to, addressable, crate_start,
}

-- Where PLAY_TRACK starts: the index when it names the file, else the first entry that does.
abbrev pub track_at : List QueueEntry → String → Number → Option ℕ
track_at list file_id index =
    let found = find_index (λ e. same (entry_id e) file_id) list in
    elim (whole_between 0 (length list) index) [
      | none ↦ found
      | some i ↦ elim (get_elem? list i) [
        | none ↦ found
        | some e ↦ if same (entry_id e) file_id then some i else found
      ]
    ]

unfoldable pub reduce_play_track :
    QueueState → List QueueEntry → Option ℕ → Option String → Option ReduceResult
reduce_play_track state list none label = some (only state)
reduce_play_track state list (some at) label = replace_with state list at QueueOrigin.list label

unfoldable pub reduce_play_crate :
    QueueState → List QueueEntry → Number → Option String → Option ReduceResult
reduce_play_crate state [] start label = some (only state)
reduce_play_crate state (e ∷ es) start label = elim (crate_start start (length es)) [
  | none ↦ none
  | some at ↦ replace_with state (e ∷ es) at QueueOrigin.crate label
]

unfoldable pub reduce_add : QueueState → List QueueEntry → ReduceResult
reduce_add state entries =
    let taken = ids (head_of state.current) ++ ids state.intent in
    let fresh = unique_by entry_id taken entries in
    let kept = (truncate_intent fresh ((slots_for state).slots - length state.intent)).kept in
    record {
      state = record state { intent = state.intent ++ kept };
      added = some (length kept);
      offered = some (length entries);
      advance = none;
    }

unfoldable pub reduce_select : QueueState → List QueueEntry → Option ℕ → ReduceResult
reduce_select state queue none = only state
reduce_select state queue (some i) = advance_to state queue i selected

-- SKIP and TRACK_ENDED.
unfoldable pub reduce_advance : QueueState → List QueueEntry → AdvanceReason → ReduceResult
reduce_advance state queue reason = elim state.current [
  | none ↦ only state
  | some e ↦ advance_to state queue 1 reason
]

abbrev pub remove_target : QueueState → QueueEntry → QueueState
remove_target state target =
    if has (ids state.intent) (entry_id target)
    then record state { intent = without (entry_id target) state.intent }
    else record state {
      suppressed = push_front state.suppressed (identity_tokens target.identity) history_max;
    }

unfoldable pub reduce_remove : QueueState → List QueueEntry → Option ℕ → ReduceResult
reduce_remove state queue none = only state
reduce_remove state queue (some i) = elim (get_elem? queue i) [
  | none ↦ only state
  | some target ↦ only (remove_target state target)
]

abbrev pub move_target : QueueState → QueueEntry → Number → QueueState
move_target state target to =
    elim (find_index (λ e. same (entry_id e) (entry_id target)) state.intent) [
      | none ↦ state
      | some at ↦ record state {
        intent = move_item state.intent (int (pos at)) (minus to (head_size state.current));
      }
    ]

unfoldable pub reduce_move : QueueState → List QueueEntry → Option ℕ → Number → ReduceResult
reduce_move state queue none to = only state
reduce_move state queue (some i) to = elim (get_elem? queue i) [
  | none ↦ only state
  | some target ↦ only (move_target state target to)
]

unfoldable pub reduce_failed : QueueState → String → List QueueEntry → ReduceResult
reduce_failed state file_id queue =
    let marked = record state { failed = push_front state.failed (file_id ∷ []) history_max } in
    reduce_advance marked queue failed

unfoldable pub restore_into : QueueState → QueueEntry → QueueState
restore_into state entry =
    let next = record state {
      current = some (as_current entry);
      intent = without (entry_id entry) state.intent;
    } in
    record next { intent = (truncate_intent next.intent (slots_for next).slots).kept }

unfoldable pub reduce_restore : QueueState → QueueEntry → ReduceResult
reduce_restore state entry = elim state.current [
  | none ↦ only (restore_into state entry)
  | some e ↦
      if same (entry_id e) (entry_id entry) then only state else only (restore_into state entry)
]

unfoldable pub reduce : QueueState → QueueEvent → Option ReduceResult
reduce state (play_track file_id list index label) =
    reduce_play_track state list (track_at list file_id index) label
reduce state (play_crate crate_id items start label) = reduce_play_crate state items start label
reduce state (add_to_queue entries) = some (reduce_add state entries)
reduce state (select_queue_entry index queue) =
    some (reduce_select state queue (addressable state queue index))
reduce state (skip queue) = some (reduce_advance state queue skipped)
reduce state (track_ended queue) = some (reduce_advance state queue played)
reduce state (remove_queue_entry index queue) =
    some (reduce_remove state queue (addressable state queue index))
reduce state (move_queue_entry index to queue) =
    some (reduce_move state queue (addressable state queue index) to)
reduce state (track_failed file_id queue) = some (reduce_failed state file_id queue)
reduce state (set_method method) = some (only (record state { method = method }))
reduce state clear_queue = some (only (record state { intent = [] }))
reduce state (restore_current entry) = some (reduce_restore state entry)

unfoldable pub is_replacing : QueueEvent → Bool
is_replacing (play_track file_id list index label) = true
is_replacing (play_crate crate_id items start label) = true
is_replacing _ = false

unfoldable pub requires_clear_confirm : QueueState → QueueEvent → Bool
requires_clear_confirm state event = is_replacing event && ltb 0 (length state.intent)
