-- ===== src/Queue/Engine/Keeps.antt =====
-- Every event keeps the invariant of the reducer's state.
use localchune.Queue.Engine.Steps.{
  reduce_restore-IsValid, with_intent, reduce_move-IsValid, reduce_remove-IsValid,
  reduce_select-IsValid, reduce_add-IsValid, IsValid-some, reduce_play_crate-IsValid,
  reduce_play_track-IsValid, reduce_advance-IsValid,
}
use localchune.Queue.Engine.Valid.{push_front-IsMemory, Fits, IsValid}
use localchune.Queue.Engine.Reduce.{track_at, reduce_failed, reduce}
use localchune.Queue.Engine.{
  clear_queue, restore_current, ids, set_method, addressable, track_failed, failed, add_to_queue,
  move_queue_entry, remove_queue_entry, play_crate, track_ended, push_front, skip, play_track,
  select_queue_entry, ReduceResult, QueueEvent,
}
use localchune.Common.{String, ◌≡◌, refl, Option, none, some, List, [], ◌∷◌, ◌++◌, arith, has, Uniq}
use localchune.Queue.Model.{head_of, history_max, QueueEntry, QueueState}

-- The array that an event carries was rendered.
abbrev pub CarriesFit : QueueEvent → Type 0
CarriesFit (select_queue_entry index queue) = Fits queue
CarriesFit (skip queue) = Fits queue
CarriesFit (track_ended queue) = Fits queue
CarriesFit (remove_queue_entry index queue) = Fits queue
CarriesFit (move_queue_entry index to queue) = Fits queue
CarriesFit (track_failed file_id queue) = Fits queue
CarriesFit _ = Unit

pub reduce_failed-IsValid :
    (s : QueueState) (v : IsValid s) (file_id : String) (queue : List QueueEntry)
    → Fits queue
    → IsValid (reduce_failed s file_id queue).state
unfolding reduce_failed
reduce_failed-IsValid s v file_id queue f =
    reduce_advance-IsValid (record s { failed = push_front s.failed (file_id ∷ []) history_max })
      (record {
        cap = v.cap;
        files = v.files;
        history = v.history;
        failed = push_front-IsMemory s.failed (file_id ∷ []);
        suppressed = v.suppressed;
      })
      queue failed f

-- From a valid state, every event whose array has at most 25 rows and no file twice leads to a
-- valid state, if the reducer returns: the cap of 25, no file twice among what is playing and the
-- user's layer, and memories of at most 200 tokens, none twice.
pub reduce-IsValid :
    (s : QueueState) (event : QueueEvent) {r : ReduceResult}
    → IsValid s
    → CarriesFit event
    → reduce s event ≡ some r
    → IsValid r.state
unfolding reduce has
reduce-IsValid s (play_track file_id list index label) v f e =
    reduce_play_track-IsValid s v list (track_at list file_id index) label e
reduce-IsValid s (play_crate crate_id items start label) v f e =
    reduce_play_crate-IsValid s v items start label e
reduce-IsValid s (add_to_queue entries) v f e = IsValid-some (reduce_add-IsValid s v entries) e
reduce-IsValid s (select_queue_entry index queue) v f e =
    IsValid-some (reduce_select-IsValid s v queue (addressable s queue index) f) e
reduce-IsValid s (skip queue) v f e = IsValid-some (reduce_advance-IsValid s v queue _ f) e
reduce-IsValid s (track_ended queue) v f e = IsValid-some (reduce_advance-IsValid s v queue _ f) e
reduce-IsValid s (remove_queue_entry index queue) v f e =
    IsValid-some (reduce_remove-IsValid s v queue (addressable s queue index)) e
reduce-IsValid s (move_queue_entry index to queue) v f e =
    IsValid-some (reduce_move-IsValid s v queue (addressable s queue index) to) e
reduce-IsValid s (track_failed file_id queue) v f e =
    IsValid-some (reduce_failed-IsValid s v file_id queue f) e
reduce-IsValid s (set_method method) v f e =
    IsValid-some
      (record {
        cap = v.cap;
        files = v.files;
        history = v.history;
        failed = v.failed;
        suppressed = v.suppressed;
      })
      e
reduce-IsValid s clear_queue v f e =
    IsValid-some (with_intent s v [] (omega arith) (head_once s.current v.files)) e
  where
    head_once :
        (o : Option QueueEntry)
        → Uniq (ids (head_of o) ++ ids s.intent)
        → Uniq (ids (head_of o) ++ [])
    head_once none u = tt
    head_once (some x) u = (refl, tt)
reduce-IsValid s (restore_current entry) v f e = IsValid-some (reduce_restore-IsValid s v entry) e
