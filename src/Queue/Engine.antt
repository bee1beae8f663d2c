-- ===== src/Queue/Engine.antt =====
-- src/lib/queue-engine.ts: the reducer. A copy of a state is the state. An index is a `Number`; the
-- outcome `none` is a read of an entry that is not there, on which the source throws a TypeError or
-- stores an entry without an id.
pub mod Reduce
pub mod Valid
pub mod Steps
pub mod Keeps
pub mod Rendered
pub mod Session
pub mod Total
pub mod Advancing
pub mod Rows
pub mod Editing
use localchune.Common.{
  ℕ, zero, suc, ◌+◌, ◌-◌, ◌*◌, ◌/◌, ◌%◌, ◌^◌, ◌≤◌, ◌<◌, min, max, String, ◌≡◌, refl, sym, ap, subst,
  ◌∙◌, ◌≡⟨◌⟩◌, ◌∎, ◌≢◌, ◌↔◌, ◌⊎◌, inl, inr, Bool, true, false, not, ◌&&◌, ◌||◌, Option, none, some,
  List, [], ◌∷◌, ◌++◌, map, arith, dec_lt, dec_le, ℕ_discrete, ltb, leb, ◌==◌, if◌then◌else◌,
  Bool-cases, Option-cases, dec_str, same, length, get_elem?, take, drop, keep, find_index,
  remove_at, insert_at, set, length-append, length-take, length-drop, take_of_length-le,
  length-keep-le, All, All-append, All-take, All-drop, All-keep, has, has-append, has_self, Uniq,
  Uniq-append, unique_by, has-take, has-drop, has-keep, Uniq-take, Uniq-drop, Uniq-keep,
  has-keep-not, unique_by-fresh, unique_by-Uniq, All-of_has,
}
use localchune.Common.Number.{pos, negsuc, Number, int, frac, nan, pos_inf, neg_inf, whole_between}
use localchune.Queue.Model.{
  QueueEntry, QueueState, QueueOrigin, AutoMethod, history_max, head_size, identity_tokens,
  slots_for, truncate_intent,
}

pub data QueueEvent : Type 0 where
  play_track : String → List QueueEntry → Number → Option String → QueueEvent
  play_crate : String → List QueueEntry → Number → Option String → QueueEvent
  add_to_queue : List QueueEntry → QueueEvent
  select_queue_entry : Number → List QueueEntry → QueueEvent
  skip : List QueueEntry → QueueEvent
  track_ended : List QueueEntry → QueueEvent
  remove_queue_entry : Number → List QueueEntry → QueueEvent
  move_queue_entry : Number → Number → List QueueEntry → QueueEvent
  track_failed : String → List QueueEntry → QueueEvent
  set_method : AutoMethod → QueueEvent
  clear_queue : QueueEvent
  restore_current : QueueEntry → QueueEvent

pub data AdvanceReason : Type 0 where
  played skipped selected failed : AdvanceReason

pub record Advance : Type 0 where
  pub file_id : String
  pub reason : AdvanceReason

pub record ReduceResult : Type 0 where
  pub state : QueueState
  pub added : Option ℕ
  pub offered : Option ℕ
  pub advance : Option Advance

-- The result that holds a state and nothing else.
abbrev pub only : QueueState → ReduceResult
only s = record { state = s; added = none; offered = none; advance = none }

-- The loop of `pushFront`; the number is `max - out.length - 1`, at least 0.
unfoldable pub push_from : ℕ → List String → List String → List String
push_from n seen [] = []
push_from zero seen (id ∷ ids) =
    let skipped = push_from zero seen ids in if has seen id then skipped else id ∷ []
push_from (suc n) seen (id ∷ ids) =
    let skipped = push_from (suc n) seen ids in
    let pushed = id ∷ push_from n (id ∷ seen) ids in if has seen id then skipped else pushed

unfoldable pub push_front : List String → List String → ℕ → List String
push_front list ids max = push_from (max - 1) [] (ids ++ list)

abbrev pub as_current : QueueEntry → QueueEntry
as_current e = record e { origin = QueueOrigin.current }

abbrev pub stamp_one : QueueOrigin → Option String → QueueEntry → QueueEntry
stamp_one origin label e = record e { origin = origin; source_label = label }

abbrev pub stamp : List QueueEntry → QueueOrigin → Option String → List QueueEntry
stamp entries origin label = map (stamp_one origin label) entries

abbrev pub entry_id : QueueEntry → String
entry_id e = e.file_id

abbrev pub ids : List QueueEntry → List String
ids = map entry_id

-- The entries of another file: the filter `e.file_id !== file_id`.
abbrev pub without : String → List QueueEntry → List QueueEntry
without file_id = keep (λ e. not (same (entry_id e) file_id))

unfoldable pub dedupe : List QueueEntry → List QueueEntry
dedupe = unique_by entry_id []

-- `advance` where `current` goes from the first to a track of the file.
abbrev pub replaced : Option QueueEntry → String → Option Advance
replaced none file_id = none
replaced (some e) file_id =
    if same e.file_id file_id
    then none
    else some (record { file_id = e.file_id; reason = AdvanceReason.selected })

abbrev pub remember : List String → Option QueueEntry → List String
remember history none = history
remember history (some e) = push_front history (identity_tokens e.identity) history_max

-- `replaceWith` for the entry `chosen = list[at]`.
unfoldable pub replace_chosen :
    QueueState → List QueueEntry → ℕ → QueueOrigin → Option String → QueueEntry → ReduceResult
replace_chosen prev list at origin label chosen =
    let next = record prev {
      current = some (as_current (record chosen { source_label = label }));
      history = remember prev.history prev.current;
      intent = [];
    } in
    let tail = without chosen.file_id (stamp (drop (suc at) list) origin label) in
    let kept = (truncate_intent (dedupe tail) (slots_for next).slots).kept in
    record {
      state = record next { intent = kept };
      added = some (length kept);
      offered = some (length list);
      advance = replaced prev.current chosen.file_id;
    }

unfoldable pub replace_with :
    QueueState → List QueueEntry → ℕ → QueueOrigin → Option String → Option ReduceResult
replace_with prev list at origin label = elim (get_elem? list at) [
  | none ↦ none
  | some chosen ↦ some (replace_chosen prev list at origin label chosen)
]

abbrev pub departed : Option QueueEntry → AdvanceReason → Option Advance
departed none reason = none
departed (some e) reason = some (record { file_id = e.file_id; reason = reason })

abbrev pub arrived : Option QueueEntry → Option QueueEntry
arrived none = none
arrived (some e) = some (as_current e)

abbrev pub flat_tokens : List QueueEntry → List String
flat_tokens [] = []
flat_tokens (e ∷ es) = identity_tokens e.identity ++ flat_tokens es

unfoldable pub advance_to : QueueState → List QueueEntry → ℕ → AdvanceReason → ReduceResult
advance_to prev queue index reason = record {
  state = record prev {
    current = arrived (get_elem? queue index);
    intent = keep (λ e. has (ids prev.intent) (entry_id e)) (drop (suc index) queue);
    history = push_front prev.history (flat_tokens (take index queue)) history_max;
  };
  added = none;
  offered = none;
  advance = departed prev.current reason;
}

-- The row that an addressing event reaches: `addressable`, with the index that passes it.
abbrev pub addressable : QueueState → List QueueEntry → Number → Option ℕ
addressable state queue index = whole_between (head_size state.current) (length queue) index

-- `Math.max(0, Math.min(start, last))` where it is a whole number; `none` is a fraction or NaN.
unfoldable pub crate_start : Number → ℕ → Option ℕ
crate_start (int (pos n)) last = some (min n last)
crate_start (int (negsuc n)) last = some 0
crate_start (frac (pos n)) last = if ltb n last then none else some last
crate_start (frac (negsuc n)) last = some 0
crate_start nan last = none
crate_start pos_inf last = some last
crate_start neg_inf last = some 0
