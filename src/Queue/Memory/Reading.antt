-- ===== src/Queue/Memory/Reading.antt =====
-- src/lib/queue-store.ts: how a payload is read, and what it is restored to.
use localchune.Queue.Memory.{null, number, no_elements}
use localchune.Queue.Regenerate.{is_off}
use localchune.Queue.Strategies.{Host}
use localchune.Queue.Model.{
  history_max, slots_for, truncate_intent, recording_of, empty_state, QueueEntry, QueueState,
  QueueOrigin, AutoMethod,
}
use localchune.Queue.Memory.{
  queue_schema_version, string, object, member_of, element, array, Runtime, queue_memory_ttl_ms,
  QueueMemoryEntry, Members, Json, Elements,
}
use localchune.Common.{
  ℕ, ◌-◌, String, Bool, true, false, not, Option, none, some, List, [], ◌∷◌, ltb, ◌==◌,
  if◌then◌else◌, same, take,
}

-- `typeof v === 'string'`.
abbrev pub text_in : Option Json → Option String
text_in (some (string t)) = some t
text_in _ = none

-- `isNullableString` and `isNullableNumber`, with the value that they let through.
abbrev pub nullable_text : Option Json → Option (Option String)
nullable_text (some null) = some none
nullable_text (some (string t)) = some (some t)
nullable_text _ = none

abbrev pub nullable_number : Option Json → Option (Option ℕ)
nullable_number (some null) = some none
nullable_number (some (number n)) = some (some n)
nullable_number _ = none

unfoldable pub origin_of : Option String → QueueOrigin
origin_of none = QueueOrigin.list
origin_of (some t) =
    if same t "current"
    then QueueOrigin.current
    else if same t "crate"
    then QueueOrigin.crate
    else if same t "add"
    then QueueOrigin.add
    else if same t "auto"
    then QueueOrigin.auto
    else QueueOrigin.list

unfoldable pub method_of : Option String → AutoMethod
method_of none = AutoMethod.off
method_of (some t) =
    if same t "harmonic"
    then AutoMethod.harmonic
    else if same t "bpm"
    then AutoMethod.bpm
    else if same t "shuffle"
    then AutoMethod.shuffle
    else AutoMethod.off

-- A text that is not empty.
abbrev pub filled : Option String → Option String
filled none = none
filled (some t) = if same t "" then none else some t

infixl 1 ◌>>=◌
abbrev pub ◌>>=◌ {ℓ κ} : {A : Type ℓ} {B : Type κ} → Option A → (A → Option B) → Option B
none >>= f = none
some a >>= f = f a

unfoldable pub parse_members : Members → Option QueueEntry
parse_members e = do
  file_id ← filled (text_in (member_of e "file_id"))
  display_title ← text_in (member_of e "display_title")
  display_artist ← nullable_text (member_of e "display_artist")
  duration_ms ← nullable_number (member_of e "duration_ms")
  bpm ← nullable_number (member_of e "bpm")
  key_camelot ← nullable_text (member_of e "key_camelot")
  source_label ← nullable_text (member_of e "source_label")
  some (record {
    identity = record {
      file_id = file_id;
      track_id =
          recording_of (record { file_id = file_id; track_id = text_in (member_of e "track_id") });
    };
    display_artist = display_artist;
    display_title = display_title;
    duration_ms = duration_ms;
    bpm = bpm;
    key_camelot = key_camelot;
    origin = origin_of (text_in (member_of e "origin"));
    source_label = source_label;
  })

unfoldable pub parse_entry : Json → Option QueueEntry
parse_entry (object e) = parse_members e
parse_entry _ = none

unfoldable pub parse_entries : Elements → Option (List QueueEntry)
parse_entries no_elements = some []
parse_entries (element v rest) = do e ← parse_entry v; es ← parse_entries rest; some (e ∷ es)

unfoldable pub parse_texts : Elements → Option (List String)
parse_texts no_elements = some []
parse_texts (element v rest) = do t ← text_in (some v); ts ← parse_texts rest; some (t ∷ ts)

-- `current` may be null or missing, or else must be an entry.
unfoldable pub parse_current : Option Json → Option (Option QueueEntry)
parse_current none = some none
parse_current (some null) = some none
parse_current (some v) = do e ← parse_entry v; some (some e)

abbrev pub array_in : Option Json → Option Elements
array_in (some (array xs)) = some xs
array_in _ = none

-- The version, if it is this one.
abbrev pub has_version : Option Json → Option ℕ
has_version (some (number n)) = if n == queue_schema_version then some n else none
has_version _ = none

-- The layers and the history of a parsed object that has a date.
unfoldable pub parse_layers : Members → String → Option QueueMemoryEntry
parse_layers d updated_at = do
  entries ← array_in (member_of d "intent")
  texts ← array_in (member_of d "history")
  history ← parse_texts texts
  current ← parse_current (member_of d "current")
  intent ← parse_entries entries
  some (record {
    current = current;
    intent =
        (truncate_intent intent (slots_for (record empty_state { current = current })).slots).kept;
    method = method_of (text_in (member_of d "method"));
    history = take history_max history;
    updated_at = updated_at;
  })

unfoldable pub parse_payload : Host → Members → Option QueueMemoryEntry
parse_payload host d = do
  version ← has_version (member_of d "v")
  updated_at ← text_in (member_of d "updated_at")
  date ← host.date_parse updated_at
  parse_layers d updated_at

abbrev pub parse_json : Host → Option Json → Option QueueMemoryEntry
parse_json host (some (object d)) = parse_payload host d
parse_json host _ = none

unfoldable pub parse_state : Host → Runtime → Option String → Option QueueMemoryEntry
parse_state host run none = none
parse_state host run (some raw) = if same raw "" then none else parse_json host (run.parse raw)

abbrev pub older : ℕ → Option ℕ → Bool
older now none = true
older now (some ts) = ltb queue_memory_ttl_ms (now - ts)

unfoldable pub is_stale : Host → QueueMemoryEntry → ℕ → Bool
is_stale host m now = older now (host.date_parse m.updated_at)

unfoldable pub state_from_entry : QueueMemoryEntry → QueueState
state_from_entry m = record {
  current = m.current;
  intent = m.intent;
  method = m.method;
  history = m.history;
  failed = [];
  suppressed = [];
}

pub record RestoredQueue : Type 0 where
  pub state : QueueState
  pub needs_hydration : Bool
  pub stale : Bool

unfoldable pub restored_state : Host → Runtime → Option String → ℕ → RestoredQueue
restored_state host run raw now = elim (parse_state host run raw) [
  | none ↦ record { state = empty_state; needs_hydration = false; stale = false }
  | some m ↦
      if is_stale host m now
      then record { state = empty_state; needs_hydration = false; stale = true }
      else record {
        state = state_from_entry m;
        needs_hydration = not (is_off m.method);
        stale = false;
      }
]
