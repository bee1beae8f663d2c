-- ===== src/Queue/Model.antt =====
-- src/lib/queue-model.ts: the entries, the state, the cap and the exclusion arithmetic. A
-- `Set<string>` is the list of what was added to it; null and undefined are `none`.
pub mod Fill
pub mod Assemble
use Prim.Native.String
use localchune.Common.{
  ℕ, zero, suc, ◌-◌, String, Option, none, some, Bool, true, false, ◌||◌, List, [], ◌∷◌, ◌++◌,
  length, take, has, dec_str, if◌then◌else◌,
}
use mathlib.Core.Logic.{ite}

abbrev pub queue_max : ℕ
queue_max = 25

abbrev pub history_max : ℕ
history_max = 200

pub data AutoMethod : Type 0 where
  off harmonic bpm shuffle : AutoMethod

pub data QueueOrigin : Type 0 where
  current list crate add auto : QueueOrigin

pub record TrackIdentity : Type 0 where
  pub file_id : String
  pub track_id : Option String

-- A tempo is a whole number of hundredths of a beat per minute.
pub record QueueEntry : Type 0 where
  pub identity : TrackIdentity
  pub open identity use *
  pub display_artist : Option String
  pub display_title : String
  pub duration_ms : Option ℕ
  pub bpm : Option ℕ
  pub key_camelot : Option String
  pub origin : QueueOrigin
  pub source_label : Option String

pub record QueueState : Type 0 where
  pub current : Option QueueEntry
  pub intent : List QueueEntry
  pub method : AutoMethod
  pub history : List String
  pub failed : List String
  pub suppressed : List String

abbrev pub default_method : AutoMethod
default_method = AutoMethod.off

unfoldable pub empty_state : QueueState
empty_state = record {
  current = none;
  intent = [];
  method = default_method;
  history = [];
  failed = [];
  suppressed = [];
}

abbrev pub recording_token : String
recording_token = "rec:"

-- The template `rec:` before the recording's id.
abbrev pub recording_key : String → String
recording_key rec = String.◌++◌ recording_token rec

unfoldable pub recording_of : TrackIdentity → Option String
recording_of e = elim e.track_id [ none ↦ none | some t ↦ ite (dec_str t "") none (some t) ]

unfoldable pub identity_tokens : TrackIdentity → List String
identity_tokens e = elim (recording_of e) [
  | none ↦ e.file_id ∷ []
  | some rec ↦ e.file_id ∷ recording_key rec ∷ []
]

-- The `some` of `isTaken`.
unfoldable pub has_any : List String → List String → Bool
has_any taken [] = false
has_any taken (t ∷ ts) = has taken t || has_any taken ts

unfoldable pub is_taken : List String → TrackIdentity → Bool
is_taken taken e = has_any taken (identity_tokens e)

-- `take`: the set with the entry's tokens added.
unfoldable pub take_tokens : List String → TrackIdentity → List String
take_tokens taken e = identity_tokens e ++ taken

unfoldable pub take_all : List String → List QueueEntry → List String
take_all taken [] = taken
take_all taken (e ∷ es) = take_all (take_tokens taken e.identity) es

unfoldable pub take_current : List String → Option QueueEntry → List String
take_current taken none = taken
take_current taken (some e) = take_tokens taken e.identity

unfoldable pub excluded_keys : QueueState → List String
excluded_keys s =
    s.suppressed ++ (s.failed ++ (s.history ++ take_all (take_current [] s.current) s.intent))

pub record Slots : Type 0 where
  pub slots : ℕ
  pub need : ℕ

abbrev pub head_size : Option QueueEntry → ℕ
head_size none = 0
head_size (some e) = 1

-- `Math.max(0, slots - intent.length)` is the truncated difference.
unfoldable pub slots_for : QueueState → Slots
slots_for s =
    let slots = queue_max - head_size s.current in
    record { slots = slots; need = slots - length s.intent }

pub record Truncated : Type 0 where
  pub kept : List QueueEntry
  pub dropped : ℕ

-- The room is the caller's `slots`, with a negative one at 0.
unfoldable pub truncate_intent : List QueueEntry → ℕ → Truncated
truncate_intent entries room =
    let kept = take room entries in record { kept = kept; dropped = length entries - length kept }

-- The loop of `assembleQueue`; the room is `need - tail.length`.
unfoldable pub fill : ℕ → List String → List QueueEntry → List QueueEntry
fill zero taken es = []
fill (suc room) taken [] = []
fill (suc room) taken (e ∷ es) =
    let skip = fill (suc room) taken es in
    let push = e ∷ fill room (take_tokens taken e.identity) es in
    if is_taken taken e.identity then skip else push

abbrev pub head_of : Option QueueEntry → List QueueEntry
head_of none = []
head_of (some e) = e ∷ []

unfoldable pub assemble_queue : QueueState → List QueueEntry → List QueueEntry
assemble_queue s picked =
    let n = slots_for s in
    take queue_max
      (head_of s.current ++ (take n.slots s.intent ++ fill n.need (excluded_keys s) picked))
