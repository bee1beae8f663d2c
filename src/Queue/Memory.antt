-- ===== src/Queue/Memory.antt =====
-- src/lib/queue-store.ts: the payload in localStorage, its reading and its age. A JSON number is a
-- whole number in the unit of its field; the keys of an object differ.
pub mod Reading
pub mod Restored
pub mod Stored
pub mod Bounds
mod Tests
use localchune.Queue.Regenerate.{is_off}
use localchune.Queue.Model.{
  empty_state, history_max, slots_for, truncate_intent, recording_of, QueueState, QueueOrigin,
  QueueEntry, AutoMethod,
}
use localchune.Common.{
  ℕ, zero, suc, ◌+◌, ◌-◌, ◌*◌, ◌/◌, ◌%◌, ◌^◌, ◌≤◌, ◌<◌, min, max, String, ◌≡◌, refl, sym, ap, subst,
  ◌∙◌, ◌≡⟨◌⟩◌, ◌∎, ◌≢◌, ◌↔◌, ◌⊎◌, inl, inr, Bool, true, false, not, ◌&&◌, ◌||◌, Option, none, some,
  List, [], ◌∷◌, ◌++◌, map, arith, dec_lt, dec_le, ℕ_discrete, ltb, leb, ◌==◌, if◌then◌else◌,
  Bool-cases, Option-cases, dec_str, same, length, get_elem?, take, drop, keep, find_index,
  remove_at, insert_at, set, length-append, length-take, length-drop, take_of_length-le,
  length-keep-le, length-map, All, All-append, All-take, All-drop, All-keep, has, has-append,
  has_self, Uniq, Uniq-append, unique_by, has-take, has-of_take, has-drop, has-keep, Uniq-take,
  Uniq-drop, Uniq-keep, has-keep-not, unique_by-fresh, unique_by-Uniq, has-unique_by, has-drop-suc,
  has-remove_at, has-at, Uniq-remove_at, has-of_unique_by, All-of_has,
}
use localchune.Queue.Strategies.{Host}

mutual
  pub data Json : Type 0 where
    null : Json
    bool : Bool → Json
    number : ℕ → Json
    string : String → Json
    array : Elements → Json
    object : Members → Json

  pub data Elements : Type 0 where
    no_elements : Elements
    element : Json → Elements → Elements

  pub data Members : Type 0 where
    no_members : Members
    member : String → Json → Members → Members

-- What the runtime gives: `JSON.stringify`, `JSON.parse` (`none` throws) and `toISOString`.
pub record Runtime : Type 0 where
  pub stringify : Json → String
  pub parse : String → Option Json
  pub iso : ℕ → String

-- A property of an object; `none` is undefined.
unfoldable pub member_of : Members → String → Option Json
member_of no_members key = none
member_of (member k v rest) key = if same k key then some v else member_of rest key

abbrev pub queue_memory_ttl_ms : ℕ
queue_memory_ttl_ms = 14 * 24 * 60 * 60 * 1000

abbrev pub queue_schema_version : ℕ
queue_schema_version = 1

pub record QueueMemoryEntry : Type 0 where
  pub current : Option QueueEntry
  pub intent : List QueueEntry
  pub method : AutoMethod
  pub history : List String
  pub updated_at : String

unfoldable pub project_entry : QueueEntry → QueueEntry
project_entry e = record e {
  identity = record { file_id = e.file_id; track_id = recording_of e.identity };
}

abbrev pub json_text : Option String → Json
json_text none = null
json_text (some t) = string t

abbrev pub json_number : Option ℕ → Json
json_number none = null
json_number (some n) = number n

abbrev pub origin_name : QueueOrigin → String
origin_name QueueOrigin.current = "current"
origin_name QueueOrigin.list = "list"
origin_name QueueOrigin.crate = "crate"
origin_name QueueOrigin.add = "add"
origin_name QueueOrigin.auto = "auto"

abbrev pub method_name : AutoMethod → String
method_name AutoMethod.off = "off"
method_name AutoMethod.harmonic = "harmonic"
method_name AutoMethod.bpm = "bpm"
method_name AutoMethod.shuffle = "shuffle"

unfoldable pub entry_json : QueueEntry → Json
entry_json e = object (
    member "file_id" (string e.file_id) (
      member "track_id" (json_text e.track_id) (
        member "display_artist" (json_text e.display_artist) (
          member "display_title" (string e.display_title) (
            member "duration_ms" (json_number e.duration_ms) (
              member "bpm" (json_number e.bpm) (
                member "key_camelot" (json_text e.key_camelot) (
                  member "origin" (string (origin_name e.origin))
                    (member "source_label" (json_text e.source_label) no_members)))))))))

abbrev pub entries_json : List QueueEntry → Elements
entries_json [] = no_elements
entries_json (e ∷ es) = element (entry_json e) (entries_json es)

abbrev pub texts_json : List String → Elements
texts_json [] = no_elements
texts_json (t ∷ ts) = element (string t) (texts_json ts)

abbrev pub current_json : Option QueueEntry → Json
current_json none = null
current_json (some e) = entry_json e

-- The payload of `serializeState`.
unfoldable pub payload_of : QueueState → String → QueueMemoryEntry
payload_of s updated_at = record {
  current = elim s.current [ none ↦ none | some e ↦ some (project_entry e) ];
  intent = map project_entry (truncate_intent s.intent (slots_for s).slots).kept;
  method = s.method;
  history = take history_max s.history;
  updated_at = updated_at;
}

unfoldable pub memory_json : QueueMemoryEntry → Json
memory_json m = object (
    member "v" (number queue_schema_version) (
      member "current" (current_json m.current) (
        member "intent" (array (entries_json m.intent)) (
          member "method" (string (method_name m.method)) (
            member "history" (array (texts_json m.history))
              (member "updated_at" (string m.updated_at) no_members))))))

unfoldable pub serialize_state : Runtime → QueueState → ℕ → String
serialize_state run s now = run.stringify (memory_json (payload_of s (run.iso now)))
