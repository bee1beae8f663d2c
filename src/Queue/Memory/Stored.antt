-- ===== src/Queue/Memory/Stored.antt =====
-- The stored queue, read back, and what any payload is restored to.
use localchune.Queue.Memory.{number}
use localchune.Queue.Memory.Restored.{parse_entry-entry_json, method_of-name, IsNamed}
use localchune.Queue.Memory.{
  no_members, method_name, string, queue_memory_ttl_ms, serialize_state, array, memory_json,
  entries_json, current_json, texts_json, member, entry_json, Json, project_entry, payload_of,
  member_of, Runtime, QueueMemoryEntry, Members,
}
use localchune.Queue.Memory.Reading.{
  state_from_entry, is_stale, restored_state, parse_state, parse_layers, parse_texts, parse_payload,
  parse_entries, parse_current,
}
use localchune.Queue.Regenerate.{is_off}
use localchune.Queue.Engine.{entry_id, ids}
use localchune.Queue.Model.{head_size, slots_for, head_of, truncate_intent, QueueState, QueueEntry}
use localchune.Common.{
  ℕ, ◌+◌, ◌-◌, ◌≤◌, String, ◌≡◌, refl, ap, false, not, Option, none, some, List, [], ◌∷◌, map,
  arith, ltb, dec_str, same, take_of_length-le, length-map, All,
}
use localchune.Queue.Engine.Valid.{IsMemory, IsValid}
use localchune.Queue.Strategies.{Host}

parse_entries-json :
    (es : List QueueEntry)
    → All IsNamed es
    → parse_entries (entries_json (map project_entry es)) ≡ some (map project_entry es)
unfolding parse_entries
parse_entries-json [] h = refl
parse_entries-json (e ∷ es) (p, h) = rw (parse_entry-entry_json e p, parse_entries-json es h) refl

parse_texts-json : (ts : List String) → parse_texts (texts_json ts) ≡ some ts
unfolding parse_texts
parse_texts-json [] = refl
parse_texts-json (t ∷ ts) = rw (parse_texts-json ts) refl

abbrev projected : Option QueueEntry → Option QueueEntry
projected none = none
projected (some e) = some (project_entry e)

parse_current-json :
    (o : Option QueueEntry)
    → All IsNamed (head_of o)
    → parse_current (some (current_json (projected o))) ≡ some (projected o)
unfolding parse_current entry_json
parse_current-json none h = refl
parse_current-json (some e) (h, _) = rw (parse_entry-entry_json e h) refl

head_size-projected : (o : Option QueueEntry) → head_size (projected o) ≡ head_size o
head_size-projected none = refl
head_size-projected (some e) = refl

-- What a payload remembers of a state: the encodes' recordings, and no failures or removals.
abbrev pub remembered : QueueState → QueueState
remembered s = record {
  current = projected s.current;
  intent = map project_entry s.intent;
  method = s.method;
  history = s.history;
  failed = [];
  suppressed = [];
}

abbrev memory_of : QueueState → String → QueueMemoryEntry
memory_of s updated_at = record {
  current = projected s.current;
  intent = map project_entry s.intent;
  method = s.method;
  history = s.history;
  updated_at = updated_at;
}

payload_of-valid :
    (s : QueueState) (updated_at : String)
    → IsValid s
    → payload_of s updated_at ≡ memory_of s updated_at
unfolding payload_of truncate_intent slots_for
payload_of-valid s updated_at v =
    rw
      (
        take_of_length-le (25 - head_size s.current) s.intent (omega (arith, v.cap)),
        take_of_length-le 200 s.history v.history.bound,
      )
      refl

record IsPayload (d : Members) (m : QueueMemoryEntry) : Type 0 where
  version : member_of d "v" ≡ some (number 1)
  current : member_of d "current" ≡ some (current_json m.current)
  intent : member_of d "intent" ≡ some (array (entries_json m.intent))
  method : member_of d "method" ≡ some (string (method_name m.method))
  history : member_of d "history" ≡ some (array (texts_json m.history))
  updated_at : member_of d "updated_at" ≡ some (string m.updated_at)

abbrev memory_members : QueueMemoryEntry → Members
memory_members m = member "v" (number 1) (
    member "current" (current_json m.current) (
      member "intent" (array (entries_json m.intent)) (
        member "method" (string (method_name m.method)) (
          member "history" (array (texts_json m.history))
            (member "updated_at" (string m.updated_at) no_members)))))

memory_members-IsPayload : (m : QueueMemoryEntry) → IsPayload (memory_members m) m
unfolding member_of dec_str
memory_members-IsPayload m = record {
  version = refl;
  current = refl;
  intent = refl;
  method = refl;
  history = refl;
  updated_at = refl;
}

module _ (host : Host) (s : QueueState) (v : IsValid s) (updated_at : String) (ts : ℕ) where
  parse_payload-memory :
      (d : Members)
      → All IsNamed (head_of s.current)
      → All IsNamed s.intent
      → host.date_parse updated_at ≡ some ts
      → IsPayload d (memory_of s updated_at)
      → parse_payload host d ≡ some (memory_of s updated_at)
  unfolding parse_payload parse_layers truncate_intent slots_for
  parse_payload-memory d h k date p =
      rw
        (
          p.version,
          p.updated_at,
          date,
          p.intent,
          p.history,
          p.current,
          p.method,
          parse_texts-json s.history,
          parse_current-json s.current h,
          parse_entries-json s.intent k,
          method_of-name s.method,
        )
        (rw
          (
            head_size-projected s.current,
            take_of_length-le (25 - head_size s.current) (map project_entry s.intent)
                (omega (arith, v.cap, length-map {0, 0} project_entry s.intent)),
            take_of_length-le 200 s.history v.history.bound,
          )
          refl)

ids-projected : (es : List QueueEntry) → ids (map project_entry es) ≡ ids es
unfolding project_entry
ids-projected [] = refl
ids-projected (e ∷ es) = ap (◌∷◌ (entry_id e)) (ids-projected es)

head-projected : (o : Option QueueEntry) → ids (head_of (projected o)) ≡ ids (head_of o)
unfolding project_entry
head-projected none = refl
head-projected (some e) = refl

no_tokens-IsMemory : IsMemory []
no_tokens-IsMemory = record { bound = omega arith; once = tt }

remembered-IsValid : (s : QueueState) → IsValid s → IsValid (remembered s)
remembered-IsValid s v = record {
  cap =
      omega (arith, v.cap, length-map {0, 0} project_entry s.intent, head_size-projected s.current);
  files = rw (head-projected s.current, ids-projected s.intent) v.files;
  history = v.history;
  failed = no_tokens-IsMemory;
  suppressed = no_tokens-IsMemory;
}

not_empty :
    (run : Runtime) (raw : String) {j : Json}
    → run.parse raw ≡ some j
    → run.parse "" ≡ none
    → same raw "" ≡ false
not_empty run raw p q = ground arith

module _ (host : Host) (run : Runtime) (s : QueueState) (now later : ℕ) where
  parse_state-serialize_state :
      IsValid s
      → All IsNamed (head_of s.current)
      → All IsNamed s.intent
      → run.parse (serialize_state run s now) ≡ some (memory_json (payload_of s (run.iso now)))
      → run.parse "" ≡ none
      → host.date_parse (run.iso now) ≡ some now
      → parse_state host run (some (serialize_state run s now)) ≡ some (memory_of s (run.iso now))
  unfolding parse_state memory_json
  parse_state-serialize_state v named pins parsed empty date =
      let m = memory_of s (run.iso now) in
      let read : parse_payload host (memory_members m) ≡ some m =
        parse_payload-memory host s v (run.iso now) now (memory_members m) named pins date
          (memory_members-IsPayload m) in
      let filled : same (serialize_state run s now) "" ≡ false =
        not_empty run (serialize_state run s now) parsed empty in
      rw (filled, parse_state, parsed, payload_of-valid s (run.iso now) v, read) refl

  -- The queue of a valid state whose entries name their files, stored and restored within the
  -- fortnight, is the state with empty recordings made null and its failures and removals forgotten,
  -- which is valid; the tail is asked for exactly when a method is on. The runtime's part: parsing
  -- undoes the stringification of the payload, the empty text is no JSON, and a date is read back.
  pub restored_state-serialize_state :
      IsValid s
      → All IsNamed (head_of s.current)
      → All IsNamed s.intent
      → run.parse (serialize_state run s now) ≡ some (memory_json (payload_of s (run.iso now)))
      → run.parse "" ≡ none
      → host.date_parse (run.iso now) ≡ some now
      → later ≤ now + queue_memory_ttl_ms
      → (restored_state host run (some (serialize_state run s now)) later
          ≡ record { state = remembered s; needs_hydration = not (is_off s.method); stale = false })
        × IsValid (remembered s)
  unfolding restored_state is_stale state_from_entry
  restored_state-serialize_state v named pins parsed empty date soon =
      let m = memory_of s (run.iso now) in
      let read : parse_state host run (some (serialize_state run s now)) ≡ some m =
        parse_state-serialize_state v named pins parsed empty date in
      let fresh : ltb queue_memory_ttl_ms (later - now) ≡ false = ground arith in
      (rw (read, restored_state, date, fresh) refl, remembered-IsValid s v)
