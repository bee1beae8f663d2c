-- ===== src/Queue/Memory/Bounds.antt =====
-- What any payload is restored to.
use localchune.Queue.Strategies.{Host}
use localchune.Queue.Model.{
  slots_for, history_max, truncate_intent, queue_max, head_size, empty_state, QueueState,
  QueueEntry,
}
use localchune.Queue.Memory.{object, member_of, Json, Runtime, Members, QueueMemoryEntry}
use localchune.Common.{
  ℕ, ◌+◌, ◌-◌, ◌≤◌, String, ◌≡◌, refl, subst, inl, inr, Option, none, some, List, [], arith,
  Bool-cases, Option-cases, same, length, take, length-take,
}
use localchune.Queue.Memory.Reading.{
  parse_entries, parse_current, text_in, parse_texts, parse_json, is_stale, has_version, array_in,
  state_from_entry, restored_state, parse_state, parse_payload, parse_layers,
}

-- What may stand in the state that a payload is restored to.
abbrev pub IsBounded : QueueState → Type 0
IsBounded s =
    (length s.intent + head_size s.current ≤ queue_max)
    × (length s.history ≤ history_max)
    × (s.failed ≡ [])
    × (s.suppressed ≡ [])

abbrev Bounded : Option QueueMemoryEntry → Type 0
Bounded none = Unit
Bounded (some m) = IsBounded (state_from_entry m)

head_size-le : (o : Option QueueEntry) → head_size o ≤ 1
head_size-le none = omega arith
head_size-le (some e) = omega arith

empty-IsBounded : IsBounded empty_state
unfolding empty_state
empty-IsBounded = (omega arith, omega arith, refl, refl)

cut-IsBounded :
    (current : Option QueueEntry) (intent : List QueueEntry) (history : List String)
    → IsBounded (record empty_state {
      current = current;
      intent = take (queue_max - head_size current) intent;
      history = take history_max history;
    })
unfolding empty_state
cut-IsBounded current intent history = (
  omega (arith, length-take (queue_max - head_size current) intent, head_size-le current),
  omega (arith, length-take 200 history),
  refl,
  refl,
)

parse_layers-Bounded : (d : Members) (updated_at : String) → Bounded (parse_layers d updated_at)
unfolding parse_layers truncate_intent slots_for state_from_entry empty_state
parse_layers-Bounded d updated_at = elim (Option-cases (array_in (member_of d "intent"))) [
  | inl p ↦ rw (p, parse_layers) tt
  | inr (entries, p) ↦ elim (Option-cases (array_in (member_of d "history"))) [
    | inl q ↦ rw (p, parse_layers, q) tt
    | inr (texts, q) ↦ elim (Option-cases (parse_texts texts)) [
      | inl r ↦ rw (p, parse_layers, q, r) tt
      | inr (history, r) ↦ elim (Option-cases (parse_current (member_of d "current"))) [
        | inl c ↦ rw (p, parse_layers, q, r, c) tt
        | inr (current, c) ↦ elim (Option-cases (parse_entries entries)) [
          | inl e ↦ rw (p, parse_layers, q, r, c, e) tt
          | inr (intent, e) ↦
              rw (p, parse_layers, q, r, c, e) (cut-IsBounded current intent history)
        ]
      ]
    ]
  ]
]

parse_payload-Bounded : (host : Host) (d : Members) → Bounded (parse_payload host d)
unfolding parse_payload
parse_payload-Bounded host d = elim (Option-cases (has_version (member_of d "v"))) [
  | inl p ↦ rw (p, parse_payload) tt
  | inr (_, p) ↦ elim (Option-cases (text_in (member_of d "updated_at"))) [
    | inl q ↦ rw (p, parse_payload, q) tt
    | inr (updated_at, q) ↦ elim (Option-cases (host.date_parse updated_at)) [
      | inl date ↦ rw (p, parse_payload, q, date) tt
      | inr (_, date) ↦ rw (p, parse_payload, q, date) (parse_layers-Bounded d updated_at)
    ]
  ]
]

parse_state-Bounded :
    (host : Host) (run : Runtime) (raw : Option String) → Bounded (parse_state host run raw)
unfolding parse_state
parse_state-Bounded host run none = tt
parse_state-Bounded host run (some raw) = elim (Bool-cases (same raw "")) [
  | inl p ↦ rw (p, parse_state) tt
  | inr p ↦ rw (p, parse_state) (parsed (run.parse raw))
]
  where
    parsed : (o : Option Json) → Bounded (parse_json host o)
    parsed none = tt
    parsed (some (object d)) = parse_payload-Bounded host d
    parsed (some _) = tt

-- Whatever stands in the storage, the restored queue is within the cap of 25, remembers at most 200
-- tokens, and has no failures and no removals.
pub restored_state-IsBounded :
    (host : Host) (run : Runtime) (raw : Option String) (now : ℕ)
    → IsBounded (restored_state host run raw now).state
unfolding restored_state state_from_entry
restored_state-IsBounded host run raw now =
    let bounds = parse_state-Bounded host run raw in
    elim (Option-cases (parse_state host run raw)) [
      | inl p ↦ rw (p, restored_state) empty-IsBounded
      | inr (m, p) ↦ elim (Bool-cases (is_stale host m now)) [
        | inl q ↦ rw (p, restored_state, q) empty-IsBounded
        | inr q ↦ rw (p, restored_state, q) (subst Bounded p bounds)
      ]
    ]
