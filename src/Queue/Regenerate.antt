-- ===== src/Queue/Regenerate.antt =====
-- src/lib/queue-engine.ts: the seed, the preferred copy, the collapse and `regenerate`. The port is
-- a function of the request, with `none` for a call that throws; the requests made are part of the
-- result.
pub mod Collapse
pub mod Entries
pub mod Fills
pub mod Kept
pub mod Filled
pub mod Counting
pub mod Requests
use localchune.Queue.Strategies.Walk.{method_label, fallback_method, select}
use localchune.Queue.Strategies.{track_id_of, or_zero, StrategyContext, TrackFeatures, Host}
use localchune.Common.{
  ℕ, zero, suc, ◌+◌, ◌-◌, ◌*◌, ◌/◌, ◌%◌, ◌^◌, ◌≤◌, ◌<◌, min, max, String, ◌≡◌, refl, sym, ap, subst,
  ◌∙◌, ◌≡⟨◌⟩◌, ◌∎, ◌≢◌, ◌↔◌, ◌⊎◌, inl, inr, Bool, true, false, not, ◌&&◌, ◌||◌, Option, none, some,
  List, [], ◌∷◌, ◌++◌, map, arith, dec_lt, dec_le, ℕ_discrete, ltb, leb, ◌==◌, if◌then◌else◌,
  Bool-cases, Option-cases, dec_str, same, length, get_elem?, take, drop, keep, find_index,
  remove_at, insert_at, set, length-append, length-take, length-drop, take_of_length-le,
  length-keep-le, length-map, All, All-append, All-take, All-drop, All-keep, has, has-append,
  has_self, Uniq, Uniq-append, unique_by, has-take, has-of_take, has-drop, has-keep, Uniq-take,
  Uniq-drop, Uniq-keep, has-keep-not, unique_by-fresh, unique_by-Uniq, has-unique_by, has-drop-suc,
  has-remove_at, has-at, Uniq-remove_at, has-of_unique_by, All-of_has,
}
use localchune.Queue.Model.{
  excluded_keys, slots_for, recording_of, is_taken, assemble_queue, TrackIdentity, QueueEntry,
  QueueState, QueueOrigin, AutoMethod,
}

-- `intent[intent.length - 1]`.
abbrev pub last_of : List QueueEntry → Option QueueEntry → Option QueueEntry
last_of [] o = o
last_of (e ∷ es) o = last_of es (some e)

abbrev pub seed_of : QueueEntry → TrackFeatures
seed_of e = record {
  identity = record { file_id = e.file_id; track_id = recording_of e.identity };
  display_artist = e.display_artist;
  display_title = e.display_title;
  duration_ms = e.duration_ms;
  bpm = e.bpm;
  key_camelot = e.key_camelot;
  quality_tier = none;
  like_count = 0;
  play_count = 0;
  created_at = "";
}

unfoldable pub seed_for : QueueState → Option TrackFeatures
seed_for s = elim (last_of s.intent s.current) [ none ↦ none | some e ↦ some (seed_of e) ]

abbrev pub to_auto_entry : String → TrackFeatures → QueueEntry
to_auto_entry label t = record {
  identity = t.identity;
  display_artist = t.display_artist;
  display_title = t.display_title;
  duration_ms = t.duration_ms;
  bpm = t.bpm;
  key_camelot = t.key_camelot;
  origin = QueueOrigin.auto;
  source_label = some label;
}

-- The tier with null, which is -1, below every number.
abbrev pub tier_rank : Option ℕ → ℕ
tier_rank none = 0
tier_rank (some n) = suc n

-- `preferredCopy(a, b) < 0`.
unfoldable pub preferred_copy : Host → TrackFeatures → TrackFeatures → Bool
preferred_copy host a b =
    let ta = tier_rank a.quality_tier in
    let tb = tier_rank b.quality_tier in
    let na = or_zero (host.date_parse a.created_at) in
    let nb = or_zero (host.date_parse b.created_at) in
    if not (ta == tb)
    then ltb tb ta
    else if not (na == nb)
    then ltb nb na
    else host.text_lt a.file_id b.file_id

-- The `Map` from recordings to positions, as an association list.
unfoldable pub seen_at : List (String × ℕ) → String → Option ℕ
seen_at [] rec = none
seen_at ((r, i) ∷ at) rec = if same r rec then some i else seen_at at rec

abbrev pub better_at : Host → TrackFeatures → List TrackFeatures → ℕ → List TrackFeatures
better_at host c out i = elim (get_elem? out i) [
  | none ↦ out
  | some held ↦ if preferred_copy host c held then set out i c else out
]

-- The loop of `collapseByRecording`.
unfoldable pub collapse_from :
    Host → List (String × ℕ) → List TrackFeatures → List TrackFeatures → List TrackFeatures
collapse_from host at out [] = out
collapse_from host at out (c ∷ cs) = elim (recording_of c.identity) [
  | none ↦ collapse_from host at (out ++ c ∷ []) cs
  | some rec ↦ elim (seen_at at rec) [
    | none ↦ collapse_from host ((rec, length out) ∷ at) (out ++ c ∷ []) cs
    | some i ↦ collapse_from host at (better_at host c out i) cs
  ]
]

unfoldable pub collapse_by_recording : Host → List TrackFeatures → List TrackFeatures
collapse_by_recording host candidates = collapse_from host [] [] candidates

-- `byId.get(id)`: of the rows with one id the last stands in the `Map`.
unfoldable pub by_id : List TrackFeatures → String → Option TrackFeatures
by_id [] id = none
by_id (c ∷ cs) id = elim (by_id cs id) [
  | none ↦ if same c.file_id id then some c else none
  | some t ↦ some t
]

-- The loop that turns the picked ids into entries.
unfoldable pub entries_of : String → List TrackFeatures → List String → List QueueEntry
entries_of label candidates [] = []
entries_of label candidates (id ∷ ids) = elim (by_id candidates id) [
  | none ↦ entries_of label candidates ids
  | some t ↦ to_auto_entry label t ∷ entries_of label candidates ids
]

pub record Request : Type 0 where
  pub seed : Option TrackFeatures
  pub need : ℕ

pub record Regenerated : Type 0 where
  pub queue : List QueueEntry
  pub requests : List Request

-- The rows that a strategy sees.
unfoldable pub offered_to : Host → QueueState → List TrackFeatures → List TrackFeatures
offered_to host s fetched =
    collapse_by_recording host (keep (λ c. not (is_taken (excluded_keys s) c.identity)) fetched)

abbrev pub context_of : QueueState → List TrackFeatures → StrategyContext
context_of s candidates = record {
  seed = seed_for s;
  candidates = candidates;
  history = s.history;
  need = (slots_for s).need;
}

-- The hop to the fallback for what a short selection leaves.
unfoldable pub fall_back : Host → AutoMethod → StrategyContext → List String → List String
fall_back host method ctx picked =
    if ltb (length picked) ctx.need
    then elim (fallback_method method) [
      | none ↦ picked
      | some other ↦
          picked
          ++ select host other (record ctx {
            candidates = keep (λ c. not (has picked (track_id_of c))) ctx.candidates;
            need = ctx.need - length picked;
          })
    ]
    else picked

unfoldable pub picked_ids : Host → QueueState → List TrackFeatures → List String
picked_ids host s candidates =
    let ctx = context_of s candidates in fall_back host s.method ctx (select host s.method ctx)

-- What `regenerate` makes of the fetched rows.
unfoldable pub with_fetched : Host → QueueState → List TrackFeatures → List QueueEntry
with_fetched host s fetched =
    let candidates = offered_to host s fetched in
    assemble_queue s (entries_of (method_label s.method) candidates (picked_ids host s candidates))

abbrev pub is_off : AutoMethod → Bool
is_off AutoMethod.off = true
is_off _ = false

unfoldable pub regenerate :
    Host → (Request → Option (List TrackFeatures)) → QueueState → Regenerated
regenerate host port s =
    let request : Request = record { seed = seed_for s; need = (slots_for s).need } in
    if is_off s.method || (slots_for s).need == 0
    then record { queue = assemble_queue s []; requests = [] }
    else record {
      queue = elim (port request) [
        | none ↦ assemble_queue s []
        | some fetched ↦ with_fetched host s fetched
      ];
      requests = request ∷ [];
    }
