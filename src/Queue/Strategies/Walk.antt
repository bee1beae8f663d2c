-- ===== src/Queue/Strategies/Walk.antt =====
-- src/lib/queue-strategies.ts: the total order, the greedy walk, the seeded shuffle and the registry.
use localchune.Queue.Strategies.{
  seed_bpm, differ, bpm_score, track_id_of, score_scale, score, or_zero, TrackFeatures,
  StrategyContext, Host,
}
use localchune.Queue.Camelot.{codes}
use localchune.Common.{
  ℕ, zero, suc, ◌+◌, ◌-◌, ◌*◌, ◌/◌, ◌%◌, ◌^◌, String, Bool, not, Option, none, some, List, [], ◌∷◌,
  map, ltb, ◌==◌, if◌then◌else◌, length, get_elem?, take, remove_at, set, unique_by,
}
use Prim.Native.Nat.{bit_xor, bit_or}
use localchune.Queue.Model.{AutoMethod, off, harmonic, bpm, shuffle}

-- `compare(a, b) < 0`, for scores over the scale.
unfoldable pub precedes : Host → ℕ → ℕ → ℕ → TrackFeatures → TrackFeatures → Bool
precedes host scale sa sb a b =
    let na = or_zero (host.date_parse a.created_at) in
    let nb = or_zero (host.date_parse b.created_at) in
    if differ scale sa sb
    then ltb sa sb
    else if not (a.like_count == b.like_count)
    then ltb b.like_count a.like_count
    else if not (na == nb)
    then ltb nb na
    else host.text_lt a.file_id b.file_id

abbrev pub Score : Type 0
Score = Option TrackFeatures → TrackFeatures → ℕ

unfoldable pub beats : Host → Score → Option TrackFeatures → TrackFeatures → TrackFeatures → Bool
beats host score_of seed a b =
    precedes host (score_scale (seed_bpm seed)) (score_of seed a) (score_of seed b) a b

module _ {ℓ} {A : Type ℓ} (less : A → A → Bool) where
  -- The loop over `i` that keeps the index of the best element so far.
  unfoldable pub best_from : ℕ → ℕ → A → List A → ℕ
  best_from i best x [] = best
  best_from i best x (y ∷ ys) =
      let found = best_from (suc i) i y ys in
      let kept = best_from (suc i) best x ys in if less y x then found else kept

  unfoldable pub best_index : List A → ℕ
  best_index [] = 0
  best_index (x ∷ xs) = best_from 1 0 x xs

-- The `while` of `greedyWalk`, for the picks that are still wanted.
unfoldable pub walk_from :
    Host → Score → ℕ → Option TrackFeatures → List TrackFeatures → List String
walk_from host score_of zero seed remaining = []
walk_from host score_of (suc want) seed remaining =
    let best = best_index (beats host score_of seed) remaining in
    elim (get_elem? remaining best) [
      | none ↦ []
      | some chosen ↦
          chosen.file_id ∷ walk_from host score_of want (some chosen) (remove_at best remaining)
    ]

unfoldable pub greedy_walk : Host → Score → StrategyContext → List String
greedy_walk host score_of ctx =
    walk_from host score_of ctx.need ctx.seed (unique_by track_id_of [] ctx.candidates)

abbrev pub word : ℕ
word = 2 ^ 32

abbrev pub imul : ℕ → ℕ → ℕ
imul a b = a * b % word

-- The UTF-16 code units of a text.
unfoldable pub code_units : List ℕ → List ℕ
code_units [] = []
code_units (c ∷ cs) =
    let rest = code_units cs in
    if ltb c 65536
    then c ∷ rest
    else (55296 + (c - 65536) / 1024) ∷ (56320 + (c - 65536) % 1024) ∷ rest

unfoldable pub fnv : ℕ → List ℕ → ℕ
fnv h [] = h
fnv h (u ∷ us) = fnv (imul (bit_xor h u) 0x01000193) us

-- `hashSeed`: FNV-1a over the code units, never 0.
unfoldable pub hash_seed : String → ℕ
hash_seed s = let h = fnv 0x811c9dc5 (code_units (codes s)) in if h == 0 then 0x9e3779b9 else h

-- One call of the generator of `mulberry32`: the state it leaves, and the word it gives over 2^32.
abbrev pub next_state : ℕ → ℕ
next_state a = (a + 0x6d2b79f5) % word

unfoldable pub output_of : ℕ → ℕ
output_of a =
    let t = imul (bit_xor a (a / 2 ^ 15)) (bit_or a 1) in
    let u = bit_xor t ((t + imul (bit_xor t (t / 2 ^ 7)) (bit_or t 61)) % word) in
    bit_xor u (u / 2 ^ 14) % word

-- The swap of `pool[i]` and `pool[j]`.
unfoldable pub swap_at {ℓ} : {A : Type ℓ} → List A → ℕ → ℕ → List A
swap_at xs i j = elim (get_elem? xs i) [
  | none ↦ xs
  | some x ↦ elim (get_elem? xs j) [ none ↦ xs | some y ↦ set (set xs i y) j x ]
]

-- `Math.floor(rng() * (i + 1))`.
abbrev pub pick_below : ℕ → ℕ → ℕ
pick_below out i = out * (i + 1) / word

-- The loop of the shuffle, from `i` down to 1.
unfoldable pub shuffle_down {ℓ} : {A : Type ℓ} → ℕ → ℕ → List A → List A
shuffle_down zero state pool = pool
shuffle_down (suc i) state pool =
    let a = next_state state in
    shuffle_down i a (swap_at pool (suc i) (pick_below (output_of a) (suc i)))

abbrev pub seed_id : Option TrackFeatures → String
seed_id none = ""
seed_id (some t) = t.file_id

unfoldable pub shuffled : StrategyContext → List TrackFeatures
shuffled ctx =
    let pool = unique_by track_id_of [] ctx.candidates in
    shuffle_down (length pool - 1) (hash_seed (seed_id ctx.seed)) pool

-- The registry.
unfoldable pub select : Host → AutoMethod → StrategyContext → List String
select host off ctx = []
select host harmonic ctx = greedy_walk host score ctx
select host bpm ctx = greedy_walk host bpm_score ctx
select host shuffle ctx = map track_id_of (take ctx.need (shuffled ctx))

-- `FALLBACK_METHOD`.
unfoldable pub fallback_method : AutoMethod → Option AutoMethod
fallback_method harmonic = some bpm
fallback_method _ = none

-- `METHOD_LABELS`.
unfoldable pub method_label : AutoMethod → String
method_label off = "OFF"
method_label harmonic = "MIX"
method_label bpm = "TEMPO"
method_label shuffle = "SHUFFLE"
