-- ===== src/Queue/Strategies.antt =====
-- src/lib/queue-strategies.ts: the scores, the order and the selections. A tempo is a whole number
-- of hundredths, so a score is a fraction over `score_scale` of the seed, and is computed exactly.
pub mod Walk
pub mod Contract
pub mod Wheel
use localchune.Queue.Camelot.{parse_camelot, Letter, Camelot}
use localchune.Common.{
  ℕ, zero, suc, ◌+◌, ◌-◌, ◌*◌, ◌/◌, ◌%◌, ◌^◌, ◌≤◌, ◌<◌, min, max, String, ◌≡◌, refl, sym, ap, subst,
  ◌∙◌, ◌≡⟨◌⟩◌, ◌∎, ◌≢◌, ◌↔◌, ◌⊎◌, inl, inr, Bool, true, false, not, ◌&&◌, ◌||◌, Option, none, some,
  List, [], ◌∷◌, ◌++◌, map, arith, dec_lt, dec_le, ℕ_discrete, ltb, leb, ◌==◌, if◌then◌else◌,
  Bool-cases, Option-cases, dec_str, same, length, get_elem?, take, drop, keep, find_index,
  remove_at, insert_at, set, length-append, length-take, length-drop, take_of_length-le,
  length-keep-le, All, All-append, All-take, All-drop, All-keep, has, has-append, has_self, Uniq,
  Uniq-append, unique_by, has-take, has-drop, has-keep, Uniq-take, Uniq-drop, Uniq-keep,
  has-keep-not, unique_by-fresh, unique_by-Uniq, has-unique_by, has-drop-suc, All-of_has,
}
use localchune.Queue.Model.{TrackIdentity}

-- What the runtime gives: `Date.parse` (`none` is NaN) and `<` on texts.
pub record Host : Type 0 where
  pub date_parse : String → Option ℕ
  pub text_lt : String → String → Bool

pub record TrackFeatures : Type 0 where
  pub identity : TrackIdentity
  pub open identity use *
  pub display_artist : Option String
  pub display_title : String
  pub duration_ms : Option ℕ
  pub bpm : Option ℕ
  pub key_camelot : Option String
  pub quality_tier : Option ℕ
  pub like_count : ℕ
  pub play_count : ℕ
  pub created_at : String

pub record StrategyContext : Type 0 where
  pub seed : Option TrackFeatures
  pub candidates : List TrackFeatures
  pub history : List String
  pub need : ℕ

-- The penalties for keys, in halves.
abbrev pub key_free_hours : ℕ
key_free_hours = 1

abbrev pub mode_swap_penalty : ℕ
mode_swap_penalty = 3

abbrev pub relative_penalty : ℕ
relative_penalty = 1

abbrev pub unknown_key_penalty : ℕ
unknown_key_penalty = 6

abbrev pub unknown_bpm_penalty : ℕ
unknown_bpm_penalty = 2

abbrev pub distance : ℕ → ℕ → ℕ
distance a b = if leb a b then b - a else a - b

abbrev pub same_letter : Letter → Letter → Bool
same_letter Letter.a_side Letter.a_side = true
same_letter Letter.b_side Letter.b_side = true
same_letter _ _ = false

-- `keyPenalty` of two parsed keys, in halves.
unfoldable pub wheel_penalty : Camelot → Camelot → ℕ
wheel_penalty a b =
    let raw = distance a.num b.num in
    let hours = min raw (12 - raw) in
    let same_side = same_letter a.letter b.letter in
    let mode_cost = if same_side then 0 else mode_swap_penalty in
    if hours == 0 && not same_side
    then relative_penalty
    else 2 * (hours - key_free_hours) + mode_cost

abbrev pub parsed_penalty : Option Camelot → Option Camelot → ℕ
parsed_penalty (some a) (some b) = wheel_penalty a b
parsed_penalty _ _ = unknown_key_penalty

unfoldable pub key_penalty : Option String → Option String → ℕ
key_penalty a b = parsed_penalty (parse_camelot a) (parse_camelot b)

-- A tempo that is a number above 0.
abbrev pub positive : Option ℕ → Option ℕ
positive none = none
positive (some n) = if n == 0 then none else some n

-- The tempo by which the seed's penalties are divided, and the denominator of its scores.
abbrev pub tempo_unit : Option ℕ → ℕ
tempo_unit a = elim (positive a) [ none ↦ 1 | some n ↦ n ]

abbrev pub score_scale : Option ℕ → ℕ
score_scale a = 6 * tempo_unit a

-- `bpmPenalty` times `score_scale a`: |a - b| / a * 100 / 3 is |a - b| * 200 over 6 a.
unfoldable pub bpm_penalty : Option ℕ → Option ℕ → ℕ
bpm_penalty a b = elim (positive a) [
  | none ↦ unknown_bpm_penalty * score_scale a
  | some x ↦ elim (positive b) [
    | none ↦ unknown_bpm_penalty * score_scale a
    | some y ↦ distance x y * 200
  ]
]

abbrev pub seed_bpm : Option TrackFeatures → Option ℕ
seed_bpm none = none
seed_bpm (some t) = t.bpm

abbrev pub seed_key : Option TrackFeatures → Option String
seed_key none = none
seed_key (some t) = t.key_camelot

-- `score` times the scale; the key's halves count `3 * tempo_unit` each.
unfoldable pub score : Option TrackFeatures → TrackFeatures → ℕ
score seed cand =
    key_penalty (seed_key seed) cand.key_camelot * (3 * tempo_unit (seed_bpm seed))
    + bpm_penalty (seed_bpm seed) cand.bpm

-- The score of the tempo strategy.
unfoldable pub bpm_score : Option TrackFeatures → TrackFeatures → ℕ
bpm_score seed cand = bpm_penalty (seed_bpm seed) cand.bpm

-- `Math.abs(sa - sb) > SCORE_EPSILON` for scores over the scale; the epsilon is 1e-9.
abbrev pub differ : ℕ → ℕ → ℕ → Bool
differ scale sa sb = ltb scale (distance sa sb * 1000000000)

abbrev pub or_zero : Option ℕ → ℕ
or_zero none = 0
or_zero (some n) = n

abbrev pub track_id_of : TrackFeatures → String
track_id_of t = t.file_id
