-- ===== src/Queue/Drawer/Lines.antt =====
-- src/lib/queue-view.ts: the texts of the drawer and its three sections.
use localchune.Queue.Regenerate.{is_off}
use localchune.Queue.Model.{head_size, queue_max, QueueState, QueueEntry}
use localchune.Common.{
  inr, inl, Bool-cases, arith, ◌≡◌, ◌<◌, ℕ, zero, suc, ◌/◌, ◌%◌, String, Bool, true, false, not,
  ◌&&◌, Option, none, some, List, [], ◌∷◌, ltb, ◌==◌, if◌then◌else◌, same, length, get_elem?,
}
use Prim.Native.String
use mathlib.Core.Path.{refl}
use localchune.Queue.Drawer.{Truncation, rows_from, QueueRow}
use localchune.Queue.Strategies.Walk.{method_label}

abbrev pub digits : List String
digits = "0" ∷ "1" ∷ "2" ∷ "3" ∷ "4" ∷ "5" ∷ "6" ∷ "7" ∷ "8" ∷ "9" ∷ []

abbrev pub digit : ℕ → String
digit d = elim (get_elem? digits d) [ none ↦ "" | some t ↦ t ]

-- The decimal digits of a number before a text, on fuel.
unfoldable pub decimal_from : ℕ → ℕ → String → String
decimal_from zero n acc = acc
decimal_from (suc fuel) n acc =
    let more = String.◌++◌ (digit (n % 10)) acc in
    let rest = decimal_from fuel (n / 10) more in if ltb n 10 then more else rest

-- Any fuel above the number gives the same digits.
pub decimal_from-enough :
    (f g n : ℕ) (acc : String) → n < f → n < g → decimal_from f n acc ≡ decimal_from g n acc
unfolding decimal_from
decimal_from-enough zero g n acc h k = absurd (omega arith)
decimal_from-enough (suc f) zero n acc h k = absurd (omega arith)
decimal_from-enough (suc f) (suc g) n acc h k = elim (Bool-cases (ltb n 10)) [
  | inl small ↦ rw small refl
  | inr large ↦
      let more = String.◌++◌ (digit (n % 10)) acc in
      let below : (n / 10 < f) × (n / 10 < g) = ground arith in
      rw large (decimal_from-enough f g (n / 10) more below.0 below.1)
]

-- A number in a template.
unfoldable pub decimal : ℕ → String
decimal n = decimal_from (suc n) n ""

abbrev pub text_of : List String → String
text_of [] = ""
text_of (t ∷ ts) = String.◌++◌ t (text_of ts)

-- A label that is not null and not empty.
abbrev pub named : Option String → Option String
named none = none
named (some label) = if same label "" then none else some label

unfoldable pub truncation_line : Truncation → String
truncation_line t =
    let count = text_of (decimal t.added ∷ " of " ∷ decimal t.offered ∷ []) in
    elim (named t.label) [ none ↦ count | some label ↦ text_of (label ∷ " · " ∷ count ∷ []) ]

pub record AppendOutcome : Type 0 where
  pub added : ℕ
  pub offered : ℕ
  pub label : Option String
  pub full : Bool

abbrev pub from_label : Option String → String
from_label label = elim (named label) [ none ↦ "" | some l ↦ String.◌++◌ " from " l ]

unfoldable pub append_report : AppendOutcome → String
append_report o =
    let from = from_label o.label in
    let cap = decimal queue_max in
    let counts = text_of ("added " ∷ decimal o.added ∷ " of " ∷ decimal o.offered ∷ from ∷ []) in
    if o.offered == 0
    then String.◌++◌ "nothing to add" from
    else if o.added == 0
    then (if not o.full
        then (if o.offered == 1 then "already in the queue" else String.◌++◌ "nothing added" from)
        else text_of ("queue is full (" ∷ cap ∷ ") — nothing added" ∷ from ∷ []))
    else if ltb o.added o.offered
    then (if o.full then text_of (counts ∷ " — queue is full (" ∷ cap ∷ ")" ∷ []) else counts)
    else text_of
        ("added " ∷ decimal o.added ∷ " track" ∷ (if o.added == 1 then "" else "s") ∷ from ∷ [])

unfoldable pub entry_title : QueueEntry → String
entry_title e = elim (named e.display_artist) [
  | none ↦ e.display_title
  | some artist ↦ text_of (artist ∷ " — " ∷ e.display_title ∷ [])
]

abbrev pub is_empty {ℓ} : {A : Type ℓ} → List A → Bool
is_empty [] = true
is_empty (x ∷ xs) = false

unfoldable pub auto_note : QueueState → ℕ → Option String → Option String
auto_note s tail_length (some failed) = some failed
auto_note s tail_length none =
    if is_off s.method
    then some "Autoplay is off. Playback stops when the queue runs out."
    else if ltb 0 tail_length
    then none
    else if head_size s.current == 0 && is_empty s.intent
    then some "Play something to seed the mix."
    else some "Nothing harmonically close is left in the pool."

pub data SectionId : Type 0 where
  now yours auto : SectionId

pub record QueueSection : Type 0 where
  pub id : SectionId
  pub title : String
  pub rows : List QueueRow
  pub note : Option String

pub record RenderOptions : Type 0 where
  pub truncation : Option Truncation
  pub candidate_error : Option String

abbrev pub note_if_empty : List QueueRow → String → Option String
note_if_empty [] note = some note
note_if_empty (r ∷ rs) note = none

abbrev pub yours_note : Option Truncation → List QueueRow → Option String
yours_note none rows = note_if_empty rows "Nothing queued by hand."
yours_note (some t) rows = some (truncation_line t)

unfoldable pub render_queue_sections :
    List QueueEntry → QueueState → RenderOptions → List QueueSection
render_queue_sections queue s opts =
    let layers = rows_from s 0 queue in
    record {
      id = SectionId.now;
      title = "NOW PLAYING";
      rows = layers.now;
      note = note_if_empty layers.now "Nothing playing.";
    }
    ∷ record {
      id = SectionId.yours;
      title = "YOUR QUEUE";
      rows = layers.yours;
      note = yours_note opts.truncation layers.yours;
    }
    ∷ record {
      id = SectionId.auto;
      title = String.◌++◌ "UP NEXT · AUTO — " (method_label s.method);
      rows = layers.auto;
      note = auto_note s (length layers.auto) opts.candidate_error;
    }
    ∷ []
