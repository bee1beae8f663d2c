-- ===== src/Queue/Drawer.antt =====
-- src/lib/queue-view.ts: the rows and sections of the drawer, the lines about a truncation, and the
-- list that a click on a row plays.
pub mod Sections
pub mod Lines
pub mod Played
pub mod Reported
mod Tests
use localchune.Queue.Model.{head_size, QueueState, QueueOrigin, QueueEntry}
use localchune.Common.Number.{pos, negsuc, int, Number}
use localchune.Common.{
  ℕ, zero, suc, ◌+◌, ◌-◌, ◌*◌, ◌/◌, ◌%◌, ◌^◌, ◌≤◌, ◌<◌, min, max, String, ◌≡◌, refl, sym, ap, subst,
  ◌∙◌, ◌≡⟨◌⟩◌, ◌∎, ◌≢◌, ◌↔◌, ◌⊎◌, inl, inr, Bool, true, false, not, ◌&&◌, ◌||◌, Option, none, some,
  List, [], ◌∷◌, ◌++◌, map, arith, dec_lt, dec_le, ℕ_discrete, ltb, leb, ◌==◌, if◌then◌else◌,
  Bool-cases, Option-cases, dec_str, same, length, get_elem?, take, drop, keep, find_index,
  remove_at, insert_at, set, length-append, length-take, length-drop, take_of_length-le,
  length-keep-le, length-map, All, All-append, All-take, All-drop, All-keep, has, has-append,
  has_self, Uniq, Uniq-append, unique_by, has-take, has-of_take, has-drop, has-keep, Uniq-take,
  Uniq-drop, Uniq-keep, has-keep-not, unique_by-fresh, unique_by-Uniq, has-unique_by, has-drop-suc,
  has-remove_at, has-at, Uniq-remove_at, has-of_unique_by, All-of_has,
}
use Prim.Native.Char.{Char, code}
use Prim.Native.String
use localchune.Queue.Camelot.{is_space}
use localchune.Queue.Engine.{ids, entry_id}
use localchune.Queue.Strategies.Walk.{method_label}

-- A text over characters, without the white space at its start.
unfoldable pub trim_left : String → String
trim_left String.[] = ""
trim_left (String.◌∷◌ c s) =
    let rest = trim_left s in if is_space (code c) then rest else String.◌∷◌ c s

abbrev pub unless_blank : Char → String → String
unless_blank c String.[] = if is_space (code c) then "" else String.◌∷◌ c ""
unless_blank c (String.◌∷◌ d s) = String.◌∷◌ c (String.◌∷◌ d s)

unfoldable pub trim_right : String → String
trim_right String.[] = ""
trim_right (String.◌∷◌ c s) = unless_blank c (trim_right s)

unfoldable pub trim : String → String
trim s = trim_right (trim_left s)

-- A number of a row: a text of the DOM, a number of a JSON route, or null and undefined. A number
-- that is not finite is `none`.
pub data RowNumber : Type 0 where
  text : String → RowNumber
  number : Option ℕ → RowNumber
  absent : RowNumber

pub record QueueRowData : Type 0 where
  pub file_id : String
  pub track_id : Option String
  pub artist : Option String
  pub title : Option String
  pub duration_ms : RowNumber
  pub bpm : RowNumber
  pub key_camelot : Option String

-- `Number` on a text, in the unit of its field; `none` is a number that is not finite.
abbrev pub ToNumber : Type 0
ToNumber = String → Option ℕ

unfoldable pub num_or_null : ToNumber → RowNumber → Option ℕ
num_or_null to_number (number n) = n
num_or_null to_number absent = none
num_or_null to_number (text t) = if same (trim t) "" then none else to_number t

unfoldable pub str_or_null : Option String → Option String
str_or_null none = none
str_or_null (some v) = let t = trim v in if same t "" then none else some t

abbrev pub or_empty : Option String → String
or_empty none = ""
or_empty (some t) = t

unfoldable pub to_queue_entry : ToNumber → QueueRowData → QueueOrigin → Option String → QueueEntry
to_queue_entry to_number row origin label = record {
  identity = record { file_id = row.file_id; track_id = str_or_null row.track_id };
  display_artist = str_or_null row.artist;
  display_title = or_empty row.title;
  duration_ms = num_or_null to_number row.duration_ms;
  bpm = num_or_null to_number row.bpm;
  key_camelot = str_or_null row.key_camelot;
  origin = origin;
  source_label = label;
}

unfoldable pub resumed_entry : String → String → QueueEntry
resumed_entry file_id title = record {
  identity = record { file_id = file_id; track_id = none };
  display_artist = none;
  display_title = title;
  duration_ms = none;
  bpm = none;
  key_camelot = none;
  origin = QueueOrigin.current;
  source_label = none;
}

pub record ListContext : Type 0 where
  pub list : List QueueEntry
  pub index : Number
  pub source_label : Option String

-- The loop of `readListContext` over the rows.
unfoldable pub list_from :
    ToNumber → Option String → List String → List QueueRowData → List QueueEntry
list_from to_number label seen [] = []
list_from to_number label seen (row ∷ rows) =
    let skipped = list_from to_number label seen rows in
    let pushed =
      to_queue_entry to_number row QueueOrigin.list label
      ∷ list_from to_number label (row.file_id ∷ seen) rows in
    if same row.file_id "" then skipped else if has seen row.file_id then skipped else pushed

-- The result of `findIndex`, which is -1 for none.
abbrev pub index_of : Option ℕ → Number
index_of none = int (negsuc 0)
index_of (some i) = int (pos i)

unfoldable pub read_list_context :
    ToNumber → List QueueRowData → String → Option String → ListContext
read_list_context to_number rows file_id label =
    let list = list_from to_number label [] rows in
    record {
      list = list;
      index = index_of (find_index (λ e. same (entry_id e) file_id) list);
      source_label = label;
    }

pub record Truncation : Type 0 where
  pub label : Option String
  pub added : ℕ
  pub offered : ℕ

unfoldable pub truncation_for : Option ℕ → Option ℕ → Option String → Bool → Option Truncation
truncation_for (some added) (some offered) label cap_reached =
    if cap_reached && ltb added offered
    then some (record { label = label; added = added; offered = offered })
    else none
truncation_for _ _ label cap_reached = none

pub record QueueRow : Type 0 where
  pub index : ℕ
  pub entry : QueueEntry
  pub removable : Bool
  pub reorderable : Bool

-- The three lists that `renderQueueSections` fills.
pub record Layers : Type 0 where
  pub now : List QueueRow
  pub yours : List QueueRow
  pub auto : List QueueRow

-- The body of the `forEach`; what follows the row stands behind it.
unfoldable pub place : QueueState → ℕ → QueueEntry → Layers → Layers
place s index entry rest =
    let row : Bool → Bool → QueueRow = λ removable reorderable. record {
      index = index;
      entry = entry;
      removable = removable;
      reorderable = reorderable;
    } in
    if index == 0 && ltb 0 (head_size s.current)
    then record rest { now = row false false ∷ rest.now }
    else if has (ids s.intent) (entry_id entry)
    then record rest { yours = row true true ∷ rest.yours }
    else record rest { auto = row true false ∷ rest.auto }

unfoldable pub rows_from : QueueState → ℕ → List QueueEntry → Layers
rows_from s index [] = record { now = []; yours = []; auto = [] }
rows_from s index (e ∷ es) = place s index e (rows_from s (suc index) es)
