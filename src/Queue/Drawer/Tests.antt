-- ===== src/Queue/Drawer/Tests.antt =====
-- The theorems on the drawer at concrete inputs, and tests of its texts.
use localchune.Queue.Camelot.{is_space}
use localchune.Queue.Drawer.Played.{read_list_context-IsPlayed, playable, IsPlayed}
use localchune.Queue.Model.Assemble.{tail_of}
use localchune.Queue.Drawer.Reported.{reduce-IsAdded, IsAdded}
use localchune.Queue.Engine.{play_track, add_to_queue}
use localchune.Queue.Drawer.Sections.{render_queue_sections-rows, numbered}
use localchune.Queue.Model.{QueueOrigin, assemble_queue}
use localchune.Queue.Engine.Reduce.{reduce}
use localchune.Queue.Engine.Advancing.{Returns}
use localchune.Queue.Drawer.Lines.{
  decimal_from, decimal, truncation_line, render_queue_sections, append_report, RenderOptions,
}
use localchune.Queue.Drawer.{
  trim_right, trim_left, trim, read_list_context, num_or_null, text, str_or_null, to_queue_entry,
  QueueRowData,
}
use localchune.Common.{
  ℕ, String, ◌≡◌, refl, true, false, Option, none, some, List, [], ◌∷◌, map, dec_str, has,
}
use localchune.Queue.Samples.{playing, playing-IsValid, ranked, entry}

abbrev decimals : String → Option ℕ
decimals t = none

abbrev plain : RenderOptions
plain = record { truncation = none; candidate_error = none }

abbrev dom_row : String → QueueRowData
dom_row id = record {
  file_id = id;
  track_id = some " ";
  artist = none;
  title = some id;
  duration_ms = text "";
  bpm = text "128";
  key_camelot = some " 8A ";
}

abbrev table : List QueueRowData
table = dom_row "a" ∷ dom_row "" ∷ dom_row "b" ∷ dom_row "a" ∷ dom_row "c" ∷ []

-- A blank recording is none, and the key is trimmed.
to_queue_entry_test :
    to_queue_entry (λ t. some 12800) (dom_row "a") QueueOrigin.list none ≡ record (entry "a") {
      identity = record { file_id = "a"; track_id = none };
      bpm = some 12800;
      key_camelot = some "8A";
    }
unfolding to_queue_entry str_or_null num_or_null trim trim_left trim_right is_space dec_str
to_queue_entry_test = refl

append_report_test :
    append_report (record { added = 4; offered = 17; label = some "warehouse"; full = true })
    ≡ "added 4 of 17 from warehouse — queue is full (25)"
unfolding append_report decimal decimal_from dec_str
append_report_test = refl

truncation_line_test :
    truncation_line (record { label = some "warehouse"; added = 24; offered = 60 })
    ≡ "warehouse · 24 of 60"
unfolding truncation_line decimal decimal_from dec_str
truncation_line_test = refl

render_queue_sections-rows_example :
    map (λ d. d.rows) (render_queue_sections (assemble_queue playing ranked) playing plain)
    ≡ numbered 0 false false (entry "a" ∷ [])
      ∷ numbered 1 true true (entry "b" ∷ entry "c" ∷ [])
      ∷ numbered 3 true false (tail_of playing ranked)
      ∷ []
render_queue_sections-rows_example = render_queue_sections-rows playing ranked plain playing-IsValid

read_list_context-IsPlayed_example :
    Returns
      (reduce playing (
        play_track "b"
          (read_list_context decimals table "b" none).list
          (read_list_context decimals table "b" none).index
          none))
      (IsPlayed "b" (playable table))
unfolding has dec_str
read_list_context-IsPlayed_example =
    read_list_context-IsPlayed decimals table "b" none playing (λ p. cc) refl

reduce-IsAdded_example :
    Returns (reduce playing (add_to_queue ranked)) (IsAdded playing ranked (some "pool"))
reduce-IsAdded_example = reduce-IsAdded playing ranked (some "pool")
