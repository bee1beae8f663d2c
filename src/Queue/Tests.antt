-- ===== src/Queue/Tests.antt =====
-- The theorems on the queue at concrete inputs, and tests of the definitions.
use localchune.Queue.Strategies.Wheel.{key_penalty-harmonic_keys, listed, IsOnWheel}
use localchune.Queue.Camelot.{
  harmonic_keys, Letter, is_space, trim_end, trim_start, letter_of, match_key, parse_camelot,
}
use localchune.Queue.Samples.{ranked, playing-IsValid, playing, entry}
use text.Mathlib.Text.{starts_with}
use text.Mathlib.TextPositions.{starts_with-append}
use localchune.Queue.Strategies.Walk.{select}
use localchune.Queue.Engine.Editing.{reduce-remove_ranked, reduce-remove_pinned, reduce-move_pinned}
use localchune.Queue.Engine.Total.{reduce-eq-none_iff, IsBrokenEvent}
use localchune.Queue.Regenerate.Requests.{regenerate-Fits}
use localchune.Queue.Model.Fill.{SameTrack, Apart}
use localchune.Queue.Strategies.Contract.{select-IsSelection, distinct, IsSelection}
use localchune.Queue.Reorder.Laws.{move_item-move_item}
use localchune.Queue.Engine.Session.{step, here, next, Reach-Fits}
use localchune.Queue.Engine.Keeps.{reduce-IsValid}
use localchune.Queue.Engine.{
  selected, select_queue_entry, ids, played, track_ended, only, clear_queue, skipped, skip,
  remove_queue_entry, play_crate, move_queue_entry,
}
use localchune.Common.Number.{pos, nan, int}
use localchune.Queue.Reorder.{move_item}
use localchune.Queue.Regenerate.Fills.{IsFileId}
use localchune.Queue.Regenerate.Filled.{with_fetched-fills, ApartRows}
use localchune.Queue.Model.Assemble.{IsFresh, excluded_keys-IsFresh}
use localchune.Queue.Model.Fill.{not-SameTrack}
use localchune.Queue.Model.{
  is_taken, has_any, identity_tokens, excluded_keys, take_all, take_current, take_tokens,
  recording_of,
}
use localchune.Queue.Regenerate.Collapse.{collapse_by_recording-recs, recs}
use localchune.Queue.Regenerate.{
  context_of, with_fetched, regenerate, collapse_by_recording, seed_of,
}
use localchune.Queue.Model.Assemble.{
  tail_of-full, tail_of-IsFresh, assemble_queue-layout, tail_of, IsFresh,
}
use localchune.Queue.Engine.Valid.{IsValid, Fits}
use localchune.Queue.Engine.Reduce.{reduce_advance, reduce}
use localchune.Queue.Engine.Advancing.{reduce-select, reduce-skip, IsAdvance, Returns}
use localchune.Common.{
  ◌+◌, ◌≤◌, min, String, ◌≡◌, refl, sym, subst, ◌↔◌, ◌⊎◌, true, false, none, some, List, [], ◌∷◌,
  arith, leb, dec_str, length, get_elem?, All, has, Uniq,
}
use localchune.Queue.Model.{
  recording_of, identity_tokens, has_any, is_taken, fill, take_tokens, take_all, take_current,
  excluded_keys, slots_for, assemble_queue, QueueState, AutoMethod,
}
use localchune.Queue.Strategies.{relative_penalty, key_penalty, Host, TrackFeatures}

-- The tail drops what is pinned and what it has.
tail_test : ids (assemble_queue playing ranked) ≡ "a" ∷ "b" ∷ "c" ∷ "d" ∷ "e" ∷ []
unfolding assemble_queue slots_for excluded_keys take_current take_all take_tokens fill is_taken
    has_any has identity_tokens recording_of dec_str
tail_test = refl

tail_row : get_elem? (tail_of playing ranked) 1 ≡ some (entry "e")
unfolding slots_for excluded_keys take_current take_all take_tokens fill is_taken has_any has
    identity_tokens recording_of dec_str
tail_row = refl

abbrev after_skip : QueueState
after_skip = (reduce_advance playing (assemble_queue playing ranked) skipped).state

Reach-Fits_example : IsValid after_skip × Fits (assemble_queue after_skip [])
unfolding reduce
Reach-Fits_example = Reach-Fits [] playing-IsValid (
    next here (
      step (skip (assemble_queue playing ranked))
        (reduce_advance playing (assemble_queue playing ranked) skipped) (ranked, refl) refl refl))

reduce-IsValid_example : IsValid (record playing { intent = [] })
unfolding reduce
reduce-IsValid_example = reduce-IsValid playing clear_queue playing-IsValid tt refl

reduce-skip_example :
    Returns
      (reduce playing (skip (assemble_queue playing ranked)))
      (λ r. IsAdvance playing ranked 0 skipped r × (get_elem? r.state.history 0 ≡ some "a"))
    × Returns
        (reduce playing (track_ended (assemble_queue playing ranked)))
        (λ r. IsAdvance playing ranked 0 played r × (get_elem? r.state.history 0 ≡ some "a"))
reduce-skip_example = reduce-skip playing ranked playing-IsValid (entry "a") refl

reduce-select_example :
    Returns
      (reduce playing (select_queue_entry (int (pos (1 + 1))) (assemble_queue playing ranked)))
      (IsAdvance playing ranked 1 selected)
unfolding slots_for excluded_keys take_current take_all take_tokens fill is_taken has_any has
    identity_tokens recording_of dec_str
reduce-select_example = reduce-select playing ranked playing-IsValid 1 (omega arith)

reduce-eq-none_iff_example :
    (reduce playing (play_crate "k" (entry "x" ∷ []) nan none) ≡ none)
    ↔ IsBrokenEvent (play_crate "k" (entry "x" ∷ []) nan none)
reduce-eq-none_iff_example = reduce-eq-none_iff playing (play_crate "k" (entry "x" ∷ []) nan none)

reduce-remove_pinned_example :
    reduce playing (remove_queue_entry (int (pos (1 + 1))) (assemble_queue playing ranked))
    ≡ some (only (record playing { intent = entry "b" ∷ [] }))
reduce-remove_pinned_example =
    reduce-remove_pinned playing ranked playing-IsValid 1 (entry "c") refl

reduce-remove_ranked_example :
    Returns
      (reduce playing
        (remove_queue_entry (int (pos (1 + (2 + 1)))) (assemble_queue playing ranked)))
      (λ r.
        (r.state.intent ≡ playing.intent)
        × All (λ e. ¬ SameTrack (entry "e").identity e.identity) (tail_of r.state ranked))
reduce-remove_ranked_example =
    reduce-remove_ranked playing ranked playing-IsValid 1 (entry "e") ranked tail_row

reduce-move_pinned_example :
    reduce playing
      (move_queue_entry (int (pos (1 + 0))) (int (pos 9)) (assemble_queue playing ranked))
    ≡ some (only (record playing { intent = move_item playing.intent (int (pos 0)) (int (pos 8)) }))
reduce-move_pinned_example =
    reduce-move_pinned playing ranked playing-IsValid 0 (entry "b") (int (pos 9)) refl

move_item-move_item_example :
    move_item (move_item playing.intent (int (pos 0)) (int (pos 1))) (int (pos 1)) (int (pos 0))
    ≡ playing.intent
move_item-move_item_example = move_item-move_item playing.intent 0 1 (omega arith) (omega arith)

tail_of-IsFresh_example :
    All (λ e. IsFresh playing e.identity) (tail_of playing ranked) × Apart (tail_of playing ranked)
tail_of-IsFresh_example = tail_of-IsFresh playing ranked

tail_of-full_example :
    All
      (λ e. is_taken (take_all (excluded_keys playing) (tail_of playing ranked)) e.identity ≡ true)
      ranked
unfolding slots_for excluded_keys take_current take_all take_tokens fill is_taken has_any has
    identity_tokens recording_of dec_str
tail_of-full_example = tail_of-full playing ranked (omega arith)

assemble_queue-layout_example :
    assemble_queue playing ranked ≡ entry "a" ∷ entry "b" ∷ entry "c" ∷ tail_of playing ranked
assemble_queue-layout_example = assemble_queue-layout playing ranked (omega arith)

abbrev clockless : Host
clockless = record { date_parse = λ t. none; text_lt = λ s t. false }

abbrev row : String → TrackFeatures
row id = seed_of (entry id)

abbrev rows : List TrackFeatures
rows = row "b" ∷ row "d" ∷ row "e" ∷ []

collapse_by_recording-recs_example :
    Uniq (recs (collapse_by_recording clockless rows))
    × ((r : String) → has (recs (collapse_by_recording clockless rows)) r ≡ has (recs rows) r)
collapse_by_recording-recs_example = collapse_by_recording-recs clockless rows

select-IsSelection_example :
    IsSelection 22
      (distinct (context_of playing rows))
      (select clockless AutoMethod.shuffle (context_of playing rows))
unfolding slots_for
select-IsSelection_example =
    select-IsSelection clockless AutoMethod.shuffle (context_of playing rows) (λ p. cc)

-- A file's id that does not begin with `rec:` is not a recording's key.
unprefixed-IsFileId : (id : String) → starts_with id "rec:" ≡ false → IsFileId id
unprefixed-IsFileId id h r e =
    let yes : starts_with id "rec:" ≡ true =
      subst (λ v. starts_with v "rec:" ≡ true) (sym e) (starts_with-append "rec:" r) in
    cc

rows_proper : All (λ c. IsFileId c.file_id) rows
rows_proper = (
  unprefixed-IsFileId "b" refl,
  (unprefixed-IsFileId "d" refl, (unprefixed-IsFileId "e" refl, tt)),
)

-- Two rows that may come next, of two tracks.
abbrev next_rows : List TrackFeatures
next_rows = row "d" ∷ row "e" ∷ []

next_rows-IsFresh : All (λ (c : TrackFeatures). IsFresh playing c.identity) next_rows
unfolding is_taken has_any has identity_tokens excluded_keys take_all take_current take_tokens
    recording_of dec_str
next_rows-IsFresh = (
  excluded_keys-IsFresh playing (row "d").identity refl,
  (excluded_keys-IsFresh playing (row "e").identity refl, tt),
)

next_rows_apart : ApartRows next_rows
unfolding is_taken has_any has identity_tokens take_tokens recording_of dec_str
next_rows_apart = ((not-SameTrack [] (row "d").identity (row "e").identity refl, tt), (tt, tt))

with_fetched-fills_example :
    1 + (2 + min (slots_for playing).need 2) ≤ length (with_fetched clockless playing rows)
unfolding has dec_str
with_fetched-fills_example =
    with_fetched-fills clockless playing rows next_rows playing-IsValid (λ p. cc) rows_proper
      (unprefixed-IsFileId "a" refl, tt)
      (unprefixed-IsFileId "b" refl, (unprefixed-IsFileId "c" refl, tt)) (refl, (refl, (refl, tt)))
      ((1, refl), ((2, refl), tt)) next_rows-IsFresh next_rows_apart

regenerate-Fits_example :
    Fits (regenerate clockless (λ r. some rows) playing).queue
    × (length (regenerate clockless (λ r. some rows) playing).requests ≤ 1)
    × (((regenerate clockless (λ r. some rows) playing).requests ≡ [])
        ↔ ((playing.method ≡ AutoMethod.off) ⊎ ((slots_for playing).need ≡ 0)))
regenerate-Fits_example = regenerate-Fits clockless (λ r. some rows) playing playing-IsValid

key_penalty-harmonic_keys_example :
    IsOnWheel (record { num = 12; letter = Letter.a_side })
    × IsOnWheel (record { num = 1; letter = Letter.a_side })
    × (leb (key_penalty (some " 12a") (some "1A")) relative_penalty
        ≡ listed
            (record { num = 1; letter = Letter.a_side })
            (harmonic_keys (some (record { num = 12; letter = Letter.a_side }))))
    × (key_penalty (some " 12a") (some "1A") ≡ key_penalty (some "1A") (some " 12a"))
unfolding parse_camelot match_key letter_of trim_start trim_end is_space
key_penalty-harmonic_keys_example =
    key_penalty-harmonic_keys (some " 12a") (some "1A")
      (record { num = 12; letter = Letter.a_side }) (record { num = 1; letter = Letter.a_side })
      refl refl
