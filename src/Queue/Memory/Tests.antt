-- ===== src/Queue/Memory/Tests.antt =====
-- The theorems on the stored queue at concrete inputs.
use localchune.Queue.Memory.Stored.{restored_state-serialize_state, remembered}
use localchune.Queue.Memory.Reading.{restored_state}
use localchune.Queue.Memory.Bounds.{restored_state-IsBounded, IsBounded}
use localchune.Queue.Memory.{payload_of, memory_json, serialize_state, Runtime}
use localchune.Queue.Engine.Valid.{IsValid}
use localchune.Queue.Regenerate.{is_off}
use localchune.Queue.Strategies.{Host}
use localchune.Common.{◌≡◌, refl, false, not, none, some, arith, if◌then◌else◌, dec_str, same}
use localchune.Queue.Samples.{playing, playing-IsValid}

-- A clock whose texts are all read back as 5, and a runtime that holds one payload.
abbrev five : Host
five = record { date_parse = λ t. some 5; text_lt = λ s t. false }

abbrev holding : Runtime
holding = record {
  stringify = λ j. "payload";
  parse = λ t. if same t "" then none else some (memory_json (payload_of playing "now"));
  iso = λ n. "now";
}

restored_state-serialize_state_example :
    (restored_state five holding (some (serialize_state holding playing 5)) 9 ≡ record {
      state = remembered playing;
      needs_hydration = not (is_off playing.method);
      stale = false;
    })
    × IsValid (remembered playing)
unfolding serialize_state dec_str
restored_state-serialize_state_example =
    restored_state-serialize_state five holding playing 5 9 playing-IsValid ((λ p. cc), tt)
      ((λ p. cc), ((λ p. cc), tt)) refl refl refl (omega arith)

restored_state-IsBounded_example : IsBounded (restored_state five holding (some "payload") 9).state
restored_state-IsBounded_example = restored_state-IsBounded five holding (some "payload") 9
