-- ===== src/Worker/Tests.antt =====
-- The theorems on the workers at concrete inputs.
use localchune.Worker.Consumer.Letters.{handle_dead_letter-IsLetter, IsLetter}
use localchune.Queue.Memory.{member_of, Json, object, string, member, no_members}
use localchune.Worker.Consumer.{
  all_match, is_extension_char, is_extension_end, is_key_char, is_hex, run_of, then_text, then_run,
  dash_then, at_end, is_audio_key, is_uuid, message_of, handle_dead_letter, parse_message, Deps,
  AnalyzeMessage, gives,
}
use localchune.Common.{String, ◌≡◌, refl, false, some, dec_str}

abbrev sample_id : String
sample_id = "01234567-89ab-cdef-0123-456789abcdef"

abbrev sample_key : String
sample_key = "audio/01234567-89ab-cdef-0123-456789abcdef/01234567-89ab-cdef-0123-456789abcdef.flac"

abbrev sample_body : Json
sample_body = object (
    member "file_id" (string sample_id)
      (member "r2_key" (string sample_key) (member "analysis_version" (string "3") no_members)))

abbrev sample_message : AnalyzeMessage
sample_message = record { file_id = sample_id; r2_key = sample_key; analysis_version = "3" }

-- The container answers that the file is no good; the database takes what it is told.
abbrev sample_deps : Deps
sample_deps = record {
  begin = λ id. gives "analysing";
  analyse = λ msg. gives (record { is_ok = false; error = some "decode" });
  persist = λ r. gives "stored";
  fail = λ id reason. gives "failed";
  dedup = λ id. gives tt;
  file_state = λ id. gives (some (record { state = "analysing"; state_changed_at = "t" }));
  date_parse = λ t. some 1000000;
}

sample_parses : parse_message sample_body ≡ some sample_message
unfolding parse_message message_of member_of is_uuid is_audio_key at_end dash_then then_run
    then_text run_of is_hex is_key_char is_extension_end is_extension_char all_match dec_str
sample_parses = refl

handle_dead_letter-IsLetter_example :
    IsLetter sample_deps 1000001
      (handle_dead_letter sample_body 1 sample_deps 1000001).calls
      (handle_dead_letter sample_body 1 sample_deps 1000001).outcome
handle_dead_letter-IsLetter_example =
    handle_dead_letter-IsLetter sample_body 1 sample_deps 1000001 sample_message sample_parses
