-- ===== src/Worker/Consumer.antt =====
-- src/workers/analysis/src/consumer.ts: what becomes of one message of the analysis queue. The effects
-- are what the platform answers to each call, and a run keeps the calls that it made.
pub mod Settled
pub mod Letters
use Prim.Native.String
use localchune.Common.{
  ℕ, zero, suc, ◌+◌, ◌-◌, ◌*◌, ◌/◌, ◌%◌, ◌^◌, ◌≤◌, ◌<◌, min, max, String, ◌≡◌, refl, sym, ap, subst,
  ◌∙◌, ◌≡⟨◌⟩◌, ◌∎, ◌≢◌, ◌↔◌, ◌⊎◌, inl, inr, Bool, true, false, not, ◌&&◌, ◌||◌, Option, none, some,
  List, [], ◌∷◌, ◌++◌, map, arith, dec_lt, dec_le, ℕ_discrete, ltb, leb, ◌==◌, if◌then◌else◌,
  Bool-cases, Option-cases, dec_str, same, length, get_elem?, take, drop, keep, find_index,
  remove_at, insert_at, set, length-append, length-take, length-drop, take_of_length-le,
  length-keep-le, length-map, All, All-append, All-take, All-drop, All-keep, has, has-append,
  has_self, Uniq, Uniq-append, unique_by, has-take, has-of_take, has-drop, has-keep, Uniq-take,
  Uniq-drop, Uniq-keep, has-keep-not, unique_by-fresh, unique_by-Uniq, has-unique_by, has-drop-suc,
  has-remove_at, has-at, Uniq-remove_at, has-of_unique_by, All-of_has,
}
use localchune.Queue.Memory.{object, string, member_of, Json, Members}
use localchune.Queue.Camelot.{codes}

-- What a call rejects with: a PostgrestError with its code, an R2MissingError, or anything else.
pub data Failure : Type 0 where
  postgrest : String → Failure
  r2_missing : Failure
  other : Failure

pub data Answer (A : Type 0) : Type 0 where
  gives : A → Answer A
  rejects : Failure → Answer A

pub record AnalyzeMessage : Type 0 where
  pub file_id : String
  pub r2_key : String
  pub analysis_version : String

-- Of an AnalyzeResponse, whether it is ok, and its error.
pub record AnalyzeResponse : Type 0 where
  pub is_ok : Bool
  pub error : Option String

pub record FileState : Type 0 where
  pub state : String
  pub state_changed_at : String

-- `Deps`, and `Date.parse`, which is `none` for NaN.
pub record Deps : Type 0 where
  pub begin : String → Answer String
  pub analyse : AnalyzeMessage → Answer AnalyzeResponse
  pub persist : AnalyzeResponse → Answer String
  pub fail : String → String → Answer String
  pub dedup : String → Answer Unit
  pub file_state : String → Answer (Option FileState)
  pub date_parse : String → Option ℕ

-- The calls of a run, with what they were answered where the run looks at it.
pub data Call : Type 0 where
  begun : Answer String → Call
  analysed : Answer AnalyzeResponse → Call
  persisted : Answer String → Call
  marked_failed : String → Answer String → Call
  deduped : Answer Unit → Call
  looked : Answer (Option FileState) → Call

pub data Outcome : Type 0 where
  ack : Outcome
  retry : ℕ → Outcome

pub record Run : Type 0 where
  pub calls : List Call
  pub outcome : Outcome

abbrev pub ran : List Call → Outcome → Run
ran calls outcome = record { calls = calls; outcome = outcome }

abbrev pub analysis_lease_ms : ℕ
analysis_lease_ms = 10 * 60 * 1000

abbrev pub ok_false_max_attempts : ℕ
ok_false_max_attempts = 3

abbrev pub no_data_found : String
no_data_found = "P0002"

unfoldable pub is_hex : ℕ → Bool
is_hex c = (leb b'0' c && leb c b'9') || (leb b'a' c && leb c b'f')

-- `{n}` of a class of characters: what is behind them.
unfoldable pub run_of : (ℕ → Bool) → ℕ → List ℕ → Option (List ℕ)
run_of p zero cs = some cs
run_of p (suc n) [] = none
run_of p (suc n) (c ∷ cs) = let rest = run_of p n cs in if p c then rest else none

unfoldable pub then_run : (ℕ → Bool) → ℕ → Option (List ℕ) → Option (List ℕ)
then_run p n none = none
then_run p n (some cs) = run_of p n cs

-- The characters of a text, one by one.
unfoldable pub then_text : List ℕ → Option (List ℕ) → Option (List ℕ)
then_text t none = none
then_text [] (some cs) = some cs
then_text (x ∷ t) (some []) = none
then_text (x ∷ t) (some (c ∷ cs)) =
    let rest = then_text t (some cs) in if c == x then rest else none

unfoldable pub at_end : Option (List ℕ) → Bool
at_end none = false
at_end (some []) = true
at_end (some (c ∷ cs)) = false

unfoldable pub dash_then : ℕ → Option (List ℕ) → Option (List ℕ)
dash_then n rest = then_run is_hex n (then_text (b'-' ∷ []) rest)

-- `UUID_RE`.
unfoldable pub is_uuid : String → Bool
is_uuid s =
    at_end (dash_then 12 (dash_then 4 (dash_then 4 (dash_then 4 (run_of is_hex 8 (codes s))))))

unfoldable pub is_key_char : ℕ → Bool
is_key_char c = is_hex c || c == b'-'

unfoldable pub is_extension_char : ℕ → Bool
is_extension_char c = (leb b'a' c && leb c b'z') || (leb b'0' c && leb c b'9')

unfoldable pub all_match : (ℕ → Bool) → List ℕ → Bool
all_match p [] = true
all_match p (c ∷ cs) = p c && all_match p cs

-- `[a-z0-9]{2,5}$`.
unfoldable pub is_extension_end : Option (List ℕ) → Bool
is_extension_end none = false
is_extension_end (some cs) =
    leb 2 (length cs) && leb (length cs) 5 && all_match is_extension_char cs

-- `AUDIO_KEY_RE`.
unfoldable pub is_audio_key : String → Bool
is_audio_key s =
    let folder = then_run is_key_char 36 (then_text (codes "audio/") (some (codes s))) in
    let file = then_run is_key_char 36 (then_text (b'/' ∷ []) folder) in
    is_extension_end (then_text (b'.' ∷ []) file)

unfoldable pub message_of : Option Json → Option Json → Option Json → Option AnalyzeMessage
message_of (some (string file_id)) (some (string r2_key)) (some (string version)) =
    if is_uuid file_id && is_audio_key r2_key && not (same version "")
    then some (record { file_id = file_id; r2_key = r2_key; analysis_version = version })
    else none
message_of _ _ _ = none

unfoldable pub parse_message : Json → Option AnalyzeMessage
parse_message (object m) =
    message_of (member_of m "file_id") (member_of m "r2_key") (member_of m "analysis_version")
parse_message _ = none

unfoldable pub retry_after : ℕ → Outcome
retry_after attempts = retry (min (60 * max attempts 1) 300)

-- `e instanceof PostgrestError && e.code === NO_DATA_FOUND`.
unfoldable pub is_gone : Failure → Bool
is_gone (postgrest code) = same code no_data_found
is_gone r2_missing = false
is_gone other = false

unfoldable pub ack_if_gone : Failure → ℕ → Outcome
ack_if_gone e attempts = if is_gone e then ack else retry_after attempts

-- After `deps.fail` or `deps.persist`: done, gone, or to be tried again.
unfoldable pub after_record : Answer String → ℕ → Outcome
after_record (gives state) attempts = ack
after_record (rejects e) attempts = ack_if_gone e attempts

unfoldable pub fail_file : Deps → List Call → String → String → ℕ → Run
fail_file deps calls file_id reason attempts =
    let answer = deps.fail file_id reason in
    ran (calls ++ marked_failed reason answer ∷ []) (after_record answer attempts)

unfoldable pub error_of : AnalyzeResponse → String
error_of result = elim result.error [ none ↦ "analysis failed with no reason given" | some t ↦ t ]

-- `deps.persist`, then the dedup, whose failure is only logged.
unfoldable pub after_persist : Deps → List Call → AnalyzeMessage → Answer String → ℕ → Run
after_persist deps calls msg (gives state) attempts =
    ran (calls ++ persisted (gives state) ∷ deduped (deps.dedup msg.file_id) ∷ []) ack
after_persist deps calls msg (rejects e) attempts =
    ran (calls ++ persisted (rejects e) ∷ []) (ack_if_gone e attempts)

unfoldable pub after_analyse : Deps → List Call → AnalyzeMessage → ℕ → Answer AnalyzeResponse → Run
after_analyse deps calls msg attempts (rejects r2_missing) =
    fail_file deps calls msg.file_id (String.◌++◌ "r2 object missing: " msg.r2_key) attempts
after_analyse deps calls msg attempts (rejects (postgrest code)) = ran calls (retry_after attempts)
after_analyse deps calls msg attempts (rejects other) = ran calls (retry_after attempts)
after_analyse deps calls msg attempts (gives result) =
    let persist = after_persist deps calls msg (deps.persist result) attempts in
    let again = ran calls (retry_after attempts) in
    let give_up = fail_file deps calls msg.file_id (error_of result) attempts in
    if result.is_ok then persist else if ltb attempts ok_false_max_attempts then again else give_up

unfoldable pub after_begin : Deps → AnalyzeMessage → ℕ → Answer String → Run
after_begin deps msg attempts (rejects e) = ran (begun (rejects e) ∷ []) (ack_if_gone e attempts)
after_begin deps msg attempts (gives state) =
    let answer = deps.analyse msg in
    let claimed =
      after_analyse deps (begun (gives state) ∷ analysed answer ∷ []) msg attempts answer in
    if same state "busy"
    then ran (begun (gives state) ∷ []) (retry_after attempts)
    else if not (same state "analysing")
    then ran (begun (gives state) ∷ []) ack
    else claimed

unfoldable pub handle_parsed : Deps → ℕ → Option AnalyzeMessage → Run
handle_parsed deps attempts none = ran [] ack
handle_parsed deps attempts (some msg) = after_begin deps msg attempts (deps.begin msg.file_id)

unfoldable pub handle_message : Json → ℕ → Deps → Run
handle_message body attempts deps = handle_parsed deps attempts (parse_message body)

-- `now - Date.parse(at) < ANALYSIS_LEASE_MS`, which is false for NaN.
unfoldable pub is_leased : Deps → ℕ → String → Bool
is_leased deps now at = elim (deps.date_parse at) [
  | none ↦ false
  | some t ↦ ltb now (t + analysis_lease_ms)
]

unfoldable pub after_look : Deps → ℕ → ℕ → AnalyzeMessage → Answer (Option FileState) → Run
after_look deps attempts now msg (rejects e) = ran (looked (rejects e) ∷ []) (retry_after attempts)
after_look deps attempts now msg (gives none) = ran (looked (gives none) ∷ []) ack
after_look deps attempts now msg (gives (some live)) =
    let calls = looked (gives (some live)) ∷ [] in
    let fail = fail_file deps calls msg.file_id "dead-lettered after 5 attempts" attempts in
    if not (same live.state "received") && not (same live.state "analysing")
    then ran calls ack
    else if same live.state "analysing" && is_leased deps now live.state_changed_at
    then ran calls ack
    else fail

unfoldable pub dead_letter_parsed : Deps → ℕ → ℕ → Option AnalyzeMessage → Run
dead_letter_parsed deps attempts now none = ran [] ack
dead_letter_parsed deps attempts now (some msg) =
    after_look deps attempts now msg (deps.file_state msg.file_id)

unfoldable pub handle_dead_letter : Json → ℕ → Deps → ℕ → Run
handle_dead_letter body attempts deps now =
    dead_letter_parsed deps attempts now (parse_message body)
