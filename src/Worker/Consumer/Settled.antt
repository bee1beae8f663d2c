-- ===== src/Worker/Consumer/Settled.antt =====
-- A message of the analysis queue is acknowledged when its file is settled, and only then:
-- src/workers/analysis/src/consumer.ts.
use localchune.Common.{
  ℕ, ◌*◌, ◌≤◌, min, max, String, ◌≡◌, refl, ◌⊎◌, inl, inr, Bool, true, false, not, ◌&&◌, ◌||◌, List,
  [], ◌∷◌, arith, Bool-cases, same,
}
use localchune.Worker.Consumer.{
  Outcome, Failure, retry_after, after_record, ack_if_gone, is_gone, Run, Call, Answer, ack, retry,
  gives, rejects, r2_missing, begun, analysed, persisted, marked_failed, deduped, looked,
}

-- An answer after which there is nothing left to do for the file.
abbrev pub recorded : Answer String → Bool
recorded (gives state) = true
recorded (rejects e) = is_gone e

abbrev pub is_claim : String → Bool
is_claim state = same state "analysing"

abbrev pub settles : Call → Bool
settles (begun (gives state)) = not (same state "busy") && not (is_claim state)
settles (begun (rejects e)) = is_gone e
settles (analysed answer) = false
settles (persisted answer) = recorded answer
settles (marked_failed reason answer) = recorded answer
settles (deduped answer) = false
settles (looked answer) = false

abbrev pub settled : List Call → Bool
settled [] = false
settled (c ∷ cs) = settles c || settled cs

-- A claim comes before the analysis, the analysis before its record, and one record is made: a
-- result that is ok is persisted and then matched, any other is marked as failed.
abbrev pub orderly : List Call → Bool
orderly (begun answer ∷ []) = true
orderly (begun (gives state) ∷ analysed answer ∷ []) = is_claim state
orderly (begun (gives state) ∷ analysed (gives r) ∷ persisted (rejects e) ∷ []) =
    is_claim state && r.is_ok
orderly (begun (gives state) ∷ analysed (gives r) ∷ persisted (gives s) ∷ deduped d ∷ []) =
    is_claim state && r.is_ok
orderly (begun (gives state) ∷ analysed (gives r) ∷ marked_failed reason answer ∷ []) =
    is_claim state && not r.is_ok
orderly (begun (gives state) ∷ analysed (rejects r2_missing) ∷ marked_failed reason answer ∷ []) =
    is_claim state
orderly calls = false

-- Acknowledged and settled, or to be delivered again in one to five minutes and not settled.
abbrev pub IsVerdict : Outcome → Bool → Type 0
IsVerdict outcome done =
    ((outcome ≡ ack) × (done ≡ true))
    ⊎ ((seconds : ℕ) × (outcome ≡ retry seconds)
        × (60 ≤ seconds)
        × (seconds ≤ 300)
        × (done ≡ false))

abbrev pub IsSettled : Run → Type 0
IsSettled run = (orderly run.calls ≡ true) × IsVerdict run.outcome (settled run.calls)

pub retry_after-IsVerdict : (attempts : ℕ) → IsVerdict (retry_after attempts) false
unfolding retry_after
retry_after-IsVerdict attempts =
    inr (min (60 * max attempts 1) 300, refl, omega arith, omega arith, refl)

ack_if_gone-IsVerdict :
    (e : Failure) (attempts : ℕ) → IsVerdict (ack_if_gone e attempts) (is_gone e)
unfolding ack_if_gone
ack_if_gone-IsVerdict e attempts = elim (Bool-cases (is_gone e)) [
  | inl gone ↦ rw gone (inl (refl, refl))
  | inr there ↦ rw there (retry_after-IsVerdict attempts)
]

pub after_record-IsVerdict :
    (answer : Answer String) (attempts : ℕ)
    → IsVerdict (after_record answer attempts) (recorded answer)
unfolding after_record
after_record-IsVerdict (gives state) attempts = inl (refl, refl)
after_record-IsVerdict (rejects e) attempts = ack_if_gone-IsVerdict e attempts
