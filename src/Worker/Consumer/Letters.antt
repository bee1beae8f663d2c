-- ===== src/Worker/Consumer/Letters.antt =====
-- A dead letter marks no file as failed that something else owns: src/workers/analysis/src/consumer.ts.
use localchune.Queue.Memory.{Json}
use localchune.Worker.Consumer.Settled.{
  IsVerdict, retry_after-IsVerdict, after_record-IsVerdict, recorded,
}
use localchune.Common.{
  ℕ, ◌+◌, ◌≤◌, String, ◌≡◌, refl, sym, subst, ◌≢◌, ◌⊎◌, inl, inr, true, false, Option, none, some,
  List, [], ◌∷◌, arith, Bool-cases, Option-cases, dec_str, same,
}
use localchune.Worker.Consumer.{
  parse_message, Answer, is_leased, Outcome, AnalyzeMessage, fail_file, dead_letter_parsed,
  FileState, Call, handle_dead_letter, after_look, Deps, ack, gives, rejects, marked_failed, looked,
}

-- Ten minutes have passed since a claim, or when it was made cannot be told.
abbrev pub IsExpired : ℕ → Option ℕ → Type 0
IsExpired now none = Unit
IsExpired now (some t) = t + 600000 ≤ now

leased-IsExpired :
    (deps : Deps) (now : ℕ) (at : String)
    → is_leased deps now at ≡ true
    → IsExpired now (deps.date_parse at)
    → ⊥
unfolding is_leased
leased-IsExpired deps now at e h = elim (Option-cases (deps.date_parse at)) [
  | inl p ↦ (let f = rw (p, is_leased) at e in cc)
  | inr (t, p) ↦ (let f = rw (p, is_leased) at e in let g = rw p at h in ground (arith, f, g))
]

unleased-IsExpired :
    (deps : Deps) (now : ℕ) (at : String)
    → is_leased deps now at ≡ false
    → IsExpired now (deps.date_parse at)
unfolding is_leased
unleased-IsExpired deps now at e = elim (Option-cases (deps.date_parse at)) [
  | inl p ↦ rw p tt
  | inr (t, p) ↦ (let f = rw (p, is_leased) at e in rw p (ground (arith, f)))
]

-- The state of a file on which no claim is alive.
abbrev pub IsAbandoned : Deps → ℕ → FileState → Type 0
IsAbandoned deps now live =
    (live.state ≡ "received")
    ⊎ ((live.state ≡ "analysing") × IsExpired now (deps.date_parse live.state_changed_at))

-- What a dead letter may do: look, and fail the file when it is abandoned.
abbrev pub IsLetter : Deps → ℕ → List Call → Outcome → Type 0
IsLetter deps now (looked (gives none) ∷ []) outcome = outcome ≡ ack
IsLetter deps now (looked (rejects e) ∷ []) outcome = IsVerdict outcome false
IsLetter deps now (looked (gives (some live)) ∷ []) outcome =
    (outcome ≡ ack) × (IsAbandoned deps now live → ⊥)
IsLetter deps now (looked (gives (some live)) ∷ marked_failed reason answer ∷ []) outcome =
    IsAbandoned deps now live × IsVerdict outcome (recorded answer)
IsLetter deps now calls outcome = ⊥

same-true : (s t : String) → same s t ≡ true → s ≡ t
same-true s t h = ground (arith, h)

same-false : (s t : String) → same s t ≡ false → s ≢ t
same-false s t h e = ground (arith, h, e)

not_both : (s : String) → same s "received" ≡ true → same s "analysing" ≡ false
unfolding dec_str
not_both s h = subst (λ t. same t "analysing" ≡ false) (sym (same-true s "received" h)) refl

module _ (deps : Deps) (now : ℕ) (live : FileState)
    (waiting : same live.state "received" ≡ false) where
  owned : is_leased deps now live.state_changed_at ≡ true → IsAbandoned deps now live → ⊥
  owned leased (inl e) = same-false live.state "received" waiting e
  owned leased (inr (e, f)) = leased-IsExpired deps now live.state_changed_at leased f

  done : same live.state "analysing" ≡ false → IsAbandoned deps now live → ⊥
  done a (inl e) = same-false live.state "received" waiting e
  done a (inr (e, f)) = same-false live.state "analysing" a e

after_look-IsLetter :
    (deps : Deps) (attempts now : ℕ) (msg : AnalyzeMessage) (answer : Answer (Option FileState))
    → IsLetter deps now
        (after_look deps attempts now msg answer).calls
        (after_look deps attempts now msg answer).outcome
unfolding after_look fail_file
after_look-IsLetter deps attempts now msg (rejects e) = retry_after-IsVerdict attempts
after_look-IsLetter deps attempts now msg (gives none) = refl
after_look-IsLetter deps attempts now msg (gives (some live)) =
    elim (Bool-cases (same live.state "received")) [
      | inl received ↦
          simp (received, not_both live.state received)
            (inl (same-true live.state "received" received), after_record-IsVerdict _ attempts)
      | inr waiting ↦ elim (Bool-cases (same live.state "analysing")) [
        | inl analysing ↦ elim (Bool-cases (is_leased deps now live.state_changed_at)) [
          | inl leased ↦
              simp (waiting, analysing, leased) (refl, owned deps now live waiting leased)
          | inr expired ↦
              simp (waiting, analysing, expired)
                (
                  inr (
                    same-true live.state "analysing" analysing,
                    unleased-IsExpired deps now live.state_changed_at expired,
                  ),
                  after_record-IsVerdict _ attempts,
                )
        ]
        | inr answered ↦ simp (waiting, answered) (refl, done deps now live waiting answered)
      ]
    ]

-- For a message that parses, whatever the calls answer: the file is marked as failed exactly when its
-- state is `received`, or `analysing` since ten minutes or more, or since a time that cannot be read; the letter is acknowledged
-- when something else owns the file, when it is gone, or when the failure is recorded, and is
-- delivered again after one to five minutes otherwise.
pub handle_dead_letter-IsLetter :
    (body : Json) (attempts : ℕ) (deps : Deps) (now : ℕ) (msg : AnalyzeMessage)
    → parse_message body ≡ some msg
    → IsLetter deps now
        (handle_dead_letter body attempts deps now).calls
        (handle_dead_letter body attempts deps now).outcome
unfolding handle_dead_letter dead_letter_parsed
handle_dead_letter-IsLetter body attempts deps now msg e =
    rw e (after_look-IsLetter deps attempts now msg (deps.file_state msg.file_id))
