-- ===== src/Queue/Regenerate/Requests.antt =====
-- When the engine asks for candidates, and what it renders whatever the answer.
use localchune.Queue.Engine.Rendered.{assemble_queue-Fits}
use localchune.Queue.Engine.Valid.{Fits, IsValid}
use localchune.Queue.Regenerate.{seed_for, Request, with_fetched, regenerate, is_off}
use localchune.Common.{
  ◌≤◌, ◌≡◌, refl, ◌↔◌, ◌⊎◌, inl, inr, true, false, ◌||◌, Option, none, some, List, [], arith, ◌==◌,
  Bool-cases, length,
}
use localchune.Queue.Strategies.{Host, TrackFeatures}
use localchune.Queue.Model.{assemble_queue, slots_for, QueueState, AutoMethod}

skips :
    (s : QueueState)
    → (is_off s.method || (slots_for s).need == 0) ≡ true
    → (s.method ≡ AutoMethod.off) ⊎ ((slots_for s).need ≡ 0)
skips s h = ground arith

asks :
    (s : QueueState)
    → (is_off s.method || (slots_for s).need == 0) ≡ false
    → ¬ ((s.method ≡ AutoMethod.off) ⊎ ((slots_for s).need ≡ 0))
asks s h = λ either. ground arith

answered :
    (host : Host) (s : QueueState)
    → IsValid s
    → (answer : Option (List TrackFeatures))
    → Fits (elim answer [ none ↦ assemble_queue s [] | some fetched ↦ with_fetched host s fetched ])
unfolding with_fetched
answered host s v none = assemble_queue-Fits s [] v
answered host s v (some fetched) = assemble_queue-Fits s _ v

-- In a valid state, whatever the port does, the regenerated queue has at most 25 rows and no file twice. There is no
-- request exactly when the method is off or the tail has no room, and never more than one.
pub regenerate-Fits :
    (host : Host) (port : Request → Option (List TrackFeatures)) (s : QueueState)
    → IsValid s
    → Fits (regenerate host port s).queue
      × (length (regenerate host port s).requests ≤ 1)
      × (((regenerate host port s).requests ≡ [])
          ↔ ((s.method ≡ AutoMethod.off) ⊎ ((slots_for s).need ≡ 0)))
unfolding regenerate with_fetched
regenerate-Fits host port s v = elim (Bool-cases (is_off s.method || (slots_for s).need == 0)) [
  | inl skipped_port ↦
      rw (skipped_port, regenerate)
        (assemble_queue-Fits s [] v, omega arith, (λ h. skips s skipped_port, λ h. refl))
  | inr asked ↦
      rw (asked, regenerate)
        (
          answered host s v (port (record { seed = seed_for s; need = (slots_for s).need })),
          omega arith,
          (λ h. cc, λ h. absurd (asks s asked h)),
        )
]

-- A port that throws leaves the queue without a tail.
pub regenerate-no_port :
    (host : Host) (port : Request → Option (List TrackFeatures)) (s : QueueState)
    → port (record { seed = seed_for s; need = (slots_for s).need }) ≡ none
    → (regenerate host port s).queue ≡ assemble_queue s []
unfolding regenerate
regenerate-no_port host port s p = ground arith
