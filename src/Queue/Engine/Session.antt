-- ===== src/Queue/Engine/Session.antt =====
-- A session: events one after another, each on the array that its state rendered.
use localchune.Queue.Engine.Rendered.{assemble_queue-Fits}
use localchune.Queue.Engine.Keeps.{reduce-IsValid, CarriesFit}
use localchune.Queue.Engine.Valid.{Fits, IsValid}
use localchune.Queue.Engine.Reduce.{reduce}
use localchune.Common.{◌≡◌, sym, subst, some, List, arith}
use localchune.Queue.Model.{QueueEntry, QueueState, empty_state, assemble_queue}
use localchune.Queue.Engine.{
  track_failed, move_queue_entry, remove_queue_entry, track_ended, skip, select_queue_entry,
  QueueEvent, ReduceResult,
}

-- The array is one that the state renders, for some ranking.
abbrev pub IsRendering : QueueState → List QueueEntry → Type 0
IsRendering s queue = (es : List QueueEntry) × (queue ≡ assemble_queue s es)

abbrev pub CarriesRendering : QueueState → QueueEvent → Type 0
CarriesRendering s (select_queue_entry index queue) = IsRendering s queue
CarriesRendering s (skip queue) = IsRendering s queue
CarriesRendering s (track_ended queue) = IsRendering s queue
CarriesRendering s (remove_queue_entry index queue) = IsRendering s queue
CarriesRendering s (move_queue_entry index to queue) = IsRendering s queue
CarriesRendering s (track_failed file_id queue) = IsRendering s queue
CarriesRendering s _ = Unit

pub data Step (s : QueueState) : QueueState → Type 0 where
  step :
      {t : QueueState} (event : QueueEvent) (r : ReduceResult)
      → CarriesRendering s event
      → reduce s event ≡ some r
      → r.state ≡ t
      → Step s t

pub data Reach (s : QueueState) : QueueState → Type 0 where
  here : Reach s s
  next : {t u : QueueState} → Reach s t → Step t u → Reach s u

fits : (s : QueueState) (queue : List QueueEntry) → IsValid s → IsRendering s queue → Fits queue
fits s queue v (es, e) = subst Fits (sym e) (assemble_queue-Fits s es v)

carries :
    (s : QueueState) (event : QueueEvent) → IsValid s → CarriesRendering s event → CarriesFit event
carries s (select_queue_entry index queue) v c = fits s queue v c
carries s (skip queue) v c = fits s queue v c
carries s (track_ended queue) v c = fits s queue v c
carries s (remove_queue_entry index queue) v c = fits s queue v c
carries s (move_queue_entry index to queue) v c = fits s queue v c
carries s (track_failed file_id queue) v c = fits s queue v c
carries s _ v c = tt

pub Step-IsValid : {s t : QueueState} → IsValid s → Step s t → IsValid t
Step-IsValid {s} v (step event r c e same_state) =
    subst IsValid same_state (reduce-IsValid s event v (carries s event v c) e)

Reach-IsValid : {s t : QueueState} → IsValid s → Reach s t → IsValid t
Reach-IsValid v here = v
Reach-IsValid v (next r st) = Step-IsValid (Reach-IsValid v r) st

-- The state that a session starts with is valid.
pub empty_state-IsValid : IsValid empty_state
unfolding empty_state
empty_state-IsValid = omega arith

-- In every state that a session reaches from a valid one, the invariant holds, and whatever the
-- ranking, the queue has at most 25 rows and no file twice.
pub Reach-Fits :
    {s t : QueueState} (es : List QueueEntry)
    → IsValid s
    → Reach s t
    → IsValid t × Fits (assemble_queue t es)
Reach-Fits {t} es v r = let w = Reach-IsValid v r in (w, assemble_queue-Fits t es w)
