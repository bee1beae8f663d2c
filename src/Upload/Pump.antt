-- ===== src/Upload/Pump.antt =====
-- src/lib/upload-queue.ts: `pump`. The workers are interleaved in any order; a worker that awaits its
-- task is `running`, and the task may end at any time, in a value or in a reason.
pub mod Counts
pub mod Runs
use localchune.Common.{
  ℕ, zero, suc, ◌+◌, ◌-◌, ◌*◌, ◌/◌, ◌%◌, ◌^◌, ◌≤◌, ◌<◌, min, max, String, ◌≡◌, refl, sym, ap, subst,
  ◌∙◌, ◌≡⟨◌⟩◌, ◌∎, ◌≢◌, ◌↔◌, ◌⊎◌, inl, inr, Bool, true, false, not, ◌&&◌, ◌||◌, Option, none, some,
  List, [], ◌∷◌, ◌++◌, map, arith, dec_lt, dec_le, ℕ_discrete, ltb, leb, ◌==◌, if◌then◌else◌,
  Bool-cases, Option-cases, dec_str, same, length, get_elem?, take, drop, keep, find_index,
  remove_at, insert_at, set, length-append, length-take, length-drop, take_of_length-le,
  length-keep-le, length-map, All, All-append, All-take, All-drop, All-keep, has, has-append,
  has_self, Uniq, Uniq-append, unique_by, has-take, has-of_take, has-drop, has-keep, Uniq-take,
  Uniq-drop, Uniq-keep, has-keep-not, unique_by-fresh, unique_by-Uniq, has-unique_by, has-drop-suc,
  has-remove_at, has-at, Uniq-remove_at, has-of_unique_by, All-of_has,
}

abbrev pub file_concurrency : ℕ
file_concurrency = 3

pub data Status (A : Type 0) : Type 0 where
  fulfilled : A → Status A
  rejected : String → Status A
  skipped : Status A

-- Where a worker stands in its loop.
pub data Worker : Type 0 where
  ready : Worker
  running : ℕ → Worker
  finished : Worker

-- What the workers share: how many tasks the iterator has left, `issued`, the signal, and the results,
-- the newest first.
pub record Pump (A : Type 0) : Type 0 where
  pub tasks : ℕ
  pub issued : ℕ
  pub aborted : Bool
  pub workers : List Worker
  pub results : List (ℕ × Status A)

-- `concurrency` workers; a concurrency below 1 throws.
unfoldable pub ready_workers : ℕ → List Worker
ready_workers zero = []
ready_workers (suc n) = ready ∷ ready_workers n

unfoldable pub start_pump : {A : Type 0} → ℕ → ℕ → Bool → Option (Pump A)
start_pump zero tasks aborted = none
start_pump (suc n) tasks aborted = some (record {
  tasks = tasks;
  issued = 0;
  aborted = aborted;
  workers = ready_workers (suc n);
  results = [];
})

-- A worker calls `iterator.next()`: it returns, settles the task as skipped, or starts it.
unfoldable pub pull_from : {A : Type 0} → ℕ → ℕ → Pump A → Pump A
pull_from w zero s = record s { workers = set s.workers w finished }
pull_from w (suc left) s =
    if s.aborted
    then record s { tasks = left; issued = suc s.issued; results = (s.issued, skipped) ∷ s.results }
    else record s {
      tasks = left;
      issued = suc s.issued;
      workers = set s.workers w (running s.issued);
    }

unfoldable pub pull : {A : Type 0} → ℕ → Pump A → Pump A
pull w s = pull_from w s.tasks s

-- The task of a worker ends: its status is settled and the loop goes on.
unfoldable pub settle : {A : Type 0} → ℕ → ℕ → Status A → Pump A → Pump A
settle w index status s = record s {
  workers = set s.workers w ready;
  results = (index, status) ∷ s.results;
}

-- The outer signal is relayed.
unfoldable pub abort : {A : Type 0} → Pump A → Pump A
abort s = record s { aborted = true }

-- A task that ran ends in a value or a reason.
abbrev pub IsEnd : {A : Type 0} → Status A → Type 0
IsEnd (fulfilled value) = Unit
IsEnd (rejected reason) = Unit
IsEnd skipped = ⊥

-- One step, and 1 when a worker made it: an abort comes from outside.
pub data PumpStep {A : Type 0} : Pump A → ℕ → Pump A → Type 0 where
  pulls : (s : Pump A) (w : ℕ) → get_elem? s.workers w ≡ some ready → PumpStep s 1 (pull w s)
  settles :
      (s : Pump A) (w index : ℕ) (status : Status A)
      → get_elem? s.workers w ≡ some (running index)
      → IsEnd status
      → PumpStep s 1 (settle w index status s)
  aborts : (s : Pump A) → PumpStep s 0 (abort s)

-- What comes after a state, and how many steps the workers have made.
pub data PumpReach {A : Type 0} (s : Pump A) : ℕ → Pump A → Type 0 where
  here : PumpReach s 0 s
  next : {t u : Pump A} {n k : ℕ} → PumpReach s n t → PumpStep t k u → PumpReach s (n + k) u
