-- ===== src/Upload/Pump/Runs.antt =====
-- How `pump` of src/lib/upload-queue.ts ends, and with which results.
use mathlib.Core.Option.{some-injective}
use localchune.Common.{
  ℕ, zero, suc, ◌+◌, ◌*◌, ◌≤◌, ◌≡◌, refl, sym, subst, ◌⊎◌, inl, inr, Bool, some, List, [], ◌∷◌,
  arith, ltb, Bool-cases, length, get_elem?,
}
use localchune.Upload.Pump.{
  start_pump, ready_workers, PumpStep, pull, abort, PumpReach, settle, pull_from, Worker, Pump,
  ready, running, finished, pulls, settles, aborts, here, next, rejected,
}
use localchune.Upload.Pump.Counts.{
  IsSound, start_pump-IsSound, PumpReach-IsSound, one_if, count_results, has_task, total, total-set,
}

-- What a worker has still to do in its round, whether it transfers, and whether it returned.
abbrev pub work : Worker → ℕ
work ready = 1
work (running i) = 2
work finished = 0

abbrev pub transfers : Worker → ℕ
transfers ready = 0
transfers (running i) = 1
transfers finished = 0

abbrev returned : Worker → ℕ
returned ready = 0
returned (running i) = 0
returned finished = 1

abbrev pub left : {A : Type 0} → Pump A → ℕ
left s = 3 * s.tasks + total work s.workers

-- A worker returns only when the iterator is done.
abbrev IsDrained : {A : Type 0} → Pump A → Type 0
IsDrained s = (total returned s.workers ≡ 0) ⊎ (s.tasks ≡ 0)

pull-left :
    {A : Type 0} (w tasks : ℕ) (s : Pump A)
    → get_elem? s.workers w ≡ some ready
    → tasks ≡ s.tasks
    → IsDrained s
    → (suc (left (pull_from w tasks s)) ≤ left s) × IsDrained (pull_from w tasks s)
unfolding pull_from
pull-left w zero s h e d = (omega (arith, total-set work s.workers w ready finished h), inr (sym e))
pull-left w (suc m) s h e d = elim (Bool-cases s.aborted) [
  | inl gone ↦ simp gone (omega arith, inl (still d))
  | inr on ↦ simp on (
    omega (arith, total-set work s.workers w ready (running s.issued) h),
    inl (omega (arith, total-set returned s.workers w ready (running s.issued) h, still d)),
  )
]
  where
    still : IsDrained s → total returned s.workers ≡ 0
    still (inl n) = n
    still (inr z) = absurd (omega arith)

PumpStep-left :
    {A : Type 0} {s t : Pump A} {k : ℕ}
    → PumpStep s k t
    → IsDrained s
    → (k + left t ≤ left s) × IsDrained t
unfolding settle abort pull
PumpStep-left (pulls s w h) d =
    let made = pull-left w s.tasks s h refl d in (omega (arith, made.0), made.1)
PumpStep-left (settles s w index status h e) d = (
  omega (arith, total-set work s.workers w (running index) ready h),
  elim d [
    | inl n ↦ inl (omega (arith, total-set returned s.workers w (running index) ready h))
    | inr z ↦ inr z
  ],
)
PumpStep-left (aborts s) d = (omega arith, d)

PumpReach-left :
    {A : Type 0} {s t : Pump A} {k : ℕ}
    → PumpReach s k t
    → IsDrained s
    → (k + left t ≤ left s) × IsDrained t
PumpReach-left here d = (omega arith, d)
PumpReach-left (next r step) d =
    let before = PumpReach-left r d in
    let made = PumpStep-left step before.1 in (omega (arith, before.0, made.0), made.1)

-- All the workers have returned, or one is about to pull, or one awaits a task.
find_worker :
    (ws : List Worker)
    → (total work ws ≡ 0)
      ⊎ ((w : ℕ) × (get_elem? ws w ≡ some ready))
      ⊎ ((w : ℕ) × (i : ℕ) × (get_elem? ws w ≡ some (running i)))
find_worker [] = inl refl
find_worker (ready ∷ ws) = inr (inl (0, refl))
find_worker (running i ∷ ws) = inr (inr (0, i, refl))
find_worker (finished ∷ ws) = elim (find_worker ws) [
  | inl e ↦ inl (omega (arith, e))
  | inr (inl (w, e)) ↦ inr (inl (suc w, e))
  | inr (inr (w, i, e)) ↦ inr (inr (suc w, i, e))
]

can_step : {A : Type 0} (s : Pump A) → (total work s.workers ≡ 0) ⊎ ((t : Pump A) × PumpStep s 1 t)
can_step s = elim (find_worker s.workers) [
  | inl e ↦ inl e
  | inr (inl (w, e)) ↦ inr (pull w s, pulls s w e)
  | inr (inr (w, i, e)) ↦ inr (settle w i (rejected "") s, settles s w i (rejected "") e tt)
]

transfers-le : (ws : List Worker) → total transfers ws ≤ length ws
transfers-le [] = omega arith
transfers-le (ready ∷ ws) = omega (arith, transfers-le ws)
transfers-le (running i ∷ ws) = omega (arith, transfers-le ws)
transfers-le (finished ∷ ws) = omega (arith, transfers-le ws)

none_held : (i : ℕ) (ws : List Worker) → total work ws ≡ 0 → total (has_task i) ws ≡ 0
none_held i [] h = refl
none_held i (ready ∷ ws) h = absurd (omega arith)
none_held i (running j ∷ ws) h = absurd (omega arith)
none_held i (finished ∷ ws) h = omega (arith, none_held i ws (omega arith))

all_returned : (ws : List Worker) → total work ws ≡ 0 → total returned ws ≡ length ws
all_returned [] h = refl
all_returned (ready ∷ ws) h = absurd (omega arith)
all_returned (running j ∷ ws) h = absurd (omega arith)
all_returned (finished ∷ ws) h = omega (arith, all_returned ws (omega arith))

left-ready_workers :
    (c : ℕ) → (total work (ready_workers c) ≡ c) × (total returned (ready_workers c) ≡ 0)
unfolding ready_workers
left-ready_workers zero = (refl, refl)
left-ready_workers (suc c) =
    let rest = left-ready_workers c in (omega (arith, rest.0), omega (arith, rest.1))

start_pump-left :
    {A : Type 0} (c n : ℕ) (aborted : Bool) (s : Pump A)
    → start_pump c n aborted ≡ some s
    → (1 ≤ c) × (left s ≡ 3 * n + c) × IsDrained s
unfolding start_pump
start_pump-left zero n aborted s e = absurd (ground arith)
start_pump-left (suc c) n aborted s e =
    let start = left-ready_workers (suc c) in
    subst (λ t. (1 ≤ suc c) × (left t ≡ 3 * n + suc c) × IsDrained t) (some-injective _ _ e)
      (omega arith, omega (arith, start.0), inl start.1)

done_results :
    {A : Type 0} (n c : ℕ) (t : Pump A) (i : ℕ)
    → total work t.workers ≡ 0
    → 1 ≤ c
    → IsSound n c t
    → IsDrained t
    → count_results i t.results ≡ one_if (ltb i n)
done_results n c t i h p (each, sum, len) (inl e) = absurd (omega (arith, all_returned t.workers h))
done_results n c t i h p (each, sum, len) (inr e) =
    let issued_all : t.issued ≡ n = omega arith in
    subst (λ m. count_results i t.results ≡ one_if (ltb i m)) issued_all
      (omega (arith, each i, none_held i t.workers h))

-- A pump of `n` tasks and `c` workers, after `k` steps of the workers in any order and whenever it is
-- aborted: at most `c` tasks are under way, `k` is at most 3 n + c, and some worker can make a step
-- until all have returned.
pub pump-ends :
    {A : Type 0} (c n k : ℕ) (aborted : Bool) (s t : Pump A)
    → start_pump c n aborted ≡ some s
    → PumpReach s k t
    → (total transfers t.workers ≤ c)
      × (k ≤ 3 * n + c)
      × ((total work t.workers ≡ 0) ⊎ ((u : Pump A) × PumpStep t 1 u))
pump-ends c n k aborted s t e r =
    let start = start_pump-left c n aborted s e in
    let sound = PumpReach-IsSound n c r (start_pump-IsSound c n aborted s e) in
    let measured = PumpReach-left r start.2 in
    (omega (arith, transfers-le t.workers, sound.2), omega (arith, measured.0, start.1), can_step t)

-- When the workers of a pump have all returned, in whatever order they went and whenever it was aborted,
-- each of its `n` tasks has exactly one result, and there is no other result.
pub pump-results :
    {A : Type 0} (c n k : ℕ) (aborted : Bool) (s t : Pump A)
    → start_pump c n aborted ≡ some s
    → PumpReach s k t
    → total work t.workers ≡ 0
    → (i : ℕ) → count_results i t.results ≡ one_if (ltb i n)
pump-results c n k aborted s t e r h i =
    let start = start_pump-left c n aborted s e in
    let sound = PumpReach-IsSound n c r (start_pump-IsSound c n aborted s e) in
    done_results n c t i h start.0 sound (PumpReach-left r start.2).1
