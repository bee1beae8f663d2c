-- ===== src/Upload/Pump/Counts.antt =====
-- Each index that `pump` of src/lib/upload-queue.ts hands out is with one worker or in one result.
use mathlib.Core.Option.{some-injective}
use localchune.Common.{
  ℕ, zero, suc, ◌+◌, ◌≡◌, refl, ap, subst, ◌∙◌, inl, inr, Bool, true, false, some, List, [], ◌∷◌,
  arith, ltb, ◌==◌, Bool-cases, length, get_elem?, set,
}
use localchune.Upload.Pump.{
  PumpStep, PumpReach, start_pump, ready_workers, pull, abort, settle, pull_from, Worker, Status,
  Pump, ready, running, finished, pulls, settles, aborts, here, next,
}

module _ (weight : Worker → ℕ) where
  abbrev pub total : List Worker → ℕ
  total [] = 0
  total (x ∷ xs) = weight x + total xs

  pub total-set :
      (ws : List Worker) (w : ℕ) (old new : Worker)
      → get_elem? ws w ≡ some old
      → total (set ws w new) + weight old ≡ total ws + weight new
  total-set [] w old new h = absurd (ground arith)
  total-set (x ∷ xs) zero old new h = omega (arith, ap weight (some-injective _ _ h))
  total-set (x ∷ xs) (suc w) old new h = omega (arith, total-set xs w old new h)

length-set : (ws : List Worker) (w : ℕ) (x : Worker) → length (set ws w x) ≡ length ws
length-set [] w x = refl
length-set (y ∷ ws) zero x = refl
length-set (y ∷ ws) (suc w) x = ap suc (length-set ws w x)

abbrev pub one_if : Bool → ℕ
one_if true = 1
one_if false = 0

-- Whether a worker has the task of an index, and how many results it has.
abbrev pub has_task : ℕ → Worker → ℕ
has_task i ready = 0
has_task i finished = 0
has_task i (running j) = one_if (j == i)

abbrev pub count_results : {A : Type 0} → ℕ → List (ℕ × Status A) → ℕ
count_results i [] = 0
count_results i ((j, status) ∷ rest) = one_if (j == i) + count_results i rest

-- For `n` tasks and `c` workers: each index that was handed out is in one place, and no other is.
abbrev pub IsSound : {A : Type 0} → ℕ → ℕ → Pump A → Type 0
IsSound n c s =
    ((i : ℕ) → total (has_task i) s.workers + count_results i s.results ≡ one_if (ltb i s.issued))
    × (s.issued + s.tasks ≡ n)
    × (length s.workers ≡ c)

one_if-suc : (i n : ℕ) → one_if (ltb i (suc n)) ≡ one_if (n == i) + one_if (ltb i n)
one_if-suc i n = ground arith

pull-IsSound :
    {A : Type 0} (n c w tasks : ℕ) (s : Pump A)
    → get_elem? s.workers w ≡ some ready
    → tasks ≡ s.tasks
    → IsSound n c s
    → IsSound n c (pull_from w tasks s)
unfolding pull_from
pull-IsSound n c w zero s h e (each, sum, len) = (
  λ i. omega (arith, total-set (has_task i) s.workers w ready finished h, each i),
  sum,
  length-set s.workers w finished ∙ len,
)
pull-IsSound n c w (suc left) s h e (each, sum, len) = elim (Bool-cases s.aborted) [
  | inl gone ↦ simp gone (λ i. omega (arith, one_if-suc i s.issued, each i), omega arith, len)
  | inr on ↦ simp on (
    λ i. omega (
      arith,
      total-set (has_task i) s.workers w ready (running s.issued) h,
      one_if-suc i s.issued,
      each i,
    ),
    omega arith,
    length-set s.workers w (running s.issued) ∙ len,
  )
]

PumpStep-IsSound :
    {A : Type 0} (n c : ℕ) {s t : Pump A} {k : ℕ} → PumpStep s k t → IsSound n c s → IsSound n c t
unfolding settle abort pull
PumpStep-IsSound n c (pulls s w h) v = pull-IsSound n c w s.tasks s h refl v
PumpStep-IsSound n c (settles s w index status h d) (each, sum, len) = (
  λ i. omega (arith, total-set (has_task i) s.workers w (running index) ready h, each i),
  sum,
  length-set s.workers w ready ∙ len,
)
PumpStep-IsSound n c (aborts s) v = v

-- Every state that a pump of `c` workers and `n` tasks comes to is sound.
pub PumpReach-IsSound :
    {A : Type 0} (n c : ℕ) {s t : Pump A} {k : ℕ} → PumpReach s k t → IsSound n c s → IsSound n c t
PumpReach-IsSound n c here v = v
PumpReach-IsSound n c (next r step) v = PumpStep-IsSound n c step (PumpReach-IsSound n c r v)

total-ready_workers : (i c : ℕ) → total (has_task i) (ready_workers c) ≡ 0
unfolding ready_workers
total-ready_workers i zero = refl
total-ready_workers i (suc c) = omega (arith, total-ready_workers i c)

length-ready_workers : (c : ℕ) → length (ready_workers c) ≡ c
unfolding ready_workers
length-ready_workers zero = refl
length-ready_workers (suc c) = ap suc (length-ready_workers c)

pub start_pump-IsSound :
    {A : Type 0} (c n : ℕ) (aborted : Bool) (s : Pump A)
    → start_pump c n aborted ≡ some s
    → IsSound n c s
unfolding start_pump
start_pump-IsSound zero n aborted s e = absurd (ground arith)
start_pump-IsSound (suc c) n aborted s e = subst (IsSound n (suc c)) (some-injective _ _ e) (
  λ i. omega (arith, total-ready_workers i (suc c), nothing i),
  omega arith,
  length-ready_workers (suc c),
)
  where
    nothing : (i : ℕ) → one_if (ltb i 0) ≡ 0
    nothing i = ground arith
