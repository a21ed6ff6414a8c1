-- ===== src/Task/Pool/Order.antt =====
-- Where the tasks of a pool go: through the deque in order, and then to one worker each.
use mathlib.Core.List.{append-nil}
use cpp_framework.Prelude.{
  all_of, flow-snoc, ℕ, ◌+◌, ◌≡◌, refl, none, some, List, [], ◌∷◌, ◌++◌, map, total, total-set,
  total-append, arith, set, ◌==◌, if◌then◌else◌, ap, ◌∙◌,
}
use cpp_framework.Task.Pool.{
  Pool, Task, Worker, new_pool, entering, unready, asleep, deciding, running, exited, take_task,
  enqueue, clear_waiting_tasks, wake,
}
use cpp_framework.Task.Pool.Invariant.{take-same}
use cpp_framework.Task.Pool.Weights.{total-replicate}
use cpp_framework.Task.Pool.System.{
  Label, quiet, added, taken, ended, dropped, took, Step, Steps, here, later, enqueues, clears,
  stops, notifies, takes, finds_nothing, sleeps, wakes_spuriously, exits, retries, begins, ends,
  throws,
}

-- The tasks that a step puts into the deque, and those that it takes out, by a worker or by
-- `clear_waiting_tasks`.
abbrev pub ins : Label → List Task
ins (added t) = t ∷ []
ins quiet = []
ins (taken t) = []
ins (ended t) = []
ins (dropped ts) = []

abbrev pub outs : Label → List Task
outs (taken t) = t ∷ []
outs (dropped ts) = ts
outs quiet = []
outs (added t) = []
outs (ended t) = []

take-order :
    (p : Pool) (ts : List Task) → p.tasks ≡ ts → p.tasks ≡ outs (took ts) ++ (take_task p).1.tasks
unfolding take_task
take-order p [] e = ground arith
take-order p (t ∷ ts) e = ground arith

ins-took : (ts : List Task) → ins (took ts) ≡ []
ins-took [] = refl
ins-took (t ∷ ts) = refl

Step-order : {p q : Pool} {l : Label} → Step p l q → p.tasks ++ ins l ≡ outs l ++ q.tasks
unfolding enqueue clear_waiting_tasks
Step-order (enqueues t free) = refl
Step-order {p} (clears free) = refl
Step-order {p} stops = append-nil p.tasks
Step-order {p} (notifies k e) = append-nil p.tasks
Step-order {p} (takes i e free r) =
    rw (ins-took p.tasks) (append-nil p.tasks ∙ take-order p p.tasks refl)
Step-order {p} (finds_nothing i e free r) = append-nil p.tasks
Step-order {p} (sleeps i e) = append-nil p.tasks
Step-order {p} (wakes_spuriously i e) = append-nil p.tasks
Step-order {p} (exits i e s) = append-nil p.tasks
Step-order {p} (retries i e s) = append-nil p.tasks
Step-order {p} (begins i t e) = append-nil p.tasks
Step-order {p} (ends i t e) = append-nil p.tasks
Step-order {p} (throws i t e) = append-nil p.tasks

-- First in, first out: over any interleaving, what left the deque followed by what is still in it is
-- what was in it followed by what was enqueued, in that order.
pub pool_fifo :
    {p q : Pool} {ls : List Label}
    → Steps p ls q
    → p.tasks ++ all_of ins ls ≡ all_of outs ls ++ q.tasks
pool_fifo {p} here = append-nil p.tasks
pool_fifo {p} (later {ls = ls} {l = l} steps alive step) =
    flow-snoc ins outs ls l p.tasks _ _ (pool_fifo steps) (Step-order step)

-- Whether a worker has this task in hand.
abbrev pub holds : ℕ → Worker → ℕ
holds t (deciding (some u)) = if u == t then 1 else 0
holds t (running u) = if u == t then 1 else 0
holds t (deciding none) = 0
holds t entering = 0
holds t unready = 0
holds t asleep = 0
holds t exited = 0

-- How often a step hands this task to a worker, and how often it ends a run of it.
abbrev pub hands : ℕ → Label → ℕ
hands t (taken (some u)) = if u == t then 1 else 0
hands t (taken none) = 0
hands t quiet = 0
hands t (added u) = 0
hands t (ended u) = 0
hands t (dropped us) = 0

abbrev pub finishes : ℕ → Label → ℕ
finishes t (ended u) = if u == t then 1 else 0
finishes t quiet = 0
finishes t (added u) = 0
finishes t (taken u) = 0
finishes t (dropped us) = 0

holds-wake : (t : ℕ) (xs : List Worker) → total (holds t) (map wake xs) ≡ total (holds t) xs
holds-wake t [] = refl
holds-wake t (x ∷ xs) = ground (arith, holds-wake t xs)

finishes-took : (t : ℕ) (us : List Task) → finishes t (took us) ≡ 0
finishes-took t [] = refl
finishes-took t (u ∷ us) = refl

hands-took :
    (t : ℕ) (p : Pool) (us : List Task)
    → p.tasks ≡ us
    → hands t (took us) ≡ holds t (deciding (take_task p).0)
unfolding take_task
hands-took t p [] e = rw e refl
hands-took t p (none ∷ us) e = rw e refl
hands-took t p (some u ∷ us) e = rw e refl

Step-balance :
    (t : ℕ) {p q : Pool} {l : Label}
    → Step p l q
    → total (holds t) q.workers + finishes t l ≡ total (holds t) p.workers + hands t l
unfolding enqueue clear_waiting_tasks
Step-balance t {p} (enqueues u free) = omega (arith, holds-wake t p.workers)
Step-balance t {p} (clears free) = refl
Step-balance t {p} stops = refl
Step-balance t {p} (notifies k e) = omega (arith, holds-wake t p.workers)
Step-balance t {p} (takes i e free r) =
    let same = (take-same p p.tasks refl).0 in
    omega (
      arith,
      finishes-took t p.tasks,
      hands-took t p p.tasks refl,
      ap (λ ws. total (holds t) (set ws i (deciding (take_task p).0))) same,
      total-set (holds t) p.workers i (deciding (take_task p).0) e,
    )
Step-balance t {p} (finds_nothing i e free r) =
    omega (arith, total-set (holds t) p.workers i unready e)
Step-balance t {p} (sleeps i e) = omega (arith, total-set (holds t) p.workers i asleep e)
Step-balance t {p} (wakes_spuriously i e) =
    omega (arith, total-set (holds t) p.workers i entering e)
Step-balance t {p} (exits i e s) = omega (arith, total-set (holds t) p.workers i exited e)
Step-balance t {p} (retries i e s) = omega (arith, total-set (holds t) p.workers i entering e)
Step-balance t {p} (begins i u e) = omega (arith, total-set (holds t) p.workers i (running u) e)
Step-balance t {p} (ends i u e) = ground (arith, total-set (holds t) p.workers i entering e)
Step-balance t {p} (throws i u e) = refl

-- Every task is run as often as it was taken from the deque: the runs of a task that have ended and
-- the workers that have it in hand together are the times that it was handed out.
pub run_once :
    (n t : ℕ) {q : Pool} {ls : List Label}
    → Steps (new_pool n) ls q
    → total (finishes t) ls + total (holds t) q.workers ≡ total (hands t) ls
unfolding new_pool
run_once n t here = omega (arith, total-replicate (holds t) n refl)
run_once n t (later {ls = ls} {l = l} steps alive step) = omega (
  arith,
  total-append (finishes t) ls (l ∷ []),
  total-append (hands t) ls (l ∷ []),
  run_once n t steps,
  Step-balance t step,
)
