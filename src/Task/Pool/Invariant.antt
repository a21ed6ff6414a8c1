-- ===== src/Task/Pool/Invariant.antt =====
-- What holds of a pool in every reachable state: the mutex, the counter of running tasks, and the
-- workers that wait.
use cpp_framework.Prelude.{
  ℕ, suc, ◌+◌, ◌≤◌, ◌<◌, ◌≡◌, refl, true, false, some, List, [], ◌∷◌, map, total, total-set, arith,
  get_elem?, set, length, length-set, length-replicate, ap, if◌then◌else◌, ◌∙◌,
}
use cpp_framework.Task.Pool.{
  Pool, Task, Worker, new_pool, entering, unready, asleep, deciding, running, exited, ready,
  take_task, enqueue, clear_waiting_tasks, wake, count_running_tasks,
}
use cpp_framework.Task.Pool.System.{
  Label, Step, Steps, here, later, enqueues, clears, stops, notifies, takes, finds_nothing, sleeps,
  wakes_spuriously, exits, retries, begins, ends, throws,
}
use cpp_framework.Task.Pool.Weights.{
  is_unready, is_running, is_waiting, is_exited, total-wake_unready, total-wake_running,
  total-wake_waiting, total-wake_exited, total-replicate,
}

pub record Inv (p : Pool) : Type 0 where
  -- The worker that holds the mutex between its test and its sleep is the only such worker.
  pub one_holder : total is_unready p.workers ≡ (if p.locked then 1 else 0)
  pub counted : p.running_tasks ≡ total is_running p.workers
  -- Nobody waits while a task is there.
  pub none_idle : 0 < total is_waiting p.workers → p.tasks ≡ []
  pub exited_stopped : 0 < total is_exited p.workers → p.stop ≡ true

new_pool-Inv : (n : ℕ) → Inv (new_pool n)
unfolding new_pool
new_pool-Inv n = ground (
  arith,
  total-replicate is_unready n refl,
  total-replicate is_running n refl,
  total-replicate is_waiting n refl,
  total-replicate is_exited n refl,
)

module _ (p : Pool) (inv : Inv p) where
  -- The waiting workers are at least those that hold the mutex.
  wake-Inv_fields :
      (total is_unready (map wake p.workers) ≡ (if p.locked then 1 else 0))
      × (p.running_tasks ≡ total is_running (map wake p.workers))
      × (total is_waiting (map wake p.workers) ≡ (if p.locked then 1 else 0))
      × (0 < total is_exited (map wake p.workers) → p.stop ≡ true)
  wake-Inv_fields = ground (
    arith,
    inv,
    total-wake_unready p.workers,
    total-wake_running p.workers,
    total-wake_waiting p.workers,
    total-wake_exited p.workers,
  )

  module _ (i : ℕ) {a : Worker} (e : get_elem? p.workers i ≡ some a) (v : Worker) where
    -- The four sums after a worker's move from `a` to `v`.
    moved :
        let ws = set p.workers i v in
        (total is_unready ws + is_unready a ≡ total is_unready p.workers + is_unready v)
        × (total is_running ws + is_running a ≡ total is_running p.workers + is_running v)
        × (total is_waiting ws + is_waiting a ≡ total is_waiting p.workers + is_waiting v)
        × (total is_exited ws + is_exited a ≡ total is_exited p.workers + is_exited v)
    moved = (
      total-set is_unready p.workers i v e,
      total-set is_running p.workers i v e,
      total-set is_waiting p.workers i v e,
      total-set is_exited p.workers i v e,
    )

pub unready-le-waiting : (xs : List Worker) → total is_unready xs ≤ total is_waiting xs
unready-le-waiting [] = omega arith
unready-le-waiting (x ∷ xs) = omega (arith, weights x, unready-le-waiting xs)
  where
    weights : (x : Worker) → is_unready x ≤ is_waiting x
    weights x = ground arith

unready_empty : (p : Pool) (ts : List Task) → p.tasks ≡ ts → ready p ≡ false → p.tasks ≡ []
unfolding ready
unready_empty p [] e h = e
unready_empty p (t ∷ ts) e h = ground arith

pub take-same :
    (p : Pool) (ts : List Task)
    → p.tasks ≡ ts
    → ((take_task p).1.workers ≡ p.workers)
      × ((take_task p).1.locked ≡ p.locked)
      × ((take_task p).1.running_tasks ≡ p.running_tasks)
      × ((take_task p).1.stop ≡ p.stop)
      × (p.tasks ≡ [] → (take_task p).1.tasks ≡ [])
unfolding take_task
take-same p [] e = ground arith
take-same p (t ∷ ts) e = ground arith

Step-Inv : {p q : Pool} {l : Label} → Step p l q → Inv p → Inv q
unfolding enqueue clear_waiting_tasks
Step-Inv {p} (enqueues t free) inv = ground (arith, wake-Inv_fields p inv)
Step-Inv {p} (clears free) inv = ground (arith, inv)
Step-Inv {p} stops inv = ground (arith, inv)
Step-Inv {p} (notifies k e) inv =
    ground (arith, wake-Inv_fields p inv, unready-le-waiting p.workers, inv)
Step-Inv {p} (takes i e free r) inv =
    ground (arith, moved p inv i e (deciding (take_task p).0), take-same p p.tasks refl, inv)
Step-Inv {p} (finds_nothing i e free r) inv =
    ground (arith, moved p inv i e unready, unready_empty p p.tasks refl r, inv)
Step-Inv {p} (sleeps i e) inv = ground (arith, moved p inv i e asleep, inv)
Step-Inv {p} (wakes_spuriously i e) inv = ground (arith, moved p inv i e entering, inv)
Step-Inv {p} (exits i e s) inv = ground (arith, moved p inv i e exited, inv)
Step-Inv {p} (retries i e s) inv = ground (arith, moved p inv i e entering, inv)
Step-Inv {p} (begins i t e) inv = ground (arith, moved p inv i e (running t), inv)
Step-Inv {p} (ends i t e) inv = ground (arith, moved p inv i e entering, inv)
Step-Inv {p} (throws i t e) inv = ground (arith, inv)

Steps-Inv : {p q : Pool} {ls : List Label} → Steps p ls q → Inv p → Inv q
Steps-Inv here inv = inv
Steps-Inv (later steps alive step) inv = Step-Inv step (Steps-Inv steps inv)

-- From construction on, under any interleaving of workers and clients: at most one worker holds the
-- mutex, `running_tasks_` counts the workers that run a task, no worker waits while a task is in the
-- deque, and a worker has only gone if the pool was stopped.
pub reachable-Inv : (n : ℕ) {q : Pool} {ls : List Label} → Steps (new_pool n) ls q → Inv q
reachable-Inv n steps = Steps-Inv steps (new_pool-Inv n)

module _ (w : Worker → ℕ) (small : (x : Worker) → w x ≤ 1) where
  total-le-length : (xs : List Worker) → total w xs ≤ length xs
  total-le-length [] = omega arith
  total-le-length (x ∷ xs) = omega (arith, small x, total-le-length xs)

length-wake : (xs : List Worker) → length (map wake xs) ≡ length xs
length-wake [] = refl
length-wake (x ∷ xs) = ap suc (length-wake xs)

Step-length : {p q : Pool} {l : Label} → Step p l q → length q.workers ≡ length p.workers
unfolding enqueue clear_waiting_tasks
Step-length {p} (enqueues t free) = length-wake p.workers
Step-length (clears free) = refl
Step-length stops = refl
Step-length {p} (notifies k e) = length-wake p.workers
Step-length {p} (takes i e free r) =
    length-set (take_task p).1.workers i _ ∙ ap length (take-same p p.tasks refl).0
Step-length {p} (finds_nothing i e free r) = length-set p.workers i _
Step-length {p} (sleeps i e) = length-set p.workers i _
Step-length {p} (wakes_spuriously i e) = length-set p.workers i _
Step-length {p} (exits i e s) = length-set p.workers i _
Step-length {p} (retries i e s) = length-set p.workers i _
Step-length {p} (begins i t e) = length-set p.workers i _
Step-length {p} (ends i t e) = length-set p.workers i _
Step-length (throws i t e) = refl

pub Steps-length :
    {p q : Pool} {ls : List Label} → Steps p ls q → length q.workers ≡ length p.workers
Steps-length here = refl
Steps-length (later steps alive step) = Step-length step ∙ Steps-length steps

-- A pool of `n` workers never counts more than `n` running tasks.
pub running_bounded :
    (n : ℕ) {q : Pool} {ls : List Label} → Steps (new_pool n) ls q → count_running_tasks q ≤ n
unfolding count_running_tasks new_pool
running_bounded n {q} steps = omega (
  arith,
  (reachable-Inv n steps).counted,
  total-le-length is_running (λ x. ground arith) q.workers,
  Steps-length steps,
  length-replicate n entering,
)
