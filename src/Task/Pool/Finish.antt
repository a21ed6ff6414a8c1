-- ===== src/Task/Pool/Finish.antt =====
-- A stopped pool whose workers are all awake: it runs what is in its deque, and its workers go.
use cpp_framework.Prelude.{
  ℕ, suc, ◌+◌, ◌*◌, ◌<◌, ◌≤◌, ◌≡◌, refl, ◌⊎◌, inl, inr, true, false, none, some, List, [], ◌∷◌, map,
  total, total-set, arith, get_elem?, set, length, All, is_some, subst,
}
use cpp_framework.Task.Pool.{
  Pool, Task, Worker, entering, unready, asleep, deciding, running, exited, ready, take_task, wake,
  all_exited, join_workers,
}
use cpp_framework.Task.Pool.System.{
  Label, Step, enqueues, clears, stops, notifies, takes, finds_nothing, sleeps, wakes_spuriously,
  exits, retries, begins, ends, throws, put,
}
use cpp_framework.Task.Pool.Weights.{is_waiting, is_exited, total-wake_waiting, total-wake}
use cpp_framework.Task.Pool.Wakeup.{is_own}
use cpp_framework.Task.Pool.Invariant.{unready-le-waiting}

-- The own steps that a worker has before it unless it takes a task.
abbrev ahead : Worker → ℕ
ahead entering = 2
ahead unready = 2
ahead asleep = 2
ahead (deciding none) = 1
ahead (deciding (some t)) = 4
ahead (running t) = 3
ahead exited = 0

-- A worker that is back with no task, or has gone.
abbrev pub is_leaving : Worker → ℕ
is_leaving entering = 0
is_leaving unready = 0
is_leaving asleep = 0
is_leaving (deciding none) = 1
is_leaving (deciding (some t)) = 0
is_leaving (running t) = 0
is_leaving exited = 1

abbrev left : Pool → ℕ
left p = total ahead p.workers + 3 * length p.tasks + p.notifying

-- A task that is not the empty function.
abbrev pub IsFunction : Task → Type 0
IsFunction t = is_some t ≡ true

-- Stopped, nobody waiting, no empty function in the deque, and nobody gone while a task is there.
pub record IsFinishing (p : Pool) : Type 0 where
  pub alive : p.terminated ≡ false
  pub stopped : p.stop ≡ true
  pub free : p.locked ≡ false
  pub awake : total is_waiting p.workers ≡ 0
  pub full : All IsFunction p.tasks
  pub drained : 0 < total is_leaving p.workers → p.tasks ≡ []

ready_stopped : (p : Pool) → p.stop ≡ true → ready p ≡ true
unfolding ready
ready_stopped p e = ground (arith, e)

module _ (p : Pool) (i : ℕ) {a : Worker} (e : get_elem? p.workers i ≡ some a) (v : Worker) where
  moved :
      let ws = set p.workers i v in
      (total is_waiting ws + is_waiting a ≡ total is_waiting p.workers + is_waiting v)
      × (total is_leaving ws + is_leaving a ≡ total is_leaving p.workers + is_leaving v)
      × (total ahead ws + ahead a ≡ total ahead p.workers + ahead v)
  moved = (
    total-set is_waiting p.workers i v e,
    total-set is_leaving p.workers i v e,
    total-set ahead p.workers i v e,
  )

waiting_counts :
    (p : Pool) (i : ℕ) → get_elem? p.workers i ≡ some unready → 0 < total is_waiting p.workers
waiting_counts p i e = omega (arith, total-set is_waiting p.workers i entering e)

take_none : (p : Pool) → p.tasks ≡ [] → take_task p ≡ (none, record p { tasks = [] })
unfolding take_task
take_none p e = rw e refl

pub take_some :
    (p : Pool) (t : Task) (ts : List Task)
    → p.tasks ≡ t ∷ ts
    → take_task p ≡ (t, record p { tasks = ts })
unfolding take_task
take_some p t ts e = rw e refl

takes-IsFinishing :
    (p : Pool) (j : ℕ) (ts : List Task)
    → p.tasks ≡ ts
    → get_elem? p.workers j ≡ some entering
    → IsFinishing p
    → let q = put (take_task p).1 j (deciding (take_task p).0) in IsFinishing q × (left q < left p)
takes-IsFinishing p j [] empty e f =
    rw (take_none p empty) (ground (arith, moved p j e (deciding none), f, empty))
takes-IsFinishing p j (none ∷ ts) task e f =
    let full = subst (All IsFunction) task f.full in absurd (let h = full.0 in cc)
takes-IsFinishing p j (some t ∷ ts) task e f =
    let full = subst (All IsFunction) task f.full in
    rw (take_some p (some t) ts task)
      (ground (arith, moved p j e (deciding (some t)), f, task, full.1))

total-wake_leaving : (xs : List Worker) → total is_leaving (map wake xs) ≡ total is_leaving xs
total-wake_leaving = total-wake is_leaving is_leaving λ x. ground arith

total-wake-ahead : (xs : List Worker) → total ahead (map wake xs) ≡ total ahead xs
total-wake-ahead = total-wake ahead ahead λ x. ground arith

-- An own step keeps this and comes nearer to the end.
pub OwnStep-IsFinishing :
    {p q : Pool} {l : Label} (step : Step p l q)
    → is_own step ≡ true
    → IsFinishing p
    → IsFinishing q × (left q < left p)
OwnStep-IsFinishing (enqueues t free) own f = absurd cc
OwnStep-IsFinishing (clears free) own f = absurd cc
OwnStep-IsFinishing stops own f = absurd cc
OwnStep-IsFinishing (throws j t e) own f = absurd cc
OwnStep-IsFinishing (wakes_spuriously j e) own f = absurd cc
OwnStep-IsFinishing {p} (notifies k e) own f = ground (
  arith,
  f,
  total-wake_waiting p.workers,
  total-wake_leaving p.workers,
  total-wake-ahead p.workers,
  unready-le-waiting p.workers,
)
OwnStep-IsFinishing {p} (takes j e free r) own f = takes-IsFinishing p j p.tasks refl e f
OwnStep-IsFinishing {p} (finds_nothing j e free r) own f =
    let go = ready_stopped p f.stopped in absurd cc
OwnStep-IsFinishing {p} (sleeps j e) own f = absurd (omega (arith, waiting_counts p j e, f.awake))
OwnStep-IsFinishing {p} (exits j e s) own f = ground (arith, moved p j e exited, f)
OwnStep-IsFinishing {p} (retries j e s) own f = let go = f.stopped in absurd cc
OwnStep-IsFinishing {p} (begins j t e) own f = ground (arith, moved p j e (running t), f)
OwnStep-IsFinishing {p} (ends j t e) own f = ground (arith, moved p j e entering, f)

-- A run of this many own steps.
pub data OwnRun (p : Pool) : ℕ → Pool → Type 0 where
  no_step : OwnRun p 0 p
  step_more :
      {n : ℕ} {q r : Pool} {l : Label}
      → OwnRun p n q
      → (step : Step q l r) → is_own step ≡ true
      → OwnRun p (suc n) r

pub OwnRun-IsFinishing :
    {p q : Pool} {n : ℕ} → OwnRun p n q → IsFinishing p → IsFinishing q × (n + left q ≤ left p)
OwnRun-IsFinishing no_step f = (f, omega arith)
OwnRun-IsFinishing (step_more run step own) f =
    let (g, far) = OwnRun-IsFinishing run f in
    let (h, less) = OwnStep-IsFinishing step own g in (h, omega (arith, far, less))

-- A worker that has not gone, if there is one.
some_worker :
    (ws : List Worker)
    → (all_exited ws ≡ true)
      ⊎ ((i : ℕ) × (w : Worker) × (get_elem? ws i ≡ some w) × (is_exited w ≡ 0))
unfolding all_exited
some_worker [] = inl refl
some_worker (entering ∷ ws) = inr (0, entering, refl, refl)
some_worker (unready ∷ ws) = inr (0, unready, refl, refl)
some_worker (asleep ∷ ws) = inr (0, asleep, refl, refl)
some_worker (deciding t ∷ ws) = inr (0, deciding t, refl, refl)
some_worker (running t ∷ ws) = inr (0, running t, refl, refl)
some_worker (exited ∷ ws) = elim (some_worker ws) [
  | inl e ↦ inl e
  | inr (i, w, e, h) ↦ inr (suc i, w, e, h)
]

unfoldable pub NextStep : Pool → Type 0
NextStep p = (l : Label) × (q : Pool) × (step : Step p l q) × (is_own step ≡ true)

worker_moves :
    (p : Pool) (i : ℕ) (w : Worker)
    → IsFinishing p
    → get_elem? p.workers i ≡ some w
    → is_exited w ≡ 0
    → NextStep p
unfolding NextStep
worker_moves p i entering f e h = (_, _, takes i e f.free (ready_stopped p f.stopped), refl)
worker_moves p i unready f e h = (_, _, sleeps i e, refl)
worker_moves p i asleep f e h =
    absurd (omega (arith, total-set is_waiting p.workers i entering e, f.awake))
worker_moves p i (deciding none) f e h = (_, _, exits i e f.stopped, refl)
worker_moves p i (deciding (some t)) f e h = (_, _, begins i t e, refl)
worker_moves p i (running t) f e h = (_, _, ends i t e, refl)
worker_moves p i exited f e h = absurd (omega (arith, h))

ahead_bound : (ws : List Worker) → total ahead ws ≤ 4 * length ws
ahead_bound [] = omega arith
ahead_bound (w ∷ ws) = omega (arith, weight w, ahead_bound ws)
  where
    weight : (w : Worker) → ahead w ≤ 4
    weight w = ground arith

pub exited_leaving :
    (ws : List Worker) → all_exited ws ≡ true → 0 < length ws → 0 < total is_leaving ws
unfolding all_exited
exited_leaving [] e h = absurd (omega (arith, h))
exited_leaving (exited ∷ ws) e h = omega arith
exited_leaving (entering ∷ ws) e h = absurd cc
exited_leaving (unready ∷ ws) e h = absurd cc
exited_leaving (asleep ∷ ws) e h = absurd cc
exited_leaving (deciding t ∷ ws) e h = absurd cc
exited_leaving (running t ∷ ws) e h = absurd cc

-- Before anybody has gone or found the deque empty, all is well.
pub staying-IsFinishing :
    {p : Pool}
    → p.terminated ≡ false
    → p.stop ≡ true
    → p.locked ≡ false
    → total is_waiting p.workers ≡ 0
    → total is_leaving p.workers ≡ 0
    → All IsFunction p.tasks
    → IsFinishing p
staying-IsFinishing alive stopped free awake staying full = record {
  alive = alive;
  stopped = stopped;
  free = free;
  awake = awake;
  full = full;
  drained = λ h. absurd (omega (arith, h, staying));
}

-- In a stopped pool that no exception has ended and whose mutex is free, if no worker sleeps or is about to, none has gone or is
-- back with no task, and no empty function stands in the deque, stop() comes to its end by the own
-- steps of the pool, as long as no client calls anything, nobody wakes spuriously, and the tasks
-- return: the steps are at most four for each worker, three for each waiting task and one for each
-- notification; until the joins return there is a next one; and when they do, if the pool has
-- workers, no task is left in the deque.
pub stop_finishes :
    {p q : Pool} {n : ℕ}
    → p.terminated ≡ false
    → p.stop ≡ true
    → p.locked ≡ false
    → total is_waiting p.workers ≡ 0
    → total is_leaving p.workers ≡ 0
    → All IsFunction p.tasks
    → OwnRun p n q
    → (n ≤ 4 * length p.workers + 3 * length p.tasks + p.notifying)
      × (((join_workers q ≡ some (record q { workers = [] }))
            × (0 < length q.workers → q.tasks ≡ []))
          ⊎ NextStep q)
unfolding join_workers
stop_finishes {p} {q} {n} alive stopped free awake staying full run =
    let (f, far) =
      OwnRun-IsFinishing run (staying-IsFinishing alive stopped free awake staying full) in
    (
      omega (arith, far, ahead_bound p.workers),
      elim (some_worker q.workers) [
        | inl all ↦ inl (rw all refl, λ h. f.drained (exited_leaving q.workers all h))
        | inr (i, w, e, h) ↦ inr (worker_moves q i w f e h)
      ],
    )
