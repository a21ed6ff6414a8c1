-- ===== src/Task/Pool/Live.antt =====
-- How far a pool that is not stopped is from its rest, counted in its own steps.
use cpp_framework.Prelude.{
  ℕ, ◌+◌, ◌*◌, ◌<◌, ◌≤◌, ◌≡◌, refl, sym, ◌∙◌, true, false, none, some, List, [], ◌∷◌, total,
  total-set, arith, get_elem?, set, length,
}
use cpp_framework.Task.Pool.{
  Pool, Task, Worker, new_pool, entering, unready, asleep, deciding, running, exited, ready,
  enqueue, clear_waiting_tasks,
}
use cpp_framework.Task.Pool.System.{
  Label, Step, Steps, here, later, enqueues, clears, stops, notifies, takes, finds_nothing, sleeps,
  wakes_spuriously, exits, retries, begins, ends, throws,
}
use cpp_framework.Task.Pool.Wakeup.{is_own, take_kept}
use cpp_framework.Task.Pool.Invariant.{take-same}
use cpp_framework.Task.Pool.Finish.{OwnRun, no_step, step_more, take_some}

-- The own steps that a worker has before it sleeps, unless it takes a task.
abbrev pub restless : Worker → ℕ
restless entering = 2
restless unready = 1
restless asleep = 0
restless (deciding none) = 3
restless (deciding (some t)) = 4
restless (running t) = 3
restless exited = 0

abbrev pub left : Pool → ℕ
left p = total restless p.workers + 3 * length p.tasks

-- Notifications that are owed come from stop alone.
Step-notifying :
    {p q : Pool} {l : Label}
    → Step p l q
    → (p.stop ≡ false → p.notifying ≡ 0)
    → q.stop ≡ false
    → q.notifying ≡ 0
unfolding enqueue clear_waiting_tasks
Step-notifying (enqueues t free) inv h = inv h
Step-notifying (clears free) inv h = inv h
Step-notifying stops inv h = absurd cc
Step-notifying (notifies k e) inv h = omega (arith, inv h, e)
Step-notifying {p} (takes i e free r) inv h =
    (take_kept p p.tasks refl).1 ∙ inv (sym (take-same p p.tasks refl).3 ∙ h)
Step-notifying (finds_nothing i e free r) inv h = inv h
Step-notifying (sleeps i e) inv h = inv h
Step-notifying (wakes_spuriously i e) inv h = inv h
Step-notifying (exits i e s) inv h = inv h
Step-notifying (retries i e s) inv h = inv h
Step-notifying (begins i t e) inv h = inv h
Step-notifying (ends i t e) inv h = inv h
Step-notifying (throws i t e) inv h = inv h

pub record IsLive (p : Pool) : Type 0 where
  pub alive : p.terminated ≡ false
  pub going : p.stop ≡ false
  pub unnotified : p.notifying ≡ 0

front_task :
    (p : Pool) (ts : List Task)
    → p.tasks ≡ ts
    → p.stop ≡ false
    → ready p ≡ true
    → (t : Task) × (us : List Task) × (p.tasks ≡ t ∷ us)
unfolding ready
front_task p [] e go r = absurd (ground (arith, e, go, r))
front_task p (t ∷ us) e go r = (t, us, e)

module _ (p : Pool) (i : ℕ) {a : Worker} (e : get_elem? p.workers i ≡ some a) (v : Worker) where
  moved : total restless (set p.workers i v) + restless a ≡ total restless p.workers + restless v
  moved = total-set restless p.workers i v e

restless_deciding : (t : Task) → restless (deciding t) ≤ 4
restless_deciding none = omega arith
restless_deciding (some t) = omega arith

-- An own step of a live pool comes nearer to its rest.
OwnStep-IsLive :
    {p q : Pool} {l : Label} (step : Step p l q)
    → is_own step ≡ true
    → IsLive p
    → IsLive q × (left q < left p)
OwnStep-IsLive (enqueues t free) own f = absurd cc
OwnStep-IsLive (clears free) own f = absurd cc
OwnStep-IsLive stops own f = absurd cc
OwnStep-IsLive (throws j t e) own f = absurd cc
OwnStep-IsLive (wakes_spuriously j e) own f = absurd cc
OwnStep-IsLive {p} (notifies k e) own f = absurd (omega (arith, f.unnotified, e))
OwnStep-IsLive {p} (takes j e free r) own f =
    let (t, us, task) = front_task p p.tasks refl f.going r in
    rw (take_some p t us task)
      (ground (arith, moved p j e (deciding t), restless_deciding t, f, task))
OwnStep-IsLive {p} (finds_nothing j e free r) own f = ground (arith, moved p j e unready, f)
OwnStep-IsLive {p} (sleeps j e) own f = ground (arith, moved p j e asleep, f)
OwnStep-IsLive {p} (exits j e s) own f = let go = f.going in absurd cc
OwnStep-IsLive {p} (retries j e s) own f = ground (arith, moved p j e entering, f)
OwnStep-IsLive {p} (begins j t e) own f = ground (arith, moved p j e (running t), f)
OwnStep-IsLive {p} (ends j t e) own f = ground (arith, moved p j e entering, f)

pub OwnRun-IsLive :
    {p q : Pool} {n : ℕ} → OwnRun p n q → IsLive p → IsLive q × (n + left q ≤ left p)
OwnRun-IsLive no_step f = (f, omega arith)
OwnRun-IsLive (step_more run step own) f =
    let (g, far) = OwnRun-IsLive run f in
    let (h, less) = OwnStep-IsLive step own g in (h, omega (arith, far, less))

pub Steps-notifying :
    (n : ℕ) {q : Pool} {ls : List Label}
    → Steps (new_pool n) ls q
    → q.stop ≡ false
    → q.notifying ≡ 0
unfolding new_pool
Steps-notifying n here h = refl
Steps-notifying n (later steps alive step) h = Step-notifying step (Steps-notifying n steps) h
