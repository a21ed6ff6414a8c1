-- ===== src/Task/Pool/Delivery.antt =====
-- Every call that is enqueued, from the deque to the end of its run: the deque, the workers and
-- stop() put together.
use mathlib.Core.List.{append-nil, append_assoc}
use cpp_framework.Prelude.{
  ℕ, suc, ◌+◌, ◌≡◌, refl, sym, ap, subst, ◌∙◌, ◌==◌, true, false, none, some, List, [], ◌∷◌, ◌++◌,
  length, length-replicate, all_of, all_of-append, total, total-append, arith, if◌then◌else◌, All,
}
use cpp_framework.Task.Pool.{
  Pool, Task, Worker, new_pool, entering, unready, asleep, deciding, running, exited, all_exited,
  join_workers, take_task,
}
use cpp_framework.Task.Pool.System.{
  Label, took, quiet, added, taken, ended, dropped, Step, Steps, later, enqueues, clears, stops,
  notifies, takes, finds_nothing, sleeps, wakes_spuriously, exits, retries, begins, ends, throws,
}
use cpp_framework.Task.Pool.Weights.{is_waiting}
use cpp_framework.Task.Pool.Wakeup.{is_own}
use cpp_framework.Task.Pool.Order.{ins, outs, holds, hands, finishes, pool_fifo, run_once}
use cpp_framework.Task.Pool.Finish.{
  is_leaving, IsFunction, OwnRun, no_step, step_more, staying-IsFinishing, OwnRun-IsFinishing,
  exited_leaving,
}
use cpp_framework.Task.Pool.Invariant.{Steps-length}

-- The tasks that a step drops, as `clear_waiting_tasks` does.
abbrev pub drops : Label → List Task
drops (dropped ts) = ts
drops quiet = []
drops (added t) = []
drops (taken t) = []
drops (ended t) = []

-- Whether it is this call, and not the empty function or another.
abbrev pub is_call : ℕ → Task → ℕ
is_call t none = 0
is_call t (some u) = if u == t then 1 else 0

abbrev pub times : ℕ → List Task → ℕ
times t = total (is_call t)

times-append : (t : ℕ) (us vs : List Task) → times t (us ++ vs) ≡ times t us + times t vs
times-append t = total-append (is_call t)

times-outs :
    (t : ℕ) (ls : List Label)
    → times t (all_of outs ls) ≡ total (hands t) ls + times t (all_of drops ls)
times-outs t [] = omega arith
times-outs t (l ∷ ls) = omega (
  arith,
  times-append t (outs l) (all_of outs ls),
  times-append t (drops l) (all_of drops ls),
  one l,
  times-outs t ls,
)
  where
    one : (l : Label) → times t (outs l) ≡ hands t l + times t (drops l)
    one quiet = omega arith
    one (added u) = omega arith
    one (taken none) = omega arith
    one (taken (some u)) = omega arith
    one (ended u) = omega arith
    one (dropped us) = omega arith

-- In every state that a pool built empty reaches, the times that a call was enqueued are those that
-- a run of it has ended, those that a worker has it in hand, those that it waits in the deque and
-- those that clear_waiting_tasks dropped it.
pub task_accounting :
    (n t : ℕ) {q : Pool} {ls : List Label}
    → Steps (new_pool n) ls q
    → times t (all_of ins ls)
      ≡ total (finishes t) ls
        + total (holds t) q.workers
        + times t q.tasks
        + times t (all_of drops ls)
unfolding new_pool
task_accounting n t {q} {ls} steps = omega (
  arith,
  ap (times t) (pool_fifo steps),
  times-append t (all_of outs ls) q.tasks,
  times-outs t ls,
  run_once n t steps,
)

-- An own step neither enqueues nor drops.
own_label :
    {p q : Pool} {l : Label}
    → (step : Step p l q) → is_own step ≡ true
    → (ins l ≡ []) × (drops l ≡ [])
own_label (enqueues t free) own = absurd cc
own_label (clears free) own = absurd cc
own_label stops own = absurd cc
own_label (throws i t e) own = absurd cc
own_label (notifies k e) own = (refl, refl)
own_label {p} (takes i e free r) own = silent p.tasks
  where
    silent : (ts : List Task) → (ins (took ts) ≡ []) × (drops (took ts) ≡ [])
    silent [] = (refl, refl)
    silent (t ∷ ts) = (refl, refl)
own_label (finds_nothing i e free r) own = (refl, refl)
own_label (sleeps i e) own = (refl, refl)
own_label (wakes_spuriously i e) own = absurd cc
own_label (exits i e s) own = (refl, refl)
own_label (retries i e s) own = (refl, refl)
own_label (begins i t e) own = (refl, refl)
own_label (ends i t e) own = (refl, refl)

-- One step more at which nothing happens that `f` lists.
all_of-quiet :
    (f : Label → List Task) (ks ls ms : List Label) (l : Label)
    → all_of f (ls ++ ms) ≡ all_of f ks
    → f l ≡ []
    → all_of f (ls ++ (ms ++ l ∷ [])) ≡ all_of f ks
all_of-quiet f ks ls ms l e h =
    ap (all_of f) (sym (append_assoc ls ms (l ∷ [])))
    ∙ all_of-append f (ls ++ ms) l
    ∙ ap (λ us. all_of f (ls ++ ms) ++ us) h
    ∙ append-nil _
    ∙ e

take-alive : (p : Pool) (ts : List Task) → p.tasks ≡ ts → (take_task p).1.terminated ≡ p.terminated
unfolding take_task
take-alive p [] e = ground arith
take-alive p (t ∷ ts) e = ground arith

-- The program goes on by own steps.
own_alive :
    {p q : Pool} {l : Label}
    → (step : Step p l q) → is_own step ≡ true
    → p.terminated ≡ false
    → q.terminated ≡ false
own_alive (enqueues t free) own h = absurd cc
own_alive (clears free) own h = absurd cc
own_alive stops own h = absurd cc
own_alive (throws i t e) own h = absurd cc
own_alive (wakes_spuriously i e) own h = absurd cc
own_alive (notifies k e) own h = h
own_alive {p} (takes i e free r) own h = take-alive p p.tasks refl ∙ h
own_alive (finds_nothing i e free r) own h = h
own_alive (sleeps i e) own h = h
own_alive (exits i e s) own h = h
own_alive (retries i e s) own h = h
own_alive (begins i t e) own h = h
own_alive (ends i t e) own h = h

-- A run of own steps goes on from what led there.
pub OwnRun-Steps :
    {o p q : Pool} {n : ℕ} {ls : List Label}
    → Steps o ls p
    → p.terminated ≡ false
    → OwnRun p n q
    → (q.terminated ≡ false)
      × (ms : List Label) × Steps o (ls ++ ms) q
      × (all_of ins (ls ++ ms) ≡ all_of ins ls)
      × (all_of drops (ls ++ ms) ≡ all_of drops ls)
OwnRun-Steps {ls = ls} steps alive no_step =
    let same = append-nil ls in
    (alive, [], rw same steps, ap (all_of ins) same, ap (all_of drops) same)
OwnRun-Steps {o = o} {ls = ls} steps alive (step_more {r = r} {l = l} run step own) =
    let (still, ms, more, same, kept) = OwnRun-Steps steps alive run in
    let (silent, none_dropped) = own_label step own in
    (
      own_alive step own still,
      ms ++ l ∷ [],
      subst (λ ks. Steps o ks r) (append_assoc ls ms (l ∷ [])) (later more still step),
      all_of-quiet ins ls ls ms l same silent,
      all_of-quiet drops ls ls ms l kept none_dropped,
    )

exited-holds : (t : ℕ) (ws : List Worker) → all_exited ws ≡ true → total (holds t) ws ≡ 0
unfolding all_exited
exited-holds t [] e = refl
exited-holds t (exited ∷ ws) e = omega (arith, exited-holds t ws e)
exited-holds t (entering ∷ ws) e = absurd cc
exited-holds t (unready ∷ ws) e = absurd cc
exited-holds t (asleep ∷ ws) e = absurd cc
exited-holds t (deciding u ∷ ws) e = absurd cc
exited-holds t (running u ∷ ws) e = absurd cc

joined-exited : (q : Pool) {r : Pool} → join_workers q ≡ some r → all_exited q.workers ≡ true
unfolding join_workers
joined-exited q e = ground (arith, e)

-- A pool with workers that was built empty and is stopped, in a state that no exception has ended,
-- with its mutex free, no worker asleep or about to sleep, none gone or back with no task, and no
-- empty function in its deque. If from then on it makes its own steps only, with no call of a client,
-- no spurious wake-up and no task that throws, and comes to where the joins of stop() return: the
-- runs of each call that have ended, and the times that clear_waiting_tasks had dropped it, are
-- together the times that it was enqueued.
pub stop_runs_each :
    (n t : ℕ) {p q r : Pool} {k : ℕ} {ls : List Label}
    → Steps (new_pool (suc n)) ls p
    → p.terminated ≡ false
    → p.stop ≡ true
    → p.locked ≡ false
    → total is_waiting p.workers ≡ 0
    → total is_leaving p.workers ≡ 0
    → All IsFunction p.tasks
    → OwnRun p k q
    → join_workers q ≡ some r
    → (ms : List Label) × Steps (new_pool (suc n)) (ls ++ ms) q
      × (total (finishes t) (ls ++ ms) + times t (all_of drops ls) ≡ times t (all_of ins ls))
unfolding new_pool
stop_runs_each n t {p} {q} {ls = ls} steps alive stopped free awake staying full run joined =
    let (_, ms, more, same, kept) = OwnRun-Steps steps alive run in
    let gone = joined-exited q joined in
    let finishing =
      (OwnRun-IsFinishing run (staying-IsFinishing alive stopped free awake staying full)).0 in
    let workers : length q.workers ≡ suc n =
      Steps-length more ∙ length-replicate (suc n) entering in
    let empty = finishing.drained (exited_leaving q.workers gone (omega (arith, workers))) in
    (
      ms,
      more,
      omega (
        arith,
        task_accounting (suc n) t more,
        exited-holds t q.workers gone,
        ap (times t) empty,
        ap (times t) same,
        ap (times t) kept,
      ),
    )
