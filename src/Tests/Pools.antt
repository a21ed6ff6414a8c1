-- ===== src/Tests/Pools.antt =====
-- The task pool.
use cpp_framework.Prelude.{
  all_of, ◌+◌, ◌≤◌, ◌<◌, ◌⊎◌, ◌≡◌, refl, true, false, none, some, List, [], ◌∷◌, ◌++◌, total,
  get_elem?,
}
use cpp_framework.Task.Pool.{
  Pool, new_pool, enqueue, ready, take_task, join_workers, entering, asleep, running, exited,
  all_exited,
}
use cpp_framework.Task.Pool.System.{
  Label, quiet, added, taken, Steps, here, later, enqueues, takes, begins, ends, exits, stops,
  finds_nothing, sleeps, notifies,
}
use cpp_framework.Task.Pool.Invariant.{Inv, reachable-Inv}
use cpp_framework.Task.Pool.Order.{ins, finishes}
use cpp_framework.Task.Pool.Delivery.{times, drops, stop_runs_each}
use cpp_framework.Task.Pool.Finish.{OwnRun, no_step, step_more, NextStep, stop_finishes}
use cpp_framework.Task.Pool.Quiet.{IsAtRest, pool_serves}
use cpp_framework.Task.Pool.Wakeup.{OwnSteps, stop_hangs}

-- Two tasks are enqueued in a pool of one, and the first is taken and begun.
abbrev labels : List Label
labels = added (some 5) ∷ added (some 6) ∷ taken (some 5) ∷ quiet ∷ []

abbrev reached : Pool
reached = record {
  tasks = some 6 ∷ [];
  workers = running 5 ∷ [];
  locked = false;
  stop = false;
  notifying = 0;
  running_tasks = 1;
  concurrency = 1;
  terminated = false;
}

reach : Steps (new_pool 1) labels reached
unfolding new_pool enqueue ready take_task
reach =
    let queued = later (later here refl (enqueues (some 5) refl)) refl (enqueues (some 6) refl) in
    later (later queued refl (takes 0 refl refl refl)) refl (begins 0 5 refl)

reachable-Inv_example : Inv reached
reachable-Inv_example = reachable-Inv 1 reach

stop_hangs_example :
    (ls : List Label) × (p : Pool) × Steps (new_pool 1) ls p
    × (p.stop ≡ true)
    × (p.notifying ≡ 0)
    × ((q : Pool) → OwnSteps p q → get_elem? q.workers 0 ≡ some asleep)
stop_hangs_example = stop_hangs 0

-- The pool with a task running and one waiting, after stop(); the running task ends.
abbrev stopped_pool : Pool
stopped_pool = record reached { stop = true }

abbrev stop_labels : List Label
stop_labels = labels ++ quiet ∷ quiet ∷ []

abbrev one_ended : Pool
one_ended = record stopped_pool { workers = entering ∷ []; running_tasks = 0 }

stop_finishes_example :
    (1 ≤ 7)
    × (((join_workers one_ended ≡ some (record one_ended { workers = [] }))
          × (0 < 1 → one_ended.tasks ≡ []))
        ⊎ NextStep one_ended)
stop_finishes_example =
    stop_finishes {p = stopped_pool} refl refl refl refl refl (refl, tt)
      (step_more no_step (ends 0 5 refl) refl)

-- Both tasks are run and the worker goes.
abbrev all_gone : Pool
all_gone = record stopped_pool { tasks = []; workers = exited ∷ []; running_tasks = 0 }

to_the_end : OwnRun stopped_pool 6 all_gone
unfolding take_task ready
to_the_end =
    let second = step_more (step_more no_step (ends 0 5 refl) refl) (takes 0 refl refl refl) refl in
    let ended_too = step_more (step_more second (begins 0 6 refl) refl) (ends 0 6 refl) refl in
    step_more (step_more ended_too (takes 0 refl refl refl) refl) (exits 0 refl refl) refl

stop_runs_each_example :
    (ms : List Label) × Steps (new_pool 1) ((stop_labels) ++ ms) all_gone
    × (total (finishes 6) ((stop_labels) ++ ms) + times 6 (all_of drops (stop_labels))
        ≡ times 6 (all_of ins (stop_labels)))
unfolding join_workers all_exited
stop_runs_each_example =
    stop_runs_each 0 6 (later (later reach refl stops) refl (notifies 0 refl)) refl refl refl refl
      refl (refl, tt) to_the_end all_joined
  where
    all_joined : join_workers all_gone ≡ some (record all_gone { workers = [] })
    all_joined = refl

-- Without a stop, both tasks are run and the worker sleeps.
abbrev at_rest : Pool
at_rest = record reached { tasks = []; workers = asleep ∷ []; running_tasks = 0 }

to_rest : OwnRun reached 6 at_rest
unfolding take_task ready
to_rest =
    let second = step_more (step_more no_step (ends 0 5 refl) refl) (takes 0 refl refl refl) refl in
    let ended_too = step_more (step_more second (begins 0 6 refl) refl) (ends 0 6 refl) refl in
    step_more (step_more ended_too (finds_nothing 0 refl refl refl) refl) (sleeps 0 refl) refl

pool_serves_example :
    (6 ≤ 7)
    × ((ms : List Label) × Steps (new_pool 1) (labels ++ ms) at_rest
        × (all_of ins (labels ++ ms) ≡ all_of ins labels)
        × (all_of drops (labels ++ ms) ≡ all_of drops labels)
        × (IsAtRest (labels ++ ms) at_rest ⊎ NextStep at_rest))
pool_serves_example = pool_serves 0 reach refl refl to_rest

-- The empty function in front of a task: the worker of the stopped pool goes, and leaves the task.
left_behind :
    (ls : List Label) × (p : Pool) × Steps (new_pool 1) ls p
    × (all_exited p.workers ≡ true)
    × (p.tasks ≡ some 5 ∷ [])
unfolding new_pool enqueue ready take_task all_exited
left_behind =
    let queued = later (later here refl (enqueues none refl)) refl (enqueues (some 5) refl) in
    let stopped = later (later queued refl stops) refl (notifies 0 refl) in
    (_, _, later (later stopped refl (takes 0 refl refl refl)) refl (exits 0 refl refl), refl, refl)
