-- ===== src/Tests/Workers.antt =====
-- A worker that is asked to run its task, and asked again, cancelled or destroyed meanwhile.
use cpp_framework.Prelude.{
  ◌+◌, ◌<◌, ◌≤◌, ◌≡◌, refl, true, false, none, some, [], ◌∷◌, text, ◌⊎◌, ℕ_discrete,
}
use cpp_framework.Error.{success, any_cast}
use cpp_framework.Task.TaskBase.{get_task_information, back_ground}
use cpp_framework.Task.BackGroundWorker.{
  BackGroundWorker, new_worker, run_task_async, cancel_async, begin_destruction, testing,
  completing, working, uncancelling, gone, terminated, new_args, awake, error_of, completed_args,
  result_as, set_result, set_cancel, finishing, is_busy, deciding,
}
use cpp_framework.Task.BackGroundWorker.System.{
  Label, quiet, asked, started, unhandled, Move, Steps, here, later, moves, calls, goes_on, starts,
  ends, has_no_handler, frees, requests, uncancels, finishes, at,
}
use cpp_framework.Task.BackGroundWorker.Runs.{
  count, is_start, is_end, is_request, in_run, runs_counted,
}
use cpp_framework.Task.BackGroundWorker.Serving.{request_served}
use cpp_framework.Task.BackGroundWorker.Stopping.{count_moves, destruction_ends}
use cpp_framework.Task.BackGroundWorker.Losing.{Alone, unmoved, then_moves, cancellation_lost}

abbrev fresh : BackGroundWorker
fresh = record {
  base = record { name = text "w"; type = back_ground; thread = none };
  thread = some 7;
  phase = testing;
  running = false;
  stop = false;
  cancellation_pending = false;
  progress = 0;
  has_handler = false;
}

-- Asked, awake, and in its task.
abbrev in_task : BackGroundWorker
in_task = record fresh { running = true; phase = working }

in_task-Steps : Steps (new_worker (text "w") 7) (started ∷ quiet ∷ asked ∷ []) in_task
unfolding new_worker run_task_async awake
in_task-Steps =
    later (later (later here (calls requests)) (moves (goes_on refl refl)))
      (moves (starts refl refl))

-- Behind the end of the task, with the running flag cleared.
abbrev between : BackGroundWorker
between = record in_task { phase = uncancelling; running = false }

between-Steps :
    Steps
      (new_worker (text "w") 7)
      (quiet ∷ unhandled ∷ quiet ∷ started ∷ quiet ∷ asked ∷ [])
      between
unfolding error_of
between-Steps =
    later
      (later (later in_task-Steps (moves (ends new_args none refl)))
        (moves (has_no_handler new_args success refl refl)))
      (moves (frees refl))

-- The thread runs, and the information names no thread.
no_thread_id : (get_task_information between.base).thread_id ≡ none
unfolding get_task_information
no_thread_id = refl

result_of_task :
    result_as 3 (
      completed_args
        (set_result (some (record { type_id = 3; value = 8 })) (set_cancel true new_args))
        success)
    ≡ some 8
unfolding result_as completed_args set_result set_cancel new_args any_cast ℕ_discrete
result_of_task = refl

runs_counted_example :
    let ls = quiet ∷ unhandled ∷ quiet ∷ started ∷ quiet ∷ asked ∷ [] in
    (count is_start ls ≡ count is_end ls + in_run between.phase)
    × (count is_start ls ≤ count is_request ls)
runs_counted_example =
    runs_counted (text "w") 7 (quiet ∷ unhandled ∷ quiet ∷ started ∷ quiet ∷ asked ∷ []) between
      between-Steps

-- Destroyed while in its task, which then returns.
abbrev after_task : BackGroundWorker
after_task = at (begin_destruction in_task) (completing new_args success)

after_task-Steps : Steps (begin_destruction in_task) (quiet ∷ []) after_task
unfolding error_of begin_destruction
after_task-Steps = later here (moves (ends new_args none refl))

destruction_ends_example :
    (count_moves after_task-Steps ≤ 8)
    × ((after_task.phase ≡ gone)
        ⊎ ((after_task.phase ≡ terminated)
            ⊎ ((l : Label) × (u : BackGroundWorker) × Move after_task l u)))
destruction_ends_example =
    destruction_ends (text "w") 7 (started ∷ quiet ∷ asked ∷ []) in_task (quiet ∷ []) after_task
      in_task-Steps after_task-Steps

-- The thread has moved up to the decision that begins the run.
abbrev about_to_begin : BackGroundWorker
about_to_begin = record between {
  running = true;
  cancellation_pending = false;
  progress = 0;
  phase = deciding;
}

about_to_begin-Alone :
    Alone (cancel_async (run_task_async between)) (quiet ∷ quiet ∷ quiet ∷ []) about_to_begin
unfolding run_task_async cancel_async awake
about_to_begin-Alone =
    then_moves (then_moves (then_moves unmoved (uncancels refl)) (finishes refl))
      (goes_on refl refl)

cancellation_lost_example :
    (3 < 4)
    × ((l : Label) × (u : BackGroundWorker) × Move about_to_begin l u)
    × ((l : Label) (u : BackGroundWorker)
        → Move about_to_begin l u
        → is_start l ≡ 1
        → (u.phase ≡ working) × (u.cancellation_pending ≡ false))
cancellation_lost_example =
    cancellation_lost between refl refl (quiet ∷ quiet ∷ quiet ∷ []) about_to_begin
      about_to_begin-Alone refl

-- Asked again once the running flag is cleared: the thread makes one move.
abbrev asked_again : BackGroundWorker
asked_again = record (run_task_async between) { phase = finishing; cancellation_pending = false }

asked_again-Steps : Steps (run_task_async between) (quiet ∷ []) asked_again
unfolding run_task_async
asked_again-Steps = later here (moves (uncancels refl))

request_served_example :
    (0 < 0)
    ⊎ ((count_moves asked_again-Steps < 4)
        × ((l : Label) × (u : BackGroundWorker) × Move asked_again l u))
unfolding is_busy run_task_async
request_served_example =
    request_served (text "w") 7 (quiet ∷ unhandled ∷ quiet ∷ started ∷ quiet ∷ asked ∷ []) between
      (quiet ∷ []) asked_again between-Steps refl asked_again-Steps refl
