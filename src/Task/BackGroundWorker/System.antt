-- ===== src/Task/BackGroundWorker/System.antt =====
-- The worker's thread and its clients, interleaved. Each atomic store of the thread is a move of
-- its own; the test of the predicate and the move to sleep are one, under the mutex.
use cpp_framework.Prelude.{◌≡◌, Bool, true, false, Option, List, [], ◌∷◌}
use cpp_framework.Error.{Code, Exception}
use cpp_framework.Task.BackGroundWorker.{
  BackGroundWorker, Phase, testing, asleep, deciding, working, completing, in_handler, clearing,
  releasing, freeing, uncancelling, finishing, gone, terminated, DoTaskEventArgs,
  TaskCompletedEventArgs, completed_args, run_task_async, cancel_async, begin_destruction, awake,
  error_of,
}

-- What a step does: nothing of interest, a request, the start of the task, its end with a call of
-- the handler or without one, or its end by an exception that is not caught.
pub data Label : Type 0 where
  quiet asked started unhandled died : Label
  completed : TaskCompletedEventArgs → Label

abbrev pub at : BackGroundWorker → Phase → BackGroundWorker
at w x = record w { phase = x }

-- The moves of the thread: `sleep`, `on_do_task` and `on_task_completed` in a loop.
pub data Move (w : BackGroundWorker) : Label → BackGroundWorker → Type 0 where
  goes_on : w.phase ≡ testing → awake w ≡ true → Move w quiet (at w deciding)
  falls_asleep : w.phase ≡ testing → awake w ≡ false → Move w quiet (at w asleep)
  leaves : w.phase ≡ deciding → w.stop ≡ true → Move w quiet (at w gone)
  starts : w.phase ≡ deciding → w.stop ≡ false → Move w started (at w working)
  -- The task returns, or throws a `Framework::Exception`, having filled its arguments.
  ends :
      (args : DoTaskEventArgs) (e : Option Exception)
      → w.phase ≡ working
      → Move w quiet (at w (completing args (error_of e)))
  dies : w.phase ≡ working → Move w died (at w terminated)
  calls_handler :
      (args : DoTaskEventArgs) (error : Code)
      → w.phase ≡ completing args error
      → w.has_handler ≡ true
      → Move w (completed (completed_args args error)) (at w in_handler)
  has_no_handler :
      (args : DoTaskEventArgs) (error : Code)
      → w.phase ≡ completing args error
      → w.has_handler ≡ false
      → Move w unhandled (at w freeing)
  handler_returns : w.phase ≡ in_handler → Move w quiet (at w clearing)
  handler_throws : w.phase ≡ in_handler → Move w quiet (at w terminated)
  clears :
      w.phase ≡ clearing
      → Move w quiet (record w { phase = releasing; cancellation_pending = false })
  releases : w.phase ≡ releasing → Move w quiet (record w { phase = finishing; running = false })
  frees : w.phase ≡ freeing → Move w quiet (record w { phase = uncancelling; running = false })
  uncancels :
      w.phase ≡ uncancelling
      → Move w quiet (record w { phase = finishing; cancellation_pending = false })
  finishes : w.phase ≡ finishing → Move w quiet (record w { phase = testing; progress = 0 })

-- The calls of clients, of the task and of the handler, and spurious wake-ups.
pub data Call (w : BackGroundWorker) : Label → BackGroundWorker → Type 0 where
  requests : Call w asked (run_task_async w)
  cancels : Call w quiet (cancel_async w)
  destroys : Call w quiet (begin_destruction w)
  sets_handler : (b : Bool) → Call w quiet (record w { has_handler = b })
  wakes_spuriously : w.phase ≡ asleep → Call w quiet (at w testing)

pub data Step (w : BackGroundWorker) : Label → BackGroundWorker → Type 0 where
  moves : {l : Label} {v : BackGroundWorker} → Move w l v → Step w l v
  calls : {l : Label} {v : BackGroundWorker} → Call w l v → Step w l v

pub data Steps (w : BackGroundWorker) : List Label → BackGroundWorker → Type 0 where
  here : Steps w [] w
  later :
      {ls : List Label} {l : Label} {u v : BackGroundWorker}
      → Steps w ls u
      → Step u l v
      → Steps w (l ∷ ls) v
