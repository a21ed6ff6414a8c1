-- ===== src/Task/BackGroundWorker.antt =====
-- include/Task/BackGroundWorker.hpp and lib/Task/BackGroundWorker.cpp: a thread that runs its task
-- each time that it is asked to. The task and the handlers are code of the user.
pub mod System
pub mod Invariant
pub mod Runs
pub mod Stopping
pub mod Serving
pub mod Losing
use cpp_framework.Prelude.{ℕ, Bool, true, false, Option, none, some, Text, ◌||◌, ◌%◌, ◌^◌}
use cpp_framework.Error.{Code, Any, any_cast, Exception, get_code}
use cpp_framework.Task.TaskBase.{TaskBase, new_task_base, back_ground}

-- What the task leaves for the completion handler.
pub record DoTaskEventArgs : Type 0 where
  pub cancel : Bool
  pub result : Any

unfoldable pub new_args : DoTaskEventArgs
new_args = record { cancel = false; result = none }

unfoldable pub set_cancel : Bool → DoTaskEventArgs → DoTaskEventArgs
set_cancel cancel args = record args { cancel = cancel }

unfoldable pub set_result : Any → DoTaskEventArgs → DoTaskEventArgs
set_result result args = record args { result = result }

pub record TaskCompletedEventArgs : Type 0 where
  pub cancelled : Bool
  pub result : Any
  pub error : Code

-- `result<T>()` for the type with this identity; `none` is a `std::bad_any_cast`.
unfoldable pub result_as : ℕ → TaskCompletedEventArgs → Option ℕ
result_as t args = any_cast t args.result

-- The arguments that `on_task_completed` builds.
unfoldable pub completed_args : DoTaskEventArgs → Code → TaskCompletedEventArgs
completed_args args error = record { cancelled = args.cancel; result = args.result; error = error }

-- Where the thread stands: about to evaluate the predicate of the wait in `sleep`, asleep in it,
-- back from it, in the task, behind the task, in the completion handler, about to clear the
-- cancellation or the running flag (with a handler, and in the other order without one), about to
-- reset the progress, gone, or in a std::terminate that ends the program.
pub data Phase : Type 0 where
  testing asleep deciding working : Phase
  completing : DoTaskEventArgs → Code → Phase
  in_handler clearing releasing : Phase
  freeing uncancelling finishing gone terminated : Phase

-- `thread` is the worker's own `thread_`, which hides the one of the base class. `has_handler` is
-- whether `task_completed_` holds a function.
pub record BackGroundWorker : Type 0 where
  pub base : TaskBase
  pub thread : Option ℕ
  pub phase : Phase
  pub running : Bool
  pub stop : Bool
  pub cancellation_pending : Bool
  pub progress : ℕ
  pub has_handler : Bool

-- The constructor, which starts a thread with this identity.
unfoldable pub new_worker : Text → ℕ → BackGroundWorker
unfolding new_task_base
new_worker name id = record {
  base = new_task_base back_ground name;
  thread = some id;
  phase = testing;
  running = false;
  stop = false;
  cancellation_pending = false;
  progress = 0;
  has_handler = false;
}

-- `notify_all`, for the one thread that can wait.
abbrev pub wake : Phase → Phase
wake testing = testing
wake asleep = testing
wake deciding = deciding
wake working = working
wake (completing args error) = completing args error
wake in_handler = in_handler
wake clearing = clearing
wake releasing = releasing
wake freeing = freeing
wake uncancelling = uncancelling
wake finishing = finishing
wake gone = gone
wake terminated = terminated

-- The destructor up to its join.
unfoldable pub begin_destruction : BackGroundWorker → BackGroundWorker
begin_destruction w = record w { stop = true; phase = wake w.phase }

unfoldable pub run_task_async : BackGroundWorker → BackGroundWorker
run_task_async w = record w { running = true; phase = wake w.phase }

unfoldable pub cancel_async : BackGroundWorker → BackGroundWorker
cancel_async w = record w { cancellation_pending = true }

unfoldable pub is_busy : BackGroundWorker → Bool
is_busy w = w.running

-- A `Progress` is a `uint8_t`, to which a caller's number is converted.
pub record ProgressChangedEventArgs : Type 0 where
  pub progress : ℕ

unfoldable pub progress_percent : ProgressChangedEventArgs → ℕ
progress_percent args = args.progress

-- `reports_progress`: the arguments that the progress handler is called with, if there is one.
unfoldable pub reports_progress : Bool → ℕ → Option ProgressChangedEventArgs
reports_progress false percent = none
reports_progress true percent = some (record { progress = percent % 2 ^ 8 })

-- The predicate of the wait in `sleep`.
unfoldable pub awake : BackGroundWorker → Bool
awake w = w.running || w.stop

-- The error code of a task that ends, with the exception that it throws if it does.
unfoldable pub error_of : Option Exception → Code
unfolding get_code
error_of none = Code.success
error_of (some e) = get_code e
