-- ===== src/Task/Manager.antt =====
-- include/Task/EventTaskManager.hpp: tasks registered under names, and requests routed to them.
-- Each method is one step under the shared mutex.
pub mod Registry
pub mod Abstract
pub mod Locking
use cpp_framework.Prelude.{
  ℕ, Bool, true, false, Option, none, some, List, [], ◌∷◌, ◌++◌, Text, text, is_some,
}
use cpp_framework.Prelude.Map.{text_key, find, insert_or_assign, erase, keys}
use cpp_framework.Error.{Exception, invalid_argument, new_exception}
use cpp_framework.Error.Outcome.{M, Outcome, returned, thrown, framework, pure, ◌>>=◌}
use cpp_framework.Task.Request.{Request, copy}
use cpp_framework.Task.Interface.{IEventTask}

pub record EventTaskManager (C W : Type 0) : Type 0 where
  pub tasks : List (Text × IEventTask C W)

abbrev pub null_task : Exception
null_task = new_exception (text "register_task: task must not be null") invalid_argument

abbrev pub task_not_found : Text → Exception
task_not_found name =
    new_exception (text "EventTaskManager: task not found: " ++ name) invalid_argument

module _ {C W : Type 0} where
  unfoldable pub new_manager : EventTaskManager C W
  new_manager = record { tasks = [] }

  -- The destructor gives up its references to the tasks.
  unfoldable pub destroy : EventTaskManager C W → EventTaskManager C W
  destroy m = record m { tasks = [] }

  -- A `shared_ptr` is `none` if it is null.
  unfoldable pub register_task :
      Text → Option (IEventTask C W) → M (EventTaskManager C W) (Unit {0})
  register_task name none m = thrown (framework null_task) m
  register_task name (some task) m =
      returned tt (record m { tasks = insert_or_assign name task m.tasks })

  unfoldable pub unregister_task : Text → EventTaskManager C W → EventTaskManager C W
  unregister_task name m = record m { tasks = erase name m.tasks }

  unfoldable pub has_task : EventTaskManager C W → Text → Bool
  has_task m name = is_some (find name m.tasks)

  unfoldable pub task_names : EventTaskManager C W → List Text
  task_names m = keys m.tasks

  -- The task that was found, or the exception, in a world that it leaves as it is.
  unfoldable pub find_or_throw : EventTaskManager C W → Text → M W (IEventTask C W)
  find_or_throw m name w = elim (find name m.tasks) [
    | none ↦ thrown (framework (task_not_found name)) w
    | some task ↦ returned task w
  ]

  unfoldable pub get_task : EventTaskManager C W → Text → M W (IEventTask C W)
  unfolding find_or_throw
  get_task m name = find_or_throw m name

  unfoldable pub send_event : EventTaskManager C W → Text → Request C → M W (Unit {0})
  unfolding find_or_throw
  send_event m name request = do task ← find_or_throw m name; task.send_event request

  unfoldable pub rpc_event : EventTaskManager C W → Text → Request C → ℕ → M W Bool
  unfolding find_or_throw
  rpc_event m name request timeout = do task ← find_or_throw m name; task.rpc_event request timeout
