-- ===== src/Task/Pool.antt =====
-- include/Task/TaskPool.hpp and lib/Task/TaskPool.cpp: worker threads over one deque of tasks.
pub mod Weights
pub mod System
pub mod Order
pub mod Invariant
pub mod Wakeup
pub mod Finish
pub mod Delivery
pub mod Live
pub mod Quiet
use cpp_framework.Prelude.{
  ℕ, zero, suc, Bool, true, false, Option, none, some, List, [], ◌∷◌, ◌++◌, length, replicate, ◌||◌,
  ◌&&◌, not, if◌then◌else◌,
}

-- A task is a `std::function`, which is empty (`none`) or stands for some call: the pool only moves
-- tasks, tests whether they are empty, and calls them.
abbrev pub Task : Type 0
Task = Option ℕ

-- Where a worker stands in its loop: about to lock the mutex, holding it with the predicate of the
-- wait found false, asleep in the condition variable, back with what `wait_for_new_task` returned,
-- running a task, or gone.
pub data Worker : Type 0 where
  entering : Worker
  unready : Worker
  asleep : Worker
  deciding : Task → Worker
  running : ℕ → Worker
  exited : Worker

-- `locked` is whether a worker holds the mutex between the test of its predicate and its sleep; the
-- other critical sections are one step each.
pub record Pool : Type 0 where
  pub tasks : List Task
  pub workers : List Worker
  pub locked : Bool
  pub stop : Bool
  pub running_tasks : ℕ
  -- calls of `stop` between their store and their notification
  pub notifying : ℕ
  pub concurrency : ℕ
  -- whether a task has thrown: the exception leaves its thread, and std::terminate ends the program
  pub terminated : Bool

abbrev pub list_empty : List Task → Bool
list_empty [] = true
list_empty (t ∷ ts) = false

-- The constructor, with `spawn_workers`: one worker for each unit of concurrency.
unfoldable pub new_pool : ℕ → Pool
new_pool concurrency = record {
  tasks = [];
  workers = replicate concurrency entering;
  locked = false;
  stop = false;
  running_tasks = 0;
  notifying = 0;
  concurrency = concurrency;
  terminated = false;
}

-- `enqueue`, but for its notification.
unfoldable pub enqueue : Task → Pool → Pool
enqueue task p = record p { tasks = p.tasks ++ task ∷ [] }

unfoldable pub clear_waiting_tasks : Pool → Pool
clear_waiting_tasks p = record p { tasks = [] }

unfoldable pub count_waiting_tasks : Pool → ℕ
count_waiting_tasks p = length p.tasks

unfoldable pub count_running_tasks : Pool → ℕ
count_running_tasks p = p.running_tasks

unfoldable pub concurrency : Pool → ℕ
concurrency p = p.concurrency

unfoldable pub is_empty : Pool → Bool
is_empty p = list_empty p.tasks

-- The predicate of the wait in `wait_for_new_task`.
unfoldable pub ready : Pool → Bool
ready p = not (list_empty p.tasks) || p.stop

take_front : List Task → Task × List Task
take_front [] = (none, [])
take_front (t ∷ ts) = (t, ts)

-- `wait_for_new_task` behind its wait: the front of the deque, or the empty function.
unfoldable pub take_task : Pool → Task × Pool
unfolding take_front
take_task p = let (task, rest) = take_front p.tasks in (task, record p { tasks = rest })

-- `notify_all`: every sleeper goes back to take the mutex.
abbrev pub wake : Worker → Worker
wake asleep = entering
wake entering = entering
wake unready = unready
wake (deciding t) = deciding t
wake (running t) = running t
wake exited = exited

unfoldable pub all_exited : List Worker → Bool
all_exited [] = true
all_exited (exited ∷ ws) = all_exited ws
all_exited (entering ∷ ws) = false
all_exited (unready ∷ ws) = false
all_exited (asleep ∷ ws) = false
all_exited (deciding t ∷ ws) = false
all_exited (running t ∷ ws) = false

-- The joins of `stop` and what is behind them; `none` is a join that still waits.
unfoldable pub join_workers : Pool → Option Pool
unfolding all_exited
join_workers p = if all_exited p.workers then some (record p { workers = [] }) else none
