-- ===== src/Task/Pool/System.antt =====
-- The workers and the clients of a pool, interleaved. A step of worker `i` starts from what that
-- worker is at; each critical section of the mutex is one step, except that a worker may be
-- interrupted between its test and its sleep, when it holds the mutex (`locked`). A task that
-- is run returns, or it throws and ends the program.
use cpp_framework.Prelude.{
  ℕ, suc, ◌+◌, ◌-◌, ◌≡◌, true, false, none, some, List, [], ◌∷◌, ◌++◌, map, get_elem?, set,
}
use cpp_framework.Task.Pool.{
  Pool, Task, Worker, entering, unready, asleep, deciding, running, exited, ready, take_task,
  enqueue, clear_waiting_tasks, wake,
}

-- What a step does to the tasks.
pub data Label : Type 0 where
  quiet : Label
  added taken : Task → Label
  ended : ℕ → Label
  dropped : List Task → Label

-- What is taken from a deque with these tasks.
abbrev pub took : List Task → Label
took [] = quiet
took (t ∷ ts) = taken t

abbrev pub put : Pool → ℕ → Worker → Pool
put p i w = record p { workers = set p.workers i w }

abbrev pub wake_all : Pool → Pool
wake_all p = record p { workers = map wake p.workers }

pub data Step (p : Pool) : Label → Pool → Type 0 where
  -- The client's calls. `enqueue` notifies while it holds the mutex; `stop` never takes it.
  enqueues : (t : Task) → p.locked ≡ false → Step p (added t) (wake_all (enqueue t p))
  clears : p.locked ≡ false → Step p (dropped p.tasks) (clear_waiting_tasks p)
  stops : Step p quiet (record p { stop = true; notifying = suc p.notifying })
  notifies : (k : ℕ) → p.notifying ≡ suc k → Step p quiet (record (wake_all p) { notifying = k })
  -- `wait_for_new_task`.
  takes :
      (i : ℕ)
      → get_elem? p.workers i ≡ some entering
      → p.locked ≡ false
      → ready p ≡ true
      → Step p (took p.tasks) (put (take_task p).1 i (deciding (take_task p).0))
  finds_nothing :
      (i : ℕ)
      → get_elem? p.workers i ≡ some entering
      → p.locked ≡ false
      → ready p ≡ false
      → Step p quiet (record (put p i unready) { locked = true })
  sleeps :
      (i : ℕ)
      → get_elem? p.workers i ≡ some unready
      → Step p quiet (record (put p i asleep) { locked = false })
  wakes_spuriously : (i : ℕ) → get_elem? p.workers i ≡ some asleep → Step p quiet (put p i entering)
  -- The rest of the worker's loop: with the empty function, also one that was enqueued, it goes if
  -- the pool is stopped, and else begins again.
  exits :
      (i : ℕ)
      → get_elem? p.workers i ≡ some (deciding none)
      → p.stop ≡ true
      → Step p quiet (put p i exited)
  retries :
      (i : ℕ)
      → get_elem? p.workers i ≡ some (deciding none)
      → p.stop ≡ false
      → Step p quiet (put p i entering)
  begins :
      (i t : ℕ)
      → get_elem? p.workers i ≡ some (deciding (some t))
      → Step p quiet (record (put p i (running t)) { running_tasks = p.running_tasks + 1 })
  ends :
      (i t : ℕ)
      → get_elem? p.workers i ≡ some (running t)
      → Step p (ended t) (record (put p i entering) { running_tasks = p.running_tasks - 1 })
  throws :
      (i t : ℕ)
      → get_elem? p.workers i ≡ some (running t)
      → Step p quiet (record p { terminated = true })

-- A run goes on as long as the program does.
pub data Steps (p : Pool) : List Label → Pool → Type 0 where
  here : Steps p [] p
  later :
      {ls : List Label} {l : Label} {q r : Pool}
      → Steps p ls q
      → q.terminated ≡ false
      → Step q l r
      → Steps p (ls ++ l ∷ []) r
