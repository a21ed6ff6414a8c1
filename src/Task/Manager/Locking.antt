-- ===== src/Task/Manager/Locking.antt =====
-- include/Task/EventTaskManager.hpp, the lock: rpc_event keeps its shared lock while it waits for
-- the reply, and register_task and unregister_task take the lock alone. The clients of a manager,
-- one of them the thread of a task with a handler that registers or unregisters a task.
use cpp_framework.Prelude.{ℕ, suc, ◌+◌, ◌<◌, ◌≡◌, ◌≢◌, refl, ◌⊎◌, inr, arith}

-- A call of rpc_event: before its lock, waiting for the reply under it, or over.
pub data Caller : Type 0 where
  calling awaiting returned : Caller

-- The thread of the task that the call is for: before the handler of the request, in the handler
-- before and under the lock of register_task or unregister_task, or behind the reply.
pub data Serving : Type 0 where
  idle locking changing replied : Serving

-- `readers` and `writers` are the other clients that hold the lock, shared or alone.
pub record Shared : Type 0 where
  pub caller : Caller
  pub serving : Serving
  pub readers : ℕ
  pub writers : ℕ

abbrev is_awaiting : Caller → ℕ
is_awaiting calling = 0
is_awaiting awaiting = 1
is_awaiting returned = 0

abbrev is_changing : Serving → ℕ
is_changing idle = 0
is_changing locking = 0
is_changing changing = 1
is_changing replied = 0

-- All that hold the shared lock, and all that hold it alone.
unfoldable pub sharing : Shared → ℕ
sharing s = is_awaiting s.caller + s.readers

unfoldable pub alone : Shared → ℕ
alone s = is_changing s.serving + s.writers

pub data Step (s : Shared) : Shared → Type 0 where
  -- The call and the handler that answers it.
  calls : s.caller ≡ calling → alone s ≡ 0 → Step s (record s { caller = awaiting })
  serves : s.caller ≡ awaiting → s.serving ≡ idle → Step s (record s { serving = locking })
  locks :
      s.serving ≡ locking → sharing s ≡ 0 → alone s ≡ 0 → Step s (record s { serving = changing })
  unlocks : s.serving ≡ changing → Step s (record s { serving = replied })
  returns : s.caller ≡ awaiting → s.serving ≡ replied → Step s (record s { caller = returned })
  -- The other clients.
  reads : alone s ≡ 0 → Step s (record s { readers = suc s.readers })
  reads_no_more : (n : ℕ) → s.readers ≡ suc n → Step s (record s { readers = n })
  writes : sharing s ≡ 0 → alone s ≡ 0 → Step s (record s { writers = 1 })
  writes_no_more : s.writers ≡ 1 → Step s (record s { writers = 0 })

pub data Steps (s : Shared) : Shared → Type 0 where
  here : Steps s s
  later : {t u : Shared} → Steps s t → Step t u → Steps s u

-- The caller waits under its lock for a handler that has not got the lock.
abbrev IsStuck : Shared → Type 0
IsStuck s = (s.caller ≡ awaiting) × ((s.serving ≡ idle) ⊎ (s.serving ≡ locking))

Step-IsStuck : {s t : Shared} → Step s t → IsStuck s → IsStuck t
unfolding sharing
Step-IsStuck (calls e f) k = ground (arith, e, k)
Step-IsStuck (serves e f) k = (k.0, inr refl)
Step-IsStuck (locks e f g) k = ground (arith, e, f, k)
Step-IsStuck (unlocks e) k = ground (arith, e, k)
Step-IsStuck (returns e f) k = ground (arith, e, f, k)
Step-IsStuck (reads f) k = k
Step-IsStuck (reads_no_more n e) k = k
Step-IsStuck (writes f g) k = k
Step-IsStuck (writes_no_more e) k = k

Steps-IsStuck : {s t : Shared} → Steps s t → IsStuck s → IsStuck t
Steps-IsStuck here k = k
Steps-IsStuck (later run step) k = Step-IsStuck step (Steps-IsStuck run k)

-- A call of rpc_event without a timeout that has its lock, for a task with a handler that registers
-- or unregisters a task of the manager and has not got the lock yet, never returns, whatever the
-- other clients do: the handler never gets its lock, and no other client gets to register.
pub registering_handler_hangs :
    {s t : Shared}
    → s.caller ≡ awaiting
    → (s.serving ≡ idle) ⊎ (s.serving ≡ locking)
    → Steps s t
    → (t.caller ≡ awaiting) × (t.serving ≢ changing) × (0 < sharing t)
unfolding sharing
registering_handler_hangs e f run =
    let k = Steps-IsStuck run (e, f) in (k.0, ground (arith, k), rw k.0 (omega arith))
