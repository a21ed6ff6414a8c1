-- ===== src/Task/Interface.antt =====
-- include/Task/interface/IEventTask.hpp: what a client calls on a task, over a world `W` in which
-- the tasks run. The two overloads of each call take the same request.
use cpp_framework.Prelude.{ℕ, Bool}
use cpp_framework.Error.Outcome.{M}
use cpp_framework.Task.Request.{Request}

pub record IEventTask (C W : Type 0) : Type 0 where
  pub start : M W (Unit {0})
  pub stop : M W (Unit {0})
  pub send_event : Request C → M W (Unit {0})
  pub rpc_event : Request C → ℕ → M W Bool
