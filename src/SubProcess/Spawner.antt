-- ===== src/SubProcess/Spawner.antt =====
-- include/SubProcess/ProcessSpawner.hpp: a function run in a child process.
use cpp_framework.Prelude.{ℕ, ◌%◌, Option, none, some}
use cpp_framework.Error.Outcome.{M, Outcome, returned, thrown, Fault}
use cpp_framework.SubProcess.Process.{ForkAnswer, no_fork, in_child, in_parent}

-- What the call comes to: a return to the caller with the child's identity, or with -1 (`none`); in
-- the child an end with a status, or an exception that unwinds the caller there.
pub data Spawned : Type 0 where
  goes_on : Option ℕ → Spawned
  exits_with : ℕ → Spawned
  unwinds : Fault → Spawned

-- The child's branch: `_exit` keeps the lowest eight bits.
unfoldable pub exit_with : {W : Type 0} → Outcome W ℕ → Spawned × W
exit_with (returned ret w) = (exits_with (ret % 256), w)
exit_with (thrown f w) = (unwinds f, w)

unfoldable pub spawn : {T W : Type 0} → (T → M W ℕ) → T → ForkAnswer → W → Spawned × W
unfolding exit_with
spawn function argument (no_fork errno) w = (goes_on none, w)
spawn function argument (in_parent pid) w = (goes_on (some pid), w)
spawn function argument in_child w = exit_with (function argument w)
