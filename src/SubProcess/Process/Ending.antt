-- ===== src/SubProcess/Process/Ending.antt =====
-- How a child ends by its handle: the rounds of `kill`, and handles that were moved.
use cpp_framework.Prelude.{
  ℕ, zero, suc, ◌+◌, ◌*◌, ◌≤◌, ◌≡◌, refl, Bool, true, false, Option, some, List, [], arith,
  if◌then◌else◌, ltb,
}
use cpp_framework.SubProcess.StartInfo.{StartInfo}
use cpp_framework.SubProcess.Process.Handle.{
  Process, Watch, Call, wait_for_end, kill, destroy, move, assign_move, IsKilled, kill-IsKilled,
}

-- A round, whose test of the clock and of the child is given, ends if the rest does.
round_ends :
    (before reaped : Bool) (rest : Option Bool) (b : Bool)
    → rest ≡ some b
    → (c : Bool) × ((if before then (if reaped then some true else rest) else some false) ≡ some c)
round_ends true true rest b e = (true, refl)
round_ends true false rest b e = (b, e)
round_ends false reaped rest b e = (false, refl)

enough_rounds :
    (os : Watch)
    → ((k : ℕ) → os.now k + 10 ≤ os.now (suc k))
    → (fuel round : ℕ) → os.start + 500 ≤ os.now round + 10 * fuel
    → (b : Bool) × (wait_for_end (suc fuel) os round ≡ some b)
unfolding wait_for_end
enough_rounds os tick zero round h = (false, ground arith)
enough_rounds os tick (suc fuel) round h =
    let (b, e) = enough_rounds os tick fuel (suc round) (omega (arith, tick round)) in
    round_ends (ltb (os.now round) (os.start + 500)) (os.reaped round)
      (wait_for_end (suc fuel) os (suc round)) b e

-- If each sleep of the loop lasts its ten milliseconds, fifty-one rounds are enough for kill() on
-- a running child: it returns, having sent SIGTERM first and then nothing more or SIGKILL with a
-- wait for the child, and after it the destructor makes no call.
pub kill_ends :
    (info : StartInfo) (pid : ℕ) (os : Watch)
    → ((k : ℕ) → os.now k + 10 ≤ os.now (suc k))
    → os.start ≤ os.now 0
    → (r : Process × List Call) × (kill 51 os
          (record { start_info = info; id = some pid; has_exited = false })
        ≡ some r)
      × IsKilled pid r
kill_ends info pid os tick h =
    let (b, e) = enough_rounds os tick 50 0 (omega arith) in kill-IsKilled 51 pid os info b e

-- Of the two handles of a move only the target's destructor makes calls, and they are those that
-- the source's would have made; by move assignment, a child that the target had is no longer
-- killed or waited for.
pub moved_once :
    (p other : Process)
    → (destroy (move other).0 ≡ destroy other)
      × (destroy (move other).1 ≡ [])
      × (destroy (assign_move p other).0 ≡ destroy other)
      × (destroy (assign_move p other).1 ≡ [])
unfolding move assign_move destroy
moved_once p other = (refl, refl, refl, refl)
