-- ===== src/Task/BackGroundWorker/Invariant.antt =====
-- What holds of a worker in every reachable state.
use cpp_framework.Prelude.{◌≡◌, Bool, true, false, List, ◌||◌, arith, ℕ, Text, sym}
use cpp_framework.Task.BackGroundWorker.{
  BackGroundWorker, Phase, testing, asleep, deciding, working, completing, in_handler, clearing,
  releasing, freeing, uncancelling, finishing, gone, terminated, run_task_async, cancel_async,
  begin_destruction, awake, new_worker, is_busy, wake,
}
use cpp_framework.Task.BackGroundWorker.System.{
  Label, Move, Call, Step, Steps, here, later, moves, calls, goes_on, falls_asleep, leaves, starts,
  ends, dies, calls_handler, has_no_handler, handler_returns, handler_throws, clears, releases,
  frees, uncancels, finishes, requests, cancels, destroys, sets_handler, wakes_spuriously,
}

-- A sleeper has nothing to do; a run is running until it is over; a thread only goes when stopped.
abbrev pub IsSoundAt : Phase → Bool → Bool → Type 0
IsSoundAt testing running stop = Unit
IsSoundAt asleep running stop = (running ≡ false) × (stop ≡ false)
IsSoundAt deciding running stop = (running || stop) ≡ true
IsSoundAt working running stop = running ≡ true
IsSoundAt (completing args error) running stop = running ≡ true
IsSoundAt in_handler running stop = running ≡ true
IsSoundAt clearing running stop = running ≡ true
IsSoundAt releasing running stop = running ≡ true
IsSoundAt freeing running stop = running ≡ true
IsSoundAt uncancelling running stop = Unit
IsSoundAt finishing running stop = Unit
IsSoundAt gone running stop = stop ≡ true
IsSoundAt terminated running stop = running ≡ true

abbrev pub IsSound : BackGroundWorker → Type 0
IsSound w = IsSoundAt w.phase w.running w.stop

Move-IsSound : {l : Label} {w v : BackGroundWorker} → Move w l v → IsSound w → IsSound v
unfolding awake
Move-IsSound (goes_on p a) s = ground (arith, s, p, a)
Move-IsSound (falls_asleep p a) s = ground (arith, s, p, a)
Move-IsSound (leaves p a) s = ground (arith, s, p, a)
Move-IsSound (starts p a) s = ground (arith, s, p, a)
Move-IsSound (ends args e p) s = ground (arith, s, p)
Move-IsSound (dies p) s = ground (arith, s, p)
Move-IsSound (calls_handler args error p h) s = ground (arith, s, p)
Move-IsSound (has_no_handler args error p h) s = ground (arith, s, p)
Move-IsSound (handler_returns p) s = ground (arith, s, p)
Move-IsSound (handler_throws p) s = ground (arith, s, p)
Move-IsSound (clears p) s = ground (arith, s, p)
Move-IsSound (releases p) s = tt
Move-IsSound (frees p) s = tt
Move-IsSound (uncancels p) s = tt
Move-IsSound (finishes p) s = tt

Call-IsSound : {l : Label} {w v : BackGroundWorker} → Call w l v → IsSound w → IsSound v
unfolding run_task_async cancel_async begin_destruction
Call-IsSound {w = w} requests s = ground (arith, s)
Call-IsSound {w = w} cancels s = s
Call-IsSound {w = w} destroys s = ground (arith, s)
Call-IsSound (sets_handler b) s = s
Call-IsSound (wakes_spuriously p) s = tt

Step-IsSound : {l : Label} {w v : BackGroundWorker} → Step w l v → IsSound w → IsSound v
Step-IsSound (moves m) s = Move-IsSound m s
Step-IsSound (calls c) s = Call-IsSound c s

pub Steps-IsSound :
    {w : BackGroundWorker} {ls : List Label} {v : BackGroundWorker}
    → Steps w ls v
    → IsSound w
    → IsSound v
Steps-IsSound here s = s
Steps-IsSound (later r step) s = Step-IsSound step (Steps-IsSound r s)

pub new_worker-IsSound : (name : Text) (id : ℕ) → IsSound (new_worker name id)
unfolding new_worker
new_worker-IsSound name id = tt

wake-busy : (x : Phase) (r s : Bool) → IsSoundAt x r s → r ≡ true → wake x ≡ x
wake-busy x r s h e = ground (arith, h, e)

-- In every state that a worker can reach, run_task_async on a busy worker changes nothing at all:
-- no second run is owed for it, though the task is still running.
pub busy_request_ignored :
    (name : Text) (id : ℕ) (ls : List Label) (w : BackGroundWorker)
    → Steps (new_worker name id) ls w
    → is_busy w ≡ true
    → run_task_async w ≡ w
unfolding is_busy run_task_async
busy_request_ignored name id ls w r h =
    let sound = Steps-IsSound r (new_worker-IsSound name id) in
    let same = wake-busy w.phase w.running w.stop sound h in
    let running : true ≡ w.running = sym h in λ i. record w { running = running i; phase = same i }
