-- ===== src/Task/BackGroundWorker/Runs.antt =====
-- How the runs of a worker's task answer to requests and to calls of the handler.
use cpp_framework.Prelude.{ℕ, ◌+◌, ◌≤◌, ◌≡◌, refl, Bool, List, [], ◌∷◌, arith, Text, if◌then◌else◌}
use cpp_framework.Task.BackGroundWorker.{
  BackGroundWorker, Phase, testing, asleep, deciding, working, completing, in_handler, clearing,
  releasing, freeing, uncancelling, finishing, gone, terminated, run_task_async, cancel_async,
  begin_destruction, awake, new_worker,
}
use cpp_framework.Task.BackGroundWorker.System.{
  Label, quiet, asked, started, unhandled, died, completed, Move, Step, Steps, here, later, moves,
  calls, goes_on, falls_asleep, leaves, starts, ends, dies, calls_handler, has_no_handler,
  handler_returns, handler_throws, clears, releases, frees, uncancels, finishes, requests, cancels,
  destroys, sets_handler, wakes_spuriously,
}
use cpp_framework.Task.BackGroundWorker.Invariant.{IsSound, Steps-IsSound, new_worker-IsSound}

-- What a step counts as: a run begun, a run over, a request.
abbrev pub is_start : Label → ℕ
is_start quiet = 0
is_start asked = 0
is_start started = 1
is_start unhandled = 0
is_start died = 0
is_start (completed args) = 0

abbrev pub is_end : Label → ℕ
is_end quiet = 0
is_end asked = 0
is_end started = 0
is_end unhandled = 1
is_end died = 1
is_end (completed args) = 1

abbrev pub is_request : Label → ℕ
is_request quiet = 0
is_request asked = 1
is_request started = 0
is_request unhandled = 0
is_request died = 0
is_request (completed args) = 0

abbrev pub count : (Label → ℕ) → List Label → ℕ
count f [] = 0
count f (l ∷ ls) = f l + count f ls

-- Whether a run has begun whose end has not been told to anybody.
abbrev pub in_run : Phase → ℕ
in_run testing = 0
in_run asleep = 0
in_run deciding = 0
in_run working = 1
in_run (completing args error) = 1
in_run in_handler = 0
in_run clearing = 0
in_run releasing = 0
in_run freeing = 0
in_run uncancelling = 0
in_run finishing = 0
in_run gone = 0
in_run terminated = 0

-- Whether the running flag stands for a run that has not begun.
abbrev pub owed : Phase → Bool → ℕ
owed testing running = if running then 1 else 0
owed asleep running = if running then 1 else 0
owed deciding running = if running then 1 else 0
owed working running = 0
owed (completing args error) running = 0
owed in_handler running = 0
owed clearing running = 0
owed releasing running = 0
owed freeing running = 0
owed uncancelling running = if running then 1 else 0
owed finishing running = if running then 1 else 0
owed gone running = if running then 1 else 0
owed terminated running = 0

-- The two balances of a step.
abbrev Balances : Label → BackGroundWorker → BackGroundWorker → Type 0
Balances l w v =
    (is_start l + in_run w.phase ≡ is_end l + in_run v.phase)
    × (is_start l + owed v.phase v.running ≤ is_request l + owed w.phase w.running)

Move-Balances : {l : Label} {w v : BackGroundWorker} → Move w l v → IsSound w → Balances l w v
unfolding awake
Move-Balances (goes_on p a) s = ground (arith, s, p, a)
Move-Balances (falls_asleep p a) s = ground (arith, s, p, a)
Move-Balances (leaves p a) s = ground (arith, s, p, a)
Move-Balances (starts p a) s = ground (arith, s, p, a)
Move-Balances (ends args e p) s = ground (arith, s, p)
Move-Balances (dies p) s = ground (arith, s, p)
Move-Balances (calls_handler args error p h) s = ground (arith, s, p)
Move-Balances (has_no_handler args error p h) s = ground (arith, s, p)
Move-Balances (handler_returns p) s = ground (arith, s, p)
Move-Balances (handler_throws p) s = ground (arith, s, p)
Move-Balances (clears p) s = ground (arith, s, p)
Move-Balances (releases p) s = ground (arith, s, p)
Move-Balances (frees p) s = ground (arith, s, p)
Move-Balances (uncancels p) s = ground (arith, s, p)
Move-Balances (finishes p) s = ground (arith, s, p)

Step-Balances : {l : Label} {w v : BackGroundWorker} → Step w l v → IsSound w → Balances l w v
unfolding run_task_async cancel_async begin_destruction
Step-Balances (moves m) s = Move-Balances m s
Step-Balances {w = w} (calls requests) s = ground (arith, s)
Step-Balances {w = w} (calls cancels) s = ground (arith, s)
Step-Balances {w = w} (calls destroys) s = ground (arith, s)
Step-Balances {w = w} (calls (sets_handler b)) s = ground (arith, s)
Step-Balances {w = w} (calls (wakes_spuriously p)) s = ground (arith, s, p)

balance :
    {w : BackGroundWorker} {ls : List Label} {v : BackGroundWorker}
    → Steps w ls v
    → IsSound w
    → (count is_start ls + in_run w.phase ≡ count is_end ls + in_run v.phase)
      × (count is_start ls + owed v.phase v.running ≤ count is_request ls + owed w.phase w.running)
balance here s = (refl, omega arith)
balance (later r step) s =
    let (e, le) = balance r s in
    let (e', le') = Step-Balances step (Steps-IsSound r s) in
    (omega (arith, e, e'), omega (arith, le, le'))

-- Over any calls of clients and any progress of the thread, the runs of the task that have begun
-- are those that have ended, each with one call of the completion handler, with none where there is
-- no handler, or in a std::terminate, and one more if the thread is in a run; and there are at most
-- as many as there were requests.
pub runs_counted :
    (name : Text) (id : ℕ) (ls : List Label) (w : BackGroundWorker)
    → Steps (new_worker name id) ls w
    → (count is_start ls ≡ count is_end ls + in_run w.phase)
      × (count is_start ls ≤ count is_request ls)
unfolding new_worker
runs_counted name id ls w r =
    let (e, le) = balance r (new_worker-IsSound name id) in (omega (arith, e), omega (arith, le))
