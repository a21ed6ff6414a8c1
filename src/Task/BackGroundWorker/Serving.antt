-- ===== src/Task/BackGroundWorker/Serving.antt =====
-- A request to an idle worker, and the run that it asks for.
use cpp_framework.Prelude.{
  ℕ, suc, ◌+◌, ◌<◌, ◌≤◌, ◌≡◌, refl, true, false, List, arith, Text, ◌⊎◌, inl, inr,
}
use cpp_framework.Task.BackGroundWorker.{
  BackGroundWorker, Phase, testing, asleep, deciding, working, completing, in_handler, clearing,
  releasing, freeing, uncancelling, finishing, gone, terminated, run_task_async, cancel_async,
  begin_destruction, awake, new_worker, is_busy, wake,
}
use cpp_framework.Task.BackGroundWorker.System.{
  Label, Move, Call, Step, Steps, here, later, moves, calls, goes_on, falls_asleep, leaves, starts,
  ends, dies, calls_handler, has_no_handler, handler_returns, handler_throws, clears, releases,
  frees, uncancels, finishes, requests, cancels, destroys, sets_handler, wakes_spuriously,
}
use cpp_framework.Task.BackGroundWorker.Invariant.{
  IsSound, IsSoundAt, Steps-IsSound, new_worker-IsSound,
}
use cpp_framework.Task.BackGroundWorker.Runs.{count, is_start}
use cpp_framework.Task.BackGroundWorker.Stopping.{count_moves}

-- The moves up to the start of a run that is asked for, from the phases before it.
abbrev pub to_start : Phase → ℕ
to_start deciding = 1
to_start testing = 2
to_start finishing = 3
to_start uncancelling = 4
to_start asleep = 0
to_start working = 0
to_start (completing args error) = 0
to_start in_handler = 0
to_start clearing = 0
to_start releasing = 0
to_start freeing = 0
to_start gone = 0
to_start terminated = 0

-- A run is asked for, and nothing keeps the thread from it.
pub record IsAsked (w : BackGroundWorker) : Type 0 where
  pub running : w.running ≡ true
  pub going : w.stop ≡ false
  pub before : 0 < to_start w.phase

-- Nothing takes the stop back.
Step-stop : {l : Label} {w v : BackGroundWorker} → Step w l v → v.stop ≡ false → w.stop ≡ false
unfolding run_task_async cancel_async begin_destruction
Step-stop (moves (goes_on p a)) h = h
Step-stop (moves (falls_asleep p a)) h = h
Step-stop (moves (leaves p a)) h = h
Step-stop (moves (starts p a)) h = h
Step-stop (moves (ends args e p)) h = h
Step-stop (moves (dies p)) h = h
Step-stop (moves (calls_handler args error p k)) h = h
Step-stop (moves (has_no_handler args error p k)) h = h
Step-stop (moves (handler_returns p)) h = h
Step-stop (moves (handler_throws p)) h = h
Step-stop (moves (clears p)) h = h
Step-stop (moves (releases p)) h = h
Step-stop (moves (frees p)) h = h
Step-stop (moves (uncancels p)) h = h
Step-stop (moves (finishes p)) h = h
Step-stop (calls requests) h = h
Step-stop (calls cancels) h = h
Step-stop (calls destroys) h = absurd cc
Step-stop (calls (sets_handler b)) h = h
Step-stop (calls (wakes_spuriously p)) h = h

-- Begun, or one move nearer.
abbrev pub Nearer : Label → BackGroundWorker → BackGroundWorker → Type 0
Nearer l w v = (is_start l ≡ 1) ⊎ (IsAsked v × (suc (to_start v.phase) ≤ to_start w.phase))

pub Move-Nearer : {l : Label} {w v : BackGroundWorker} → Move w l v → IsAsked w → Nearer l w v
unfolding awake
Move-Nearer (goes_on p a) h =
    inr (record { running = h.running; going = h.going; before = omega arith }, ground (arith, p))
Move-Nearer (falls_asleep p a) h = absurd (ground (arith, a, h))
Move-Nearer (leaves p a) h = absurd (ground (arith, a, h))
Move-Nearer (starts p a) h = inl refl
Move-Nearer (ends args e p) h = absurd (ground (arith, p, h))
Move-Nearer (dies p) h = absurd (ground (arith, p, h))
Move-Nearer (calls_handler args error p k) h = absurd (ground (arith, p, h))
Move-Nearer (has_no_handler args error p k) h = absurd (ground (arith, p, h))
Move-Nearer (handler_returns p) h = absurd (ground (arith, p, h))
Move-Nearer (handler_throws p) h = absurd (ground (arith, p, h))
Move-Nearer (clears p) h = absurd (ground (arith, p, h))
Move-Nearer (releases p) h = absurd (ground (arith, p, h))
Move-Nearer (frees p) h = absurd (ground (arith, p, h))
Move-Nearer (uncancels p) h =
    inr (record { running = h.running; going = h.going; before = omega arith }, ground (arith, p))
Move-Nearer (finishes p) h =
    inr (record { running = h.running; going = h.going; before = omega arith }, ground (arith, p))

Call-IsAsked :
    {l : Label} {w v : BackGroundWorker}
    → Call w l v
    → v.stop ≡ false
    → IsAsked w
    → IsAsked v × (to_start v.phase ≡ to_start w.phase)
unfolding run_task_async cancel_async begin_destruction
Call-IsAsked {w = w} requests k h = ground (arith, h)
Call-IsAsked {w = w} cancels k h = ground (arith, h)
Call-IsAsked {w = w} destroys k h = absurd cc
Call-IsAsked {w = w} (sets_handler b) k h = ground (arith, h)
Call-IsAsked {w = w} (wakes_spuriously p) k h = absurd (ground (arith, p, h))

-- So far: a run has begun, or one is still asked for, with this many moves left of four.
abbrev Outlook : List Label → ℕ → BackGroundWorker → Type 0
Outlook ls k v = (0 < count is_start ls) ⊎ (IsAsked v × (k + to_start v.phase ≤ 4))

Steps-Outlook :
    {w : BackGroundWorker} {ls : List Label} {v : BackGroundWorker} (r : Steps w ls v)
    → v.stop ≡ false
    → IsAsked w
    → Outlook ls (count_moves r) v
Steps-Outlook {w = w} here k h = inr (h, phases w.phase)
  where
    phases : (x : Phase) → 0 + to_start x ≤ 4
    phases x = ground arith
Steps-Outlook (later r (moves m)) k h = elim (Steps-Outlook r (Step-stop (moves m) k) h) [
  | inl begun ↦ inl (omega (arith, begun))
  | inr (asked, left) ↦ elim (Move-Nearer m asked) [
    | inl now ↦ inl (omega (arith, now))
    | inr (asked', less) ↦ inr (asked', omega (arith, left, less))
  ]
]
Steps-Outlook (later r (calls c)) k h = elim (Steps-Outlook r (Step-stop (calls c) k) h) [
  | inl begun ↦ inl (omega (arith, begun))
  | inr (asked, left) ↦
      let (asked', same) = Call-IsAsked c k asked in inr (asked', omega (arith, left, same))
]

pub asked_moves :
    (v : BackGroundWorker) → IsAsked v → (l : Label) × (u : BackGroundWorker) × Move v l u
unfolding awake
asked_moves v h = by_phase v.phase refl
  where
    by_phase : (x : Phase) → v.phase ≡ x → (l : Label) × (u : BackGroundWorker) × Move v l u
    by_phase testing p = (_, _, goes_on p (ground (arith, h)))
    by_phase deciding p = (_, _, starts p h.going)
    by_phase finishing p = (_, _, finishes p)
    by_phase uncancelling p = (_, _, uncancels p)
    by_phase asleep p = absurd (ground (arith, p, h))
    by_phase working p = absurd (ground (arith, p, h))
    by_phase (completing args error) p = absurd (ground (arith, p, h))
    by_phase in_handler p = absurd (ground (arith, p, h))
    by_phase clearing p = absurd (ground (arith, p, h))
    by_phase releasing p = absurd (ground (arith, p, h))
    by_phase freeing p = absurd (ground (arith, p, h))
    by_phase gone p = absurd (ground (arith, p, h))
    by_phase terminated p = absurd (ground (arith, p, h))

request-IsAsked :
    (w : BackGroundWorker)
    → IsSound w
    → w.running ≡ false
    → w.stop ≡ false
    → IsAsked (run_task_async w)
unfolding run_task_async
request-IsAsked w sound idle go = record {
  running = refl;
  going = go;
  before = by_phase w.phase sound;
}
  where
    by_phase : (x : Phase) → IsSoundAt x w.running w.stop → 0 < to_start (wake x)
    by_phase x s = ground (arith, s, idle, go)

Steps-stop :
    {w : BackGroundWorker} {ls : List Label} {v : BackGroundWorker}
    → Steps w ls v
    → v.stop ≡ false
    → w.stop ≡ false
Steps-stop here h = h
Steps-stop (later r step) h = Steps-stop r (Step-stop step h)

-- run_task_async on a worker that is not busy, in any state that it can reach: whatever is called
-- afterwards, as long as the destructor is not, either a run of the task has begun since, or the
-- thread has made fewer than four moves and has one to make.
pub request_served :
    (name : Text) (id : ℕ) (before : List Label) (w : BackGroundWorker) (after : List Label)
    (v : BackGroundWorker)
    → Steps (new_worker name id) before w
    → is_busy w ≡ false
    → (r : Steps (run_task_async w) after v) → v.stop ≡ false
    → (0 < count is_start after)
      ⊎ ((count_moves r < 4) × ((l : Label) × (u : BackGroundWorker) × Move v l u))
unfolding is_busy run_task_async
request_served name id before w after v first idle r go =
    let sound = Steps-IsSound first (new_worker-IsSound name id) in
    let asked = request-IsAsked w sound idle (Steps-stop r go) in
    elim (Steps-Outlook r go asked) [
      | inl begun ↦ inl begun
      | inr (still, left) ↦ inr (omega (arith, left, still.before), asked_moves v still)
    ]
