-- ===== src/Task/BackGroundWorker/Losing.antt =====
-- A cancellation that gets lost, when it comes between the stores behind a run without a handler.
use cpp_framework.Prelude.{
  ◌+◌, ◌<◌, ◌≤◌, ◌≡◌, refl, false, List, [], ◌∷◌, length, arith, ◌⊎◌, inl, inr,
}
use cpp_framework.Task.BackGroundWorker.{
  BackGroundWorker, working, uncancelling, run_task_async, cancel_async,
}
use cpp_framework.Task.BackGroundWorker.System.{
  Label, Move, goes_on, falls_asleep, leaves, starts, ends, dies, calls_handler, has_no_handler,
  handler_returns, handler_throws, clears, releases, frees, uncancels, finishes,
}
use cpp_framework.Task.BackGroundWorker.Runs.{count, is_start}
use cpp_framework.Task.BackGroundWorker.Serving.{IsAsked, to_start, Move-Nearer, asked_moves}

-- The thread alone: its moves, and no call of anyone.
pub data Alone (w : BackGroundWorker) : List Label → BackGroundWorker → Type 0 where
  unmoved : Alone w [] w
  then_moves :
      {ls : List Label} {l : Label} {u v : BackGroundWorker}
      → Alone w ls u
      → Move u l v
      → Alone w (l ∷ ls) v

-- The cancellation is still to be cleared, or is.
abbrev Losing : BackGroundWorker → Type 0
Losing w = (w.phase ≡ uncancelling) ⊎ (w.cancellation_pending ≡ false)

Move-Losing :
    {l : Label} {w v : BackGroundWorker} → Move w l v → Losing w → (v.cancellation_pending ≡ false)
Move-Losing (goes_on p a) h = ground (arith, p, h)
Move-Losing (falls_asleep p a) h = ground (arith, p, h)
Move-Losing (leaves p a) h = ground (arith, p, h)
Move-Losing (starts p a) h = ground (arith, p, h)
Move-Losing (ends args e p) h = ground (arith, p, h)
Move-Losing (dies p) h = ground (arith, p, h)
Move-Losing (calls_handler args error p k) h = ground (arith, p, h)
Move-Losing (has_no_handler args error p k) h = ground (arith, p, h)
Move-Losing (handler_returns p) h = ground (arith, p, h)
Move-Losing (handler_throws p) h = ground (arith, p, h)
Move-Losing (clears p) h = refl
Move-Losing (releases p) h = ground (arith, p, h)
Move-Losing (frees p) h = ground (arith, p, h)
Move-Losing (uncancels p) h = refl
Move-Losing (finishes p) h = ground (arith, p, h)

Alone-Losing :
    {w : BackGroundWorker} {ls : List Label} {v : BackGroundWorker}
    → Alone w ls v
    → Losing w
    → IsAsked w
    → count is_start ls ≡ 0
    → Losing v × IsAsked v × (length ls + to_start v.phase ≤ to_start w.phase)
Alone-Losing unmoved lost asked none_yet = (lost, asked, omega arith)
Alone-Losing (then_moves r m) lost asked none_yet =
    let (lost', asked', le) = Alone-Losing r lost asked (omega (arith, none_yet)) in
    elim (Move-Nearer m asked') [
      | inl begun ↦ absurd (omega (arith, begun, none_yet))
      | inr (still, less) ↦ (inr (Move-Losing m lost'), still, omega (arith, le, less))
    ]

-- Without a completion handler the running flag is cleared before the cancellation. In any state
-- between the two stores of a worker that is not being destroyed, let a run be requested and then
-- cancelled, and the thread move on alone. As long as the requested run has not begun, the thread
-- has made fewer than four moves and has one to make; and when the run begins, the cancellation is
-- no longer pending.
pub cancellation_lost :
    (w : BackGroundWorker)
    → w.phase ≡ uncancelling
    → w.stop ≡ false
    → (ls : List Label) (v : BackGroundWorker) → Alone (cancel_async (run_task_async w)) ls v
    → count is_start ls ≡ 0
    → (length ls < 4)
      × ((l : Label) × (u : BackGroundWorker) × Move v l u)
      × ((l : Label) (u : BackGroundWorker)
          → Move v l u
          → is_start l ≡ 1
          → (u.phase ≡ working) × (u.cancellation_pending ≡ false))
unfolding run_task_async cancel_async
cancellation_lost w p go ls v r none_yet =
    let asked : IsAsked (cancel_async (run_task_async w)) = record {
      running = refl;
      going = go;
      before = ground (arith, p);
    } in
    let (lost, still, le) = Alone-Losing r (inl (ground (arith, p))) asked none_yet in
    (
      ground (arith, p, le, still.before),
      asked_moves v still,
      λ l u m begins. (begins_working m begins, Move-Losing m lost),
    )
  where
    begins_working :
        {l : Label} {x u : BackGroundWorker} → Move x l u → is_start l ≡ 1 → u.phase ≡ working
    begins_working (starts q a) h = refl
    begins_working (goes_on q a) h = absurd (omega (arith, h))
    begins_working (falls_asleep q a) h = absurd (omega (arith, h))
    begins_working (leaves q a) h = absurd (omega (arith, h))
    begins_working (ends args e q) h = absurd (omega (arith, h))
    begins_working (dies q) h = absurd (omega (arith, h))
    begins_working (calls_handler args error q k) h = absurd (omega (arith, h))
    begins_working (has_no_handler args error q k) h = absurd (omega (arith, h))
    begins_working (handler_returns q) h = absurd (omega (arith, h))
    begins_working (handler_throws q) h = absurd (omega (arith, h))
    begins_working (clears q) h = absurd (omega (arith, h))
    begins_working (releases q) h = absurd (omega (arith, h))
    begins_working (frees q) h = absurd (omega (arith, h))
    begins_working (uncancels q) h = absurd (omega (arith, h))
    begins_working (finishes q) h = absurd (omega (arith, h))
