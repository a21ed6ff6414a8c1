-- ===== src/Task/BackGroundWorker/Stopping.antt =====
-- The end of a worker.
use cpp_framework.Prelude.{
  ℕ, suc, ◌+◌, ◌≤◌, ◌≡◌, refl, true, List, arith, Text, ◌⊎◌, inl, inr, none, Bool-cases,
}
use cpp_framework.Task.BackGroundWorker.{
  BackGroundWorker, Phase, testing, asleep, deciding, working, completing, in_handler, clearing,
  releasing, freeing, uncancelling, finishing, gone, terminated, run_task_async, cancel_async,
  begin_destruction, awake, new_worker, new_args,
}
use cpp_framework.Task.BackGroundWorker.System.{
  Label, Move, Call, Steps, here, later, moves, calls, goes_on, falls_asleep, leaves, starts, ends,
  dies, calls_handler, has_no_handler, handler_returns, handler_throws, clears, releases, frees,
  uncancels, finishes, requests, cancels, destroys, sets_handler, wakes_spuriously,
}
use cpp_framework.Task.BackGroundWorker.Invariant.{IsSound, Steps-IsSound, new_worker-IsSound}

-- The moves that the thread of a stopped worker has before it at most.
left : Phase → ℕ
left testing = 2
left asleep = 0
left deciding = 1
left working = 8
left (completing args error) = 7
left in_handler = 6
left clearing = 5
left releasing = 4
left freeing = 5
left uncancelling = 4
left finishing = 3
left gone = 0
left terminated = 0

abbrev pub count_moves :
    {w : BackGroundWorker} {ls : List Label} {v : BackGroundWorker} → Steps w ls v → ℕ
count_moves here = 0
count_moves (later r (moves m)) = suc (count_moves r)
count_moves (later r (calls c)) = count_moves r

Move-left :
    {l : Label} {w v : BackGroundWorker}
    → Move w l v
    → IsSound w
    → w.stop ≡ true
    → (v.stop ≡ true) × (suc (left v.phase) ≤ left w.phase)
unfolding left awake
Move-left (goes_on p a) s h = ground (arith, s, p, a, h)
Move-left (falls_asleep p a) s h = ground (arith, s, p, a, h)
Move-left (leaves p a) s h = ground (arith, s, p, a, h)
Move-left (starts p a) s h = ground (arith, s, p, a, h)
Move-left (ends args e p) s h = ground (arith, s, p, h)
Move-left (dies p) s h = ground (arith, s, p, h)
Move-left (calls_handler args error p k) s h = ground (arith, s, p, h)
Move-left (has_no_handler args error p k) s h = ground (arith, s, p, h)
Move-left (handler_returns p) s h = ground (arith, s, p, h)
Move-left (handler_throws p) s h = ground (arith, s, p, h)
Move-left (clears p) s h = ground (arith, s, p, h)
Move-left (releases p) s h = ground (arith, s, p, h)
Move-left (frees p) s h = ground (arith, s, p, h)
Move-left (uncancels p) s h = ground (arith, s, p, h)
Move-left (finishes p) s h = ground (arith, s, p, h)

Call-left :
    {l : Label} {w v : BackGroundWorker}
    → Call w l v
    → IsSound w
    → w.stop ≡ true
    → (v.stop ≡ true) × (left v.phase ≤ left w.phase)
unfolding left run_task_async cancel_async begin_destruction
Call-left {w = w} requests s h = ground (arith, s, h)
Call-left {w = w} cancels s h = ground (arith, s, h)
Call-left {w = w} destroys s h = ground (arith, s, h)
Call-left {w = w} (sets_handler b) s h = ground (arith, s, h)
Call-left {w = w} (wakes_spuriously p) s h = ground (arith, s, p, h)

Steps-left :
    {w : BackGroundWorker} {ls : List Label} {v : BackGroundWorker} (r : Steps w ls v)
    → IsSound w
    → w.stop ≡ true
    → (v.stop ≡ true) × (count_moves r + left v.phase ≤ left w.phase)
Steps-left here s h = (h, omega arith)
Steps-left (later r (moves m)) s h =
    let (k, le) = Steps-left r s h in
    let (k', le') = Move-left m (Steps-IsSound r s) k in (k', omega (arith, le, le'))
Steps-left (later r (calls c)) s h =
    let (k, le) = Steps-left r s h in
    let (k', le') = Call-left c (Steps-IsSound r s) k in (k', omega (arith, le, le'))

left_at_most : (x : Phase) → left x ≤ 8
unfolding left
left_at_most x = ground arith

-- A thread that is neither gone nor has ended the program can move; what the task and the handler
-- do is up to them, and here they return.
can_move :
    (v : BackGroundWorker)
    → IsSound v
    → v.stop ≡ true
    → (v.phase ≡ gone)
      ⊎ ((v.phase ≡ terminated) ⊎ ((l : Label) × (u : BackGroundWorker) × Move v l u))
unfolding awake
can_move v s h = by_phase v.phase refl
  where
    by_phase :
        (x : Phase)
        → v.phase ≡ x
        → (v.phase ≡ gone)
          ⊎ ((v.phase ≡ terminated) ⊎ ((l : Label) × (u : BackGroundWorker) × Move v l u))
    by_phase testing p = inr (inr (_, _, goes_on p (ground (arith, h))))
    by_phase asleep p = absurd (ground (arith, p, s, h))
    by_phase deciding p = inr (inr (_, _, leaves p h))
    by_phase working p = inr (inr (_, _, ends new_args none p))
    by_phase (completing args error) p = elim (Bool-cases v.has_handler) [
      | inl e ↦ inr (inr (_, _, calls_handler args error p e))
      | inr e ↦ inr (inr (_, _, has_no_handler args error p e))
    ]
    by_phase in_handler p = inr (inr (_, _, handler_returns p))
    by_phase clearing p = inr (inr (_, _, clears p))
    by_phase releasing p = inr (inr (_, _, releases p))
    by_phase freeing p = inr (inr (_, _, frees p))
    by_phase uncancelling p = inr (inr (_, _, uncancels p))
    by_phase finishing p = inr (inr (_, _, finishes p))
    by_phase gone p = inl p
    by_phase terminated p = inr (inl p)

-- Once the destructor has set its flag, in any state that the worker can reach, the thread makes at
-- most eight more moves, whatever is called meanwhile, and until it has gone, or has ended the
-- program, it has a move to make: the join does not wait for a thread that sleeps.
pub destruction_ends :
    (name : Text) (id : ℕ) (before : List Label) (w : BackGroundWorker) (after : List Label)
    (v : BackGroundWorker)
    → Steps (new_worker name id) before w
    → (r : Steps (begin_destruction w) after v)
    → (count_moves r ≤ 8)
      × ((v.phase ≡ gone)
          ⊎ ((v.phase ≡ terminated) ⊎ ((l : Label) × (u : BackGroundWorker) × Move v l u)))
unfolding begin_destruction
destruction_ends name id before w after v first r =
    let sound = Steps-IsSound (later first (calls destroys)) (new_worker-IsSound name id) in
    let (stopped, le) = Steps-left r sound refl in
    (
      omega (arith, le, left_at_most (begin_destruction w).phase),
      can_move v (Steps-IsSound r sound) stopped,
    )
