-- ===== src/Task/Pool/Quiet.antt =====
-- A pool that is not stopped, by its own steps: it runs all that waits in its deque, and then sleeps.
use cpp_framework.Prelude.{
  ℕ, suc, ◌+◌, ◌*◌, ◌<◌, ◌≤◌, ◌≡◌, refl, ap, ◌∙◌, ◌⊎◌, inl, inr, Bool, true, false, none, some,
  List, [], ◌∷◌, ◌++◌, total, arith, get_elem?, length, length-replicate, all_of,
}
use cpp_framework.Task.Pool.{
  Pool, Worker, new_pool, entering, unready, asleep, deciding, running, exited, ready,
}
use cpp_framework.Task.Pool.System.{
  Label, Steps, takes, finds_nothing, sleeps, retries, begins, ends,
}
use cpp_framework.Task.Pool.Weights.{is_unready, is_waiting, is_exited}
use cpp_framework.Task.Pool.Invariant.{Inv, reachable-Inv, Steps-length}
use cpp_framework.Task.Pool.Order.{ins, holds, finishes}
use cpp_framework.Task.Pool.Finish.{OwnRun, NextStep}
use cpp_framework.Task.Pool.Delivery.{drops, times, task_accounting, OwnRun-Steps}
use cpp_framework.Task.Pool.Live.{restless, Steps-notifying, IsLive, OwnRun-IsLive}

-- A worker that neither sleeps nor has gone, if there is one.
abbrev pub is_asleep : Worker → ℕ
is_asleep asleep = 1
is_asleep entering = 0
is_asleep unready = 0
is_asleep (deciding t) = 0
is_asleep (running t) = 0
is_asleep exited = 0

abbrev IsMoving : List Worker → Type 0
IsMoving ws = (i : ℕ) × (w : Worker) × (get_elem? ws i ≡ some w) × (is_asleep w + is_exited w ≡ 0)

some-IsMoving :
    (ws : List Worker) → (total is_asleep ws + total is_exited ws ≡ length ws) ⊎ IsMoving ws
some-IsMoving [] = inl (omega arith)
some-IsMoving (entering ∷ ws) = inr (0, entering, refl, refl)
some-IsMoving (unready ∷ ws) = inr (0, unready, refl, refl)
some-IsMoving (deciding t ∷ ws) = inr (0, deciding t, refl, refl)
some-IsMoving (running t ∷ ws) = inr (0, running t, refl, refl)
some-IsMoving (asleep ∷ ws) = elim (some-IsMoving ws) [
  | inl e ↦ inl (omega (arith, e))
  | inr (i, w, e, h) ↦ inr (suc i, w, e, h)
]
some-IsMoving (exited ∷ ws) = elim (some-IsMoving ws) [
  | inl e ↦ inl (omega (arith, e))
  | inr (i, w, e, h) ↦ inr (suc i, w, e, h)
]

-- A worker that holds the mutex, of which there is one if it is locked.
holder : (ws : List Worker) → 0 < total is_unready ws → (i : ℕ) × (get_elem? ws i ≡ some unready)
holder [] h = absurd (omega (arith, h))
holder (unready ∷ ws) h = (0, refl)
holder (entering ∷ ws) h = let (i, e) = holder ws (omega (arith, h)) in (suc i, e)
holder (asleep ∷ ws) h = let (i, e) = holder ws (omega (arith, h)) in (suc i, e)
holder (deciding t ∷ ws) h = let (i, e) = holder ws (omega (arith, h)) in (suc i, e)
holder (running t ∷ ws) h = let (i, e) = holder ws (omega (arith, h)) in (suc i, e)
holder (exited ∷ ws) h = let (i, e) = holder ws (omega (arith, h)) in (suc i, e)

enters :
    (p : Pool) (i : ℕ) (l r : Bool)
    → Inv p
    → get_elem? p.workers i ≡ some entering
    → p.locked ≡ l
    → ready p ≡ r
    → NextStep p
unfolding NextStep
enters p i true r inv e h k =
    let (j, f) = holder p.workers (ground (arith, inv.one_holder, h)) in (_, _, sleeps j f, refl)
enters p i false true inv e h k = (_, _, takes i e h k, refl)
enters p i false false inv e h k = (_, _, finds_nothing i e h k, refl)

moves_on :
    (p : Pool) (i : ℕ) (w : Worker)
    → Inv p
    → p.stop ≡ false
    → get_elem? p.workers i ≡ some w
    → is_asleep w + is_exited w ≡ 0
    → NextStep p
unfolding NextStep
moves_on p i entering inv go e h = enters p i p.locked (ready p) inv e refl refl
moves_on p i unready inv go e h = (_, _, sleeps i e, refl)
moves_on p i asleep inv go e h = absurd (omega (arith, h))
moves_on p i (deciding none) inv go e h = (_, _, retries i e go, refl)
moves_on p i (deciding (some t)) inv go e h = (_, _, begins i t e, refl)
moves_on p i (running t) inv go e h = (_, _, ends i t e, refl)
moves_on p i exited inv go e h = absurd (omega (arith, h))

asleep-le-waiting : (ws : List Worker) → total is_asleep ws ≤ total is_waiting ws
asleep-le-waiting [] = omega arith
asleep-le-waiting (w ∷ ws) = omega (arith, weights w, asleep-le-waiting ws)
  where
    weights : (w : Worker) → is_asleep w ≤ is_waiting w
    weights w = ground arith

restless_bound : (ws : List Worker) → total restless ws ≤ 4 * length ws
restless_bound [] = omega arith
restless_bound (w ∷ ws) = omega (arith, weight w, restless_bound ws)
  where
    weight : (w : Worker) → restless w ≤ 4
    weight w = ground arith

-- A sleeper has no task in hand.
holds-asleep : (t : ℕ) (ws : List Worker) → total (holds t) ws + total is_asleep ws ≤ length ws
holds-asleep t [] = omega arith
holds-asleep t (w ∷ ws) = omega (arith, weights w, holds-asleep t ws)
  where
    weights : (w : Worker) → holds t w + is_asleep w ≤ 1
    weights w = ground arith

-- All workers asleep, nothing in the deque, and every call that was enqueued run to its end as often
-- as it was, less the times that it was dropped.
pub IsAtRest : List Label → Pool → Type 0
IsAtRest ls p =
    (total is_asleep p.workers ≡ length p.workers)
    × (p.tasks ≡ [])
    × ((t : ℕ) → times t (all_of ins ls) ≡ total (finishes t) ls + times t (all_of drops ls))

rest-IsAtRest :
    (n : ℕ) {q : Pool} {ls : List Label}
    → Steps (new_pool (suc n)) ls q
    → q.stop ≡ false
    → total is_asleep q.workers + total is_exited q.workers ≡ length q.workers
    → IsAtRest ls q
unfolding IsAtRest new_pool
rest-IsAtRest n {q} {ls} steps go all =
    let inv = reachable-Inv (suc n) steps in
    let workers : length q.workers ≡ suc n =
      Steps-length steps ∙ length-replicate (suc n) entering in
    let stay : total is_exited q.workers ≡ 0 = ground (arith, inv.exited_stopped, go) in
    let sleep : total is_asleep q.workers ≡ length q.workers = omega (arith, all, stay) in
    let empty : q.tasks ≡ [] =
      inv.none_idle (omega (arith, asleep-le-waiting q.workers, sleep, workers)) in
    (
      sleep,
      empty,
      λ t. omega (
        arith,
        task_accounting (suc n) t steps,
        holds-asleep t q.workers,
        sleep,
        ap (times t) empty,
      ),
    )

-- A pool with workers that was built empty and not stopped, from any state that it can reach on in
-- which no exception has ended the program, as long as no client calls anything, nobody wakes spuriously, and the tasks return: its own steps are
-- at most four for each worker and three for each task that waits; until it is at rest there is a
-- next one; and when it is, all its workers sleep, its deque is empty, and each call has been run to
-- its end as often as it was enqueued, less the times that clear_waiting_tasks dropped it. Empty
-- functions may be enqueued too, and are not run.
pub pool_serves :
    (n : ℕ) {p q : Pool} {k : ℕ} {ls : List Label}
    → Steps (new_pool (suc n)) ls p
    → p.terminated ≡ false
    → p.stop ≡ false
    → OwnRun p k q
    → (k ≤ 4 * suc n + 3 * length p.tasks)
      × ((ms : List Label) × Steps (new_pool (suc n)) (ls ++ ms) q
          × (all_of ins (ls ++ ms) ≡ all_of ins ls)
          × (all_of drops (ls ++ ms) ≡ all_of drops ls)
          × (IsAtRest (ls ++ ms) q ⊎ NextStep q))
unfolding new_pool
pool_serves n {p} {q} {ls = ls} steps alive go run =
    let live : IsLive p = record {
      alive = alive;
      going = go;
      unnotified = Steps-notifying (suc n) steps go;
    } in
    let (f, far) = OwnRun-IsLive run live in
    let (_, ms, more, same, kept) = OwnRun-Steps steps alive run in
    let workers : length p.workers ≡ suc n =
      Steps-length steps ∙ length-replicate (suc n) entering in
    (
      omega (arith, far, restless_bound p.workers, workers),
      (
        ms,
        more,
        same,
        kept,
        elim (some-IsMoving q.workers) [
          | inl all ↦ inl (rest-IsAtRest n more f.going all)
          | inr (i, w, e, h) ↦ inr (moves_on q i w (reachable-Inv (suc n) more) f.going e h)
        ],
      ),
    )
