-- ===== src/Task/Pool/Wakeup.antt =====
-- `stop` sets its flag and notifies without the mutex. A worker that has found its predicate false
-- and not yet gone to sleep misses both.
use mathlib.Core.List.{append_assoc, append-nil}
use cpp_framework.Prelude.{
  ℕ, zero, suc, Bool, ◌≡◌, ◌≢◌, refl, true, false, some, List, [], ◌∷◌, ◌++◌, map, arith, get_elem?,
  set, get_elem?-set_self, get_elem?-set_ne, ◌∙◌, get_elem?-lt,
}
use cpp_framework.Task.Pool.{Pool, Task, Worker, new_pool, unready, asleep, wake, ready, take_task}
use cpp_framework.Task.Pool.System.{
  Label, quiet, Step, Steps, here, later, enqueues, clears, stops, notifies, takes, finds_nothing,
  sleeps, wakes_spuriously, exits, retries, begins, ends, throws, wake_all, put,
}

get_elem?-wake_unready :
    (xs : List Worker) (i : ℕ)
    → get_elem? xs i ≡ some unready
    → get_elem? (map wake xs) i ≡ some unready
get_elem?-wake_unready [] i e = cc
get_elem?-wake_unready (x ∷ xs) zero e = ground arith
get_elem?-wake_unready (x ∷ xs) (suc i) e = get_elem?-wake_unready xs i e

-- Whenever some worker stands between its test and its sleep, the whole of `stop` up to its joins
-- can run before that worker sleeps: the pool is then stopped and all its notifications are over,
-- and the worker is asleep.
pub stop_missed :
    (p : Pool) (i : ℕ)
    → p.terminated ≡ false
    → get_elem? p.workers i ≡ some unready
    → (q : Pool) × Steps p (quiet ∷ quiet ∷ quiet ∷ []) q
      × (q.stop ≡ true)
      × (q.notifying ≡ p.notifying)
      × (get_elem? q.workers i ≡ some asleep)
      × (q.tasks ≡ p.tasks)
stop_missed p i alive e =
    let still = get_elem?-wake_unready p.workers i e in
    (
      record (put (wake_all p) i asleep) { stop = true; locked = false },
      later (later (later here alive stops) alive (notifies p.notifying refl)) alive
          (sleeps i still),
      refl,
      refl,
      get_elem?-set_self (map wake p.workers) i asleep (get_elem?-lt (map wake p.workers) i still),
      refl,
    )

Steps-join :
    {p q r : Pool} {ks ls : List Label} → Steps p ks q → Steps q ls r → Steps p (ks ++ ls) r
Steps-join {ks} first here = rw (append-nil ks) first
Steps-join {ks} first (later {ls = ls} {l = l} more alive step) =
    rw (← append_assoc ks ls (l ∷ [])) (later (Steps-join first more) alive step)

pub take_kept :
    (p : Pool) (ts : List Task)
    → p.tasks ≡ ts
    → ((take_task p).1.workers ≡ p.workers) × ((take_task p).1.notifying ≡ p.notifying)
unfolding take_task
take_kept p [] e = ground arith
take_kept p (t ∷ ts) e = ground arith

-- A step of the pool itself: not a client's call, not a spurious wake-up, and no task that throws.
abbrev pub is_own : {p q : Pool} {l : Label} → Step p l q → Bool
is_own (enqueues t free) = false
is_own (clears free) = false
is_own stops = false
is_own (wakes_spuriously i e) = false
is_own (notifies k e) = true
is_own (takes i e free r) = true
is_own (finds_nothing i e free r) = true
is_own (sleeps i e) = true
is_own (exits i e s) = true
is_own (retries i e s) = true
is_own (begins i t e) = true
is_own (ends i t e) = true
is_own (throws i t e) = false

pub data OwnSteps (p : Pool) : Pool → Type 0 where
  no_more : OwnSteps p p
  one_more :
      {q r : Pool} {l : Label}
      → OwnSteps p q
      → (step : Step q l r) → is_own step ≡ true
      → OwnSteps p r

-- Asleep, with no notification to come.
abbrev pub Forgotten : ℕ → Pool → Type 0
Forgotten i p = (p.notifying ≡ 0) × (get_elem? p.workers i ≡ some asleep)

put-Forgotten :
    (i j : ℕ) (p : Pool) (v : Worker) {w : Worker}
    → get_elem? p.workers j ≡ some w
    → asleep ≢ w
    → Forgotten i p
    → get_elem? (set p.workers j v) i ≡ some asleep
put-Forgotten i j p v e other (quiet_now, sleeping) =
    get_elem?-set_ne p.workers j i v (λ same. other (cc)) ∙ sleeping

OwnStep-Forgotten :
    (i : ℕ) {p q : Pool} {l : Label} (step : Step p l q)
    → is_own step ≡ true
    → Forgotten i p
    → Forgotten i q
OwnStep-Forgotten i (enqueues t free) own f = cc
OwnStep-Forgotten i (clears free) own f = cc
OwnStep-Forgotten i stops own f = cc
OwnStep-Forgotten i (wakes_spuriously j e) own f = cc
OwnStep-Forgotten i (notifies k e) own f = absurd (omega arith)
OwnStep-Forgotten i {p} (takes j e free r) own f =
    let (workers, notifying) = take_kept p p.tasks refl in
    (notifying ∙ f.0, rw workers (put-Forgotten i j p _ e (λ h. cc) f))
OwnStep-Forgotten i {p} (finds_nothing j e free r) own f =
    (f.0, put-Forgotten i j p _ e (λ h. cc) f)
OwnStep-Forgotten i {p} (sleeps j e) own f = (f.0, put-Forgotten i j p _ e (λ h. cc) f)
OwnStep-Forgotten i {p} (exits j e s) own f = (f.0, put-Forgotten i j p _ e (λ h. cc) f)
OwnStep-Forgotten i {p} (retries j e s) own f = (f.0, put-Forgotten i j p _ e (λ h. cc) f)
OwnStep-Forgotten i {p} (begins j t e) own f = (f.0, put-Forgotten i j p _ e (λ h. cc) f)
OwnStep-Forgotten i (throws j t e) own f = cc
OwnStep-Forgotten i {p} (ends j t e) own f = (f.0, put-Forgotten i j p _ e (λ h. cc) f)

OwnSteps-Forgotten : (i : ℕ) {p q : Pool} → OwnSteps p q → Forgotten i p → Forgotten i q
OwnSteps-Forgotten i no_more f = f
OwnSteps-Forgotten i (one_more steps step own) f =
    OwnStep-Forgotten i step own (OwnSteps-Forgotten i steps f)

-- A pool of any size can be left by `stop` with a worker that the joins wait for in vain: its flag is
-- set and its notification over, and by its own steps, whatever their order, the pool never wakes
-- that worker. Only a spurious wake-up or another call of a client can.
pub stop_hangs :
    (n : ℕ)
    → (ls : List Label) × (p : Pool) × Steps (new_pool (suc n)) ls p
      × (p.stop ≡ true)
      × (p.notifying ≡ 0)
      × ((q : Pool) → OwnSteps p q → get_elem? q.workers 0 ≡ some asleep)
unfolding new_pool ready
stop_hangs n =
    let before : Pool = record (put (new_pool (suc n)) 0 unready) { locked = true } in
    let first : Steps (new_pool (suc n)) (quiet ∷ []) before =
      later here refl (finds_nothing 0 refl refl refl) in
    let (q, steps, stopped, quiet_now, sleeping, _) = stop_missed before 0 refl refl in
    (
      quiet ∷ quiet ∷ quiet ∷ quiet ∷ [],
      q,
      Steps-join first steps,
      stopped,
      quiet_now,
      λ r own. (OwnSteps-Forgotten 0 own (quiet_now, sleeping)).1,
    )
