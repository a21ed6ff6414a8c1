-- ===== src/Sync/EventFlag/Waiters.antt =====
-- Threads that wait and threads that set, interleaved. The evaluation of the predicate and the move
-- to sleep are one step, since both happen under the mutex; `set` has two: its critical section, and
-- the notification after the mutex is released.
use cpp_framework.Prelude.{ℕ, suc, ◌<◌, ◌≡◌, true, false, arith, ite, ℕ_discrete}
use cpp_framework.Sync.EventFlag.{EventFlag, MatchMode, matches, set, new_flag}

-- A thread in `wait(pattern, mode)`: about to evaluate, asleep, or returned.
pub data Waiter : Type 0 where
  idle : Waiter
  ready asleep : ℕ → MatchMode → Waiter
  returned : Waiter

pub record System : Type 0 where
  pub flag : EventFlag
  pub waiters : ℕ → Waiter
  -- calls of `set` between their critical section and their notification
  pub notifying : ℕ

abbrev pub update : (ℕ → Waiter) → ℕ → Waiter → ℕ → Waiter
update f i w j = ite (ℕ_discrete i j) w (f j)

-- `notify_all`.
abbrev pub wake : Waiter → Waiter
wake (asleep p m) = ready p m
wake idle = idle
wake (ready p m) = ready p m
wake returned = returned

pub data Step (s : System) : System → Type 0 where
  calls :
      (i p : ℕ) (m : MatchMode)
      → s.waiters i ≡ idle
      → Step s (record s { waiters = update s.waiters i (ready p m) })
  returns :
      (i p : ℕ) (m : MatchMode)
      → s.waiters i ≡ ready p m
      → matches s.flag p m ≡ true
      → Step s (record s { waiters = update s.waiters i returned })
  sleeps :
      (i p : ℕ) (m : MatchMode)
      → s.waiters i ≡ ready p m
      → matches s.flag p m ≡ false
      → Step s (record s { waiters = update s.waiters i (asleep p m) })
  wakes_spuriously :
      (i p : ℕ) (m : MatchMode)
      → s.waiters i ≡ asleep p m
      → Step s (record s { waiters = update s.waiters i (ready p m) })
  sets : (p : ℕ) → Step s (record s { flag = set p s.flag; notifying = suc s.notifying })
  notifies :
      (k : ℕ)
      → s.notifying ≡ suc k
      → Step s (record s { waiters = λ i. wake (s.waiters i); notifying = k })

pub data Reach : System → Type 0 where
  start : Reach (record { flag = new_flag; waiters = λ i. idle; notifying = 0 })
  later : {s t : System} → Reach s → Step s t → Reach t

-- A sleeper whose predicate holds has a notification coming.
abbrev pub NoneMissed : System → Type 0
NoneMissed s =
    (i p : ℕ) (m : MatchMode)
    → s.waiters i ≡ asleep p m
    → matches s.flag p m ≡ true
    → 0 < s.notifying

Step-NoneMissed : {s t : System} → Step s t → NoneMissed s → NoneMissed t
Step-NoneMissed (calls i p m e) inv j q n a h = ground (arith, inv j q n)
Step-NoneMissed (returns i p m e r) inv j q n a h = ground (arith, inv j q n)
Step-NoneMissed (sleeps i p m e r) inv j q n a h = ground (arith, inv j q n)
Step-NoneMissed (wakes_spuriously i p m e) inv j q n a h = ground (arith, inv j q n)
Step-NoneMissed (sets p) inv j q n a h = omega arith
Step-NoneMissed {s} (notifies k e) inv j q n a h = ground arith

Reach-NoneMissed : {s : System} → Reach s → NoneMissed s
Reach-NoneMissed start = λ i p m e h. cc
Reach-NoneMissed (later r step) = Step-NoneMissed step (Reach-NoneMissed r)

-- No wake-up is lost: in every reachable state, under any interleaving and any spurious wake-ups, if
-- no notification is under way then a thread that sleeps in `wait` has a predicate that is false.
pub no_lost_wakeup :
    {s : System} (i p : ℕ) (m : MatchMode)
    → Reach s
    → s.waiters i ≡ asleep p m
    → s.notifying ≡ 0
    → matches s.flag p m ≡ false
no_lost_wakeup i p m r a quiet = ground (arith, Reach-NoneMissed r i p m a)
