-- ===== src/Message/Deque/Waiters.antt =====
-- include/Message/SynchronizedDeque.hpp with its mutex and condition: senders and receivers that
-- sleep, interleaved. `send` notifies under the mutex, so it is one step with its notification; the
-- test of a predicate and the move to sleep are one, as in the wait.
use mathlib.Core.List.{append-nil}
use cpp_framework.Prelude.{
  ℕ, ◌≡◌, refl, sym, ◌∙◌, Bool, true, false, some, List, [], ◌∷◌, ◌++◌, all_of, flow-snoc, arith,
  ite, ℕ_discrete, if◌then◌else◌,
}
use cpp_framework.Message.Deque.{
  SynchronizedDeque, new_deque, is_not_empty, get_front, send, receive, timed_receive, clear,
}

-- A thread that receives, with a timeout or without one: before the test of its predicate, asleep,
-- woken by its deadline, or back with a message or with none.
pub data Receiver (A : Type 0) : Type 0 where
  idle : Receiver A
  ready asleep : Bool → Receiver A
  late : Receiver A
  back : Bool → A → Receiver A

pub record System (A : Type 0) : Type 0 where
  pub deque : SynchronizedDeque A
  pub receivers : ℕ → Receiver A

-- What a step does to the messages.
pub data Label (A : Type 0) : Type 0 where
  quiet : Label A
  sent taken : A → Label A
  dropped : List A → Label A

module _ {A : Type 0} where
  abbrev pub ins : Label A → List A
  ins (sent a) = a ∷ []
  ins quiet = []
  ins (taken a) = []
  ins (dropped xs) = []

  abbrev pub outs : Label A → List A
  outs (taken a) = a ∷ []
  outs (dropped xs) = xs
  outs quiet = []
  outs (sent a) = []

  abbrev pub update : (ℕ → Receiver A) → ℕ → Receiver A → ℕ → Receiver A
  update f i r j = ite (ℕ_discrete i j) r (f j)

  -- `notify_all`.
  abbrev pub wake : Receiver A → Receiver A
  wake (asleep timed) = ready timed
  wake idle = idle
  wake (ready timed) = ready timed
  wake late = late
  wake (back b a) = back b a

  unfoldable pub fresh : System A
  fresh = record { deque = new_deque; receivers = λ i. idle }

  -- `default` is `T{}`.
  pub data Step (default : A) (s : System A) : Label A → System A → Type 0 where
    sends :
        (a : A)
        → Step default s
            (sent a)
            (record { deque = send a s.deque; receivers = λ i. wake (s.receivers i) })
    clears : Step default s (dropped s.deque.queue) (record s { deque = clear s.deque })
    calls :
        (i : ℕ) (timed : Bool)
        → s.receivers i ≡ idle
        → Step default s quiet (record s { receivers = update s.receivers i (ready timed) })
    takes :
        (i : ℕ) (timed : Bool) (a : A) (d : SynchronizedDeque A)
        → s.receivers i ≡ ready timed
        → receive s.deque ≡ some (a, d)
        → Step default s
            (taken a)
            (record { deque = d; receivers = update s.receivers i (back true a) })
    sleeps :
        (i : ℕ) (timed : Bool)
        → s.receivers i ≡ ready timed
        → is_not_empty s.deque ≡ false
        → Step default s quiet (record s { receivers = update s.receivers i (asleep timed) })
    wakes_spuriously :
        (i : ℕ) (timed : Bool)
        → s.receivers i ≡ asleep timed
        → Step default s quiet (record s { receivers = update s.receivers i (ready timed) })
    expires :
        (i : ℕ)
        → s.receivers i ≡ asleep true
        → Step default s quiet (record s { receivers = update s.receivers i late })
    -- The end of a timed wait, which tests its predicate once more.
    ends_late :
        (i : ℕ) (b : Bool) (a : A) (d : SynchronizedDeque A)
        → s.receivers i ≡ late
        → timed_receive default s.deque ≡ (b, a, d)
        → Step default s
            (if b then taken a else quiet)
            (record { deque = d; receivers = update s.receivers i (back b a) })

  pub data Steps (default : A) (s : System A) : List (Label A) → System A → Type 0 where
    here : Steps default s [] s
    later :
        {ls : List (Label A)} {l : Label A} {t u : System A}
        → Steps default s ls t
        → Step default t l u
        → Steps default s (ls ++ l ∷ []) u

  receive-order :
      (d e : SynchronizedDeque A) (a : A) → receive d ≡ some (a, e) → d.queue ≡ a ∷ e.queue
  unfolding receive is_not_empty get_front
  receive-order d e a h = ground (arith, h)

  timed-order :
      (default : A) (d e : SynchronizedDeque A) (b : Bool) (a : A)
      → timed_receive default d ≡ (b, a, e)
      → d.queue ≡ outs (if b then taken a else quiet) ++ e.queue
  unfolding timed_receive receive is_not_empty get_front
  timed-order default d e b a h = ground (arith, h)

  Step-order :
      {default : A} {s t : System A} {l : Label A}
      → Step default s l t
      → s.deque.queue ++ ins l ≡ outs l ++ t.deque.queue
  unfolding send clear
  Step-order (sends a) = refl
  Step-order {s = s} clears = refl
  Step-order {s = s} (calls i timed e) = append-nil s.deque.queue
  Step-order {s = s} (takes i timed a d e r) =
      append-nil s.deque.queue ∙ receive-order s.deque d a r
  Step-order {s = s} (sleeps i timed e f) = append-nil s.deque.queue
  Step-order {s = s} (wakes_spuriously i timed e) = append-nil s.deque.queue
  Step-order {s = s} (expires i e) = append-nil s.deque.queue
  Step-order {default = default} {s = s} (ends_late i b a d e r) =
      let nothing_in : ins (if b then taken a else quiet) ≡ [] = ground arith in
      rw nothing_in (append-nil s.deque.queue ∙ timed-order default s.deque d b a r)

  Steps-order :
      {default : A} {s t : System A} {ls : List (Label A)}
      → Steps default s ls t
      → s.deque.queue ++ all_of ins ls ≡ all_of outs ls ++ t.deque.queue
  Steps-order {s = s} here = append-nil s.deque.queue
  Steps-order {s = s} (later {ls = ls} {l = l} run step) =
      flow-snoc ins outs ls l s.deque.queue _ _ (Steps-order run) (Step-order step)

  -- A receiver that sleeps has nothing to take.
  NoneMissed : System A → Type 0
  NoneMissed s = (i : ℕ) (timed : Bool) → s.receivers i ≡ asleep timed → s.deque.queue ≡ []

  empty_queue : (d : SynchronizedDeque A) → is_not_empty d ≡ false → d.queue ≡ []
  unfolding is_not_empty
  empty_queue d e = ground (arith, e)

  right_empty : (xs ys : List A) → xs ++ ys ≡ [] → ys ≡ []
  right_empty [] ys e = e
  right_empty (x ∷ xs) ys e = absurd cc

  taken_rest :
      (d e : SynchronizedDeque A) (l : Label A)
      → d.queue ≡ outs l ++ e.queue
      → d.queue ≡ []
      → e.queue ≡ []
  taken_rest d e l f g = right_empty (outs l) e.queue (sym f ∙ g)

  Step-NoneMissed :
      {default : A} {s t : System A} {l : Label A}
      → Step default s l t
      → NoneMissed s
      → NoneMissed t
  unfolding NoneMissed clear
  Step-NoneMissed {s = s} (sends a) inv j u h = ground (arith, h)
  Step-NoneMissed clears inv j u h = refl
  Step-NoneMissed (calls i timed e) inv j u h = ground (arith, inv j u, h)
  Step-NoneMissed {s = s} (takes i timed a d e r) inv j u h =
      taken_rest s.deque d (taken a) (receive-order s.deque d a r) (ground (arith, inv j u, h))
  Step-NoneMissed {s = s} (sleeps i timed e f) inv j u h = empty_queue s.deque f
  Step-NoneMissed (wakes_spuriously i timed e) inv j u h = ground (arith, inv j u, h)
  Step-NoneMissed (expires i e) inv j u h = ground (arith, inv j u, h)
  Step-NoneMissed {default = default} {s = s} (ends_late i b a d e r) inv j u h =
      taken_rest s.deque d (if b then taken a else quiet) (timed-order default s.deque d b a r)
        (ground (arith, inv j u, h))

  Steps-NoneMissed :
      {default : A} {t : System A} {ls : List (Label A)} → Steps default fresh ls t → NoneMissed t
  unfolding NoneMissed fresh
  Steps-NoneMissed here = λ i timed e. cc
  Steps-NoneMissed (later run step) = Step-NoneMissed step (Steps-NoneMissed run)

  -- A receiver sleeps only while there is no message.
  abbrev pub IsServed : Receiver A → List A → Type 0
  IsServed (asleep timed) xs = xs ≡ []
  IsServed idle xs = Unit
  IsServed (ready timed) xs = Unit
  IsServed late xs = Unit
  IsServed (back b a) xs = Unit

  none_missed-IsServed :
      (r : Receiver A) (xs : List A) → ((timed : Bool) → r ≡ asleep timed → xs ≡ []) → IsServed r xs
  none_missed-IsServed (asleep timed) xs h = h timed refl
  none_missed-IsServed idle xs h = tt
  none_missed-IsServed (ready timed) xs h = tt
  none_missed-IsServed late xs h = tt
  none_missed-IsServed (back b a) xs h = tt

  -- Over any interleaving of any senders and receivers, with their sleeps, deadlines and spurious
  -- wake-ups: the messages that were received or cleared, followed by those that are left, are those
  -- that were sent, in that order and each once; and while a receiver sleeps there are none left.
  pub deque_concurrent :
      {default : A} {t : System A} {ls : List (Label A)}
      → Steps default fresh ls t
      → (all_of ins ls ≡ all_of outs ls ++ t.deque.queue)
        × ((i : ℕ) → IsServed (t.receivers i) t.deque.queue)
  unfolding fresh new_deque NoneMissed
  deque_concurrent {t = t} run = (
    Steps-order run,
    λ i. none_missed-IsServed (t.receivers i) t.deque.queue (Steps-NoneMissed run i),
  )
