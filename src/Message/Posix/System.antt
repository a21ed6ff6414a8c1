-- ===== src/Message/Posix/System.antt =====
-- What the code relies on of the kernel's message queues (mq_overview(7)): the calls, and what they
-- do to an open descriptor whose messages all have one priority.
use cpp_framework.Prelude.{
  ℕ, ◌<◌, ◌≤◌, ◌≡◌, Bool, true, false, Option, List, [], ◌∷◌, ◌++◌, Text, length, ◌⊎◌,
}

abbrev pub Bytes : Type 0
Bytes = List ℕ

-- What a call answers: a value, or an errno.
pub data Result (A : Type 0) : Type 0 where
  ok : A → Result A
  err : ℕ → Result A

pub record Timespec : Type 0 where
  pub tv_sec : ℕ
  pub tv_nsec : ℕ

-- The attributes of a queue that is created.
pub record Creation : Type 0 where
  pub maxmsg : ℕ
  pub msgsize : ℕ

-- The calls, over the state of the kernel. `mq_open` takes the attributes with O_CREAT; of the
-- flags, `mq_setattr` takes O_NONBLOCK and answers the old one; `mq_getattr` answers mq_curmsgs.
pub record Kernel : Type 1 where
  pub State : Type 0
  pub eagain : ℕ
  pub etimedout : ℕ
  pub clock_gettime : State → Timespec
  pub mq_open : Text → Option Creation → State → Result ℕ × State
  pub mq_close : ℕ → State → State
  pub mq_unlink : Text → State → State
  pub mq_send : ℕ → Bytes → State → Result (Unit {0}) × State
  pub mq_receive : ℕ → ℕ → State → Result Bytes × State
  pub mq_timedreceive : ℕ → ℕ → Timespec → State → Result Bytes × State
  pub mq_setattr : ℕ → Bool → State → Result Bool × State
  pub mq_getattr : ℕ → State → Result ℕ × State

-- An open descriptor, as its holder sees it.
pub record Open : Type 0 where
  pub messages : List Bytes
  pub msgsize : ℕ
  pub nonblock : Bool

-- A send that returns has appended its message, or has failed and changed nothing. A receive with a
-- buffer that is large enough takes the oldest message where there is one; what a receive answers
-- was the oldest message, and one that fails takes nothing. On an empty queue it fails at once, with
-- EAGAIN, if the descriptor has O_NONBLOCK, with a deadline or without; if not, one with a deadline
-- of less than a second of nanoseconds fails with ETIMEDOUT when that expires, if nobody has sent
-- and no signal handler interrupts it. The attributes of an open descriptor
-- can be had.
pub record IsPosix (kernel : Kernel) (d : ℕ) (view : kernel.State → Open) : Type 0 where
  pub sends :
      (m : Bytes) (k : kernel.State)
      → ((k' : kernel.State) × (kernel.mq_send d m k ≡ (ok tt, k'))
          × (view k' ≡ record (view k) { messages = (view k).messages ++ m ∷ [] }))
        ⊎ ((e : ℕ) × (k' : kernel.State) × (kernel.mq_send d m k ≡ (err e, k'))
            × (view k' ≡ view k))
  pub receives :
      (size : ℕ) (k : kernel.State) (m : Bytes) (rest : List Bytes)
      → (view k).messages ≡ m ∷ rest
      → (view k).msgsize ≤ size
      → (k' : kernel.State) × (kernel.mq_receive d size k ≡ (ok m, k'))
        × (view k' ≡ record (view k) { messages = rest })
  pub takes :
      (size : ℕ) (k : kernel.State) (m : Bytes) (k' : kernel.State)
      → kernel.mq_receive d size k ≡ (ok m, k')
      → (rest : List Bytes) × ((view k).messages ≡ m ∷ rest)
        × (view k' ≡ record (view k) { messages = rest })
  pub takes_nothing :
      (size : ℕ) (k : kernel.State) (e : ℕ) (k' : kernel.State)
      → kernel.mq_receive d size k ≡ (err e, k')
      → view k' ≡ view k
  pub fails_on_empty :
      (size : ℕ) (k : kernel.State)
      → (view k).messages ≡ []
      → (view k).nonblock ≡ true
      → (k' : kernel.State) × (kernel.mq_receive d size k ≡ (err kernel.eagain, k'))
        × (view k' ≡ view k)
  pub receives_in_time :
      (size : ℕ) (t : Timespec) (k : kernel.State) (m : Bytes) (rest : List Bytes)
      → (view k).messages ≡ m ∷ rest
      → (view k).msgsize ≤ size
      → (k' : kernel.State) × (kernel.mq_timedreceive d size t k ≡ (ok m, k'))
        × (view k' ≡ record (view k) { messages = rest })
  pub times_out :
      (size : ℕ) (t : Timespec) (k : kernel.State)
      → (view k).messages ≡ []
      → (view k).nonblock ≡ false
      → t.tv_nsec < 1000000000
      → (k' : kernel.State) × (kernel.mq_timedreceive d size t k ≡ (err kernel.etimedout, k'))
        × (view k' ≡ view k)
  pub does_not_wait :
      (size : ℕ) (t : Timespec) (k : kernel.State)
      → (view k).messages ≡ []
      → (view k).nonblock ≡ true
      → (k' : kernel.State) × (kernel.mq_timedreceive d size t k ≡ (err kernel.eagain, k'))
        × (view k' ≡ view k)
  pub sets :
      (b : Bool) (k : kernel.State)
      → (k' : kernel.State) × (kernel.mq_setattr d b k ≡ (ok (view k).nonblock, k'))
        × (view k' ≡ record (view k) { nonblock = b })
  pub counts :
      (k : kernel.State)
      → (k' : kernel.State) × (kernel.mq_getattr d k ≡ (ok (length (view k).messages), k'))
        × (view k' ≡ view k)
