-- ===== src/Message/Deque.antt =====
-- include/Message/SynchronizedDeque.hpp: a FIFO queue behind one mutex. Each method holds the mutex
-- for the whole of its body, so it is one step; `receive` and `timed_receive` give the mutex up
-- while they wait, and are modelled from the moment at which they last hold it.
pub mod Laws
pub mod Fifo
pub mod Waiters
use cpp_framework.Prelude.{
  ℕ, ◌≡◌, refl, Bool, true, false, not, Option, none, some, List, [], ◌∷◌, ◌++◌, length, arith,
}
use cpp_framework.Message.Interface.{IMessageQueue, Timed}

pub record SynchronizedDeque (A : Type 0) : Type 0 where
  pub queue : List A

abbrev list_empty : {A : Type 0} → List A → Bool
list_empty [] = true
list_empty (x ∷ xs) = false

module _ {A : Type 0} where
  unfoldable pub new_deque : SynchronizedDeque A
  new_deque = record { queue = [] }

  -- `is_not_empty`, the predicate of both waits.
  unfoldable pub is_not_empty : SynchronizedDeque A → Bool
  is_not_empty d = not (list_empty d.queue)

  take_front : SynchronizedDeque A → List A → Option (A × SynchronizedDeque A)
  take_front d [] = none
  take_front d (x ∷ xs) = some (x, record { queue = xs })

  -- `get_front`; on an empty deque the source has undefined behaviour, here `none`.
  unfoldable pub get_front : SynchronizedDeque A → Option (A × SynchronizedDeque A)
  unfolding take_front
  get_front d = take_front d d.queue

  -- Both overloads of `send`: the copy and the moved message are the same value.
  unfoldable pub send : A → SynchronizedDeque A → SynchronizedDeque A
  send message d = record { queue = d.queue ++ message ∷ [] }

  -- `receive` goes on when its predicate holds.
  unfoldable pub receive : SynchronizedDeque A → Option (A × SynchronizedDeque A)
  unfolding is_not_empty get_front
  receive d = elim (is_not_empty d) [ true ↦ get_front d | false ↦ none ]

  timed_result :
      A → SynchronizedDeque A → Option (A × SynchronizedDeque A) → Timed (SynchronizedDeque A) A
  timed_result default d none = (false, default, d)
  timed_result default d (some (x, d')) = (true, x, d')

  -- `timed_receive` once `wait_for` has returned the predicate; `default` is `T{}`.
  unfoldable pub timed_receive : A → SynchronizedDeque A → Timed (SynchronizedDeque A) A
  unfolding receive timed_result
  timed_receive default d = timed_result default d (receive d)

  unfoldable pub clear : SynchronizedDeque A → SynchronizedDeque A
  clear d = record { queue = [] }

  unfoldable pub is_empty : SynchronizedDeque A → Bool
  is_empty d = list_empty d.queue

  unfoldable pub num_message : SynchronizedDeque A → ℕ
  num_message d = length d.queue

  pub receive_blocks_lem : (d : SynchronizedDeque A) → d.queue ≡ [] → receive d ≡ none
  unfolding receive
  receive_blocks_lem d h = ground arith

  pub receive_oldest_lem :
      (d : SynchronizedDeque A) (a : A) (rest : List A)
      → d.queue ≡ a ∷ rest
      → (d' : SynchronizedDeque A) × (receive d ≡ some (a, d')) × (d'.queue ≡ rest)
  unfolding receive
  receive_oldest_lem d a rest h = (record { queue = rest }, ground arith, refl)

  pub contents-new_deque : new_deque.queue ≡ []
  unfolding new_deque
  contents-new_deque = refl

  pub contents-send_lem : (a : A) (d : SynchronizedDeque A) → (send a d).queue ≡ d.queue ++ a ∷ []
  unfolding send
  contents-send_lem a d = refl

  pub contents-clear_lem : (d : SynchronizedDeque A) → (clear d).queue ≡ []
  unfolding clear
  contents-clear_lem d = refl

  pub num_message_lem : (d : SynchronizedDeque A) → num_message d ≡ length d.queue
  unfolding num_message
  num_message_lem d = refl

  -- The deque is an implementation of the interface.
  abbrev pub deque : A → IMessageQueue A
  deque default = record {
    Q = SynchronizedDeque A;
    empty = new_deque;
    send = send;
    receive = receive;
    timed_receive = timed_receive default;
    is_empty = is_empty;
    clear = clear;
    num_message = num_message;
    contents = λ d. d.queue;
    contents-empty = contents-new_deque;
    contents-send = contents-send_lem;
    receive_blocks = receive_blocks_lem;
    receive_oldest = receive_oldest_lem;
    contents-clear = contents-clear_lem;
    num_message-length = num_message_lem;
  }
