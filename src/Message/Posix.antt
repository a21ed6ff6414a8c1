-- ===== src/Message/Posix.antt =====
-- include/Message/PosixMessageQueue.hpp: a message queue of the kernel. The calls of the kernel are
-- parameters, as they answer when they return; a call that blocks has not returned yet.
pub mod System
pub mod Deadline
pub mod Refines
use Prim.Native.Nat.{◌+◌, ◌*◌, ◌/◌, ◌%◌}
use cpp_framework.Prelude.{
  ℕ, zero, suc, Bool, true, false, Option, none, some, List, [], ◌∷◌, Text, text, ◌==◌, not, ◌||◌,
  if◌then◌else◌,
}
use cpp_framework.Error.{new_exception, new_system_exception, invalid_argument, system_error}
use cpp_framework.Error.Outcome.{
  M, Outcome, returned, thrown, framework, pure, and_then, ◌>>=◌, ◌>>◌,
}
use cpp_framework.Message.Posix.System.{Bytes, Result, ok, err, Timespec, Kernel, Creation}

-- `mqd` is `none` for -1.
pub record PosixMessageQueue : Type 0 where
  pub mqd : Option ℕ
  pub name : Text
  pub owner : Bool

-- `name.empty() || name[0] != '/'`.
unfoldable pub is_bad_name : Text → Bool
is_bad_name [] = true
is_bad_name (c ∷ cs) = not (c == b'/')

-- `to_abs_timespec` on the time that the clock reads.
unfoldable pub to_abs_timespec : ℕ → Timespec → Timespec
to_abs_timespec ms ts =
    let extra_ns = ms * 1000000 in
    let nsec = ts.tv_nsec + extra_ns % 1000000000 in
    let sec = ts.tv_sec + (ms / 1000 + nsec / 1000000000) in
    record { tv_sec = sec; tv_nsec = nsec % 1000000000 }

-- What a buffer with these bytes holds after a shorter message was read into it.
unfoldable pub fill : Bytes → Bytes → Bytes
fill [] buf = buf
fill (b ∷ bytes) [] = []
fill (b ∷ bytes) (c ∷ buf) = b ∷ fill bytes buf

module _ (kernel : Kernel) where
  abbrev pub K : Type 0
  K = kernel.State

  abbrev pub fail_with : {A : Type 0} → Text → ℕ → M K A
  fail_with message errno k =
      thrown (framework (new_system_exception message errno system_error).exception) k

  validate_name : Text → M K (Unit {0})
  unfolding is_bad_name
  validate_name name k =
      if is_bad_name name
      then thrown
          (framework (
            new_exception (text "PosixMessageQueue: queue name must start with '/'")
              invalid_argument))
          k
      else returned tt k

  opened : Text → Text → Bool → Result ℕ × K → Outcome K PosixMessageQueue
  opened message name owner (ok d, k) =
      returned (record { mqd = some d; name = name; owner = owner }) k
  opened message name owner (err errno, k) = fail_with message errno k

  -- The constructor of an owner.
  unfoldable pub open_owner : Text → ℕ → ℕ → M K PosixMessageQueue
  unfolding validate_name opened
  open_owner name max_msg msg_size = validate_name name >> (λ k.
      opened (text "PosixMessageQueue: mq_open(O_CREAT) failed") name true
        (kernel.mq_open name (some (record { maxmsg = max_msg; msgsize = msg_size })) k))

  -- The constructor that attaches to a queue that is there.
  unfoldable pub attach : Text → M K PosixMessageQueue
  unfolding validate_name opened
  attach name = validate_name name >> (λ k.
      opened (text "PosixMessageQueue: mq_open(attach) failed") name false
        (kernel.mq_open name none k))

  -- The destructor.
  unfoldable pub destroy : PosixMessageQueue → K → K
  destroy q k =
      let k' : K = elim q.mqd [ none ↦ k | some d ↦ kernel.mq_close d k ] in
      if q.owner then kernel.mq_unlink q.name k' else k'

  counted : Result ℕ × K → Outcome K ℕ
  counted (ok n, k) = returned n k
  counted (err errno, k) = fail_with (text "PosixMessageQueue::num_message failed") errno k

  unfoldable pub num_message : ℕ → M K ℕ
  unfolding counted
  num_message d k = counted (kernel.mq_getattr d k)

  unfoldable pub is_empty : ℕ → M K Bool
  unfolding num_message
  is_empty d k = and_then (num_message d k) (λ n. returned (n == 0))

  -- A round of the loop of `clear`.
  drained : Result Bytes × K → (K → Option K) → Option K
  drained (ok bytes, k) rest = rest k
  drained (err errno, k) rest = some k

  -- The element type: its bytes, the object that bytes stand for, and what an array of its size
  -- holds before it is written.
  module _ {T : Type 0} (to_bytes : T → Bytes) (of_bytes : Bytes → T) (size : ℕ)
      (garbage : Bytes) where
    sent : Result (Unit {0}) × K → Outcome K (Unit {0})
    sent (ok _, k) = returned tt k
    sent (err errno, k) = fail_with (text "PosixMessageQueue::send failed") errno k

    -- `do_send` and the two overloads of `send`, on the descriptor of the queue.
    unfoldable pub send : ℕ → T → M K (Unit {0})
    unfolding sent
    send d message k = sent (kernel.mq_send d (to_bytes message) k)

    received : Result Bytes × K → Outcome K T
    unfolding fill
    received (ok bytes, k) = returned (of_bytes (fill bytes garbage)) k
    received (err errno, k) = fail_with (text "PosixMessageQueue::receive failed") errno k

    unfoldable pub receive : ℕ → M K T
    unfolding received
    receive d k = received (kernel.mq_receive d size k)

    -- The object is the default one where the flag is false.
    timed : T → Result Bytes × K → Outcome K (Bool × T)
    unfolding fill
    timed default (ok bytes, k) = returned (true, of_bytes (fill bytes garbage)) k
    timed default (err errno, k) =
        if errno == kernel.etimedout
        then returned (false, default) k
        else fail_with (text "PosixMessageQueue::timed_receive failed") errno k

    unfoldable pub timed_receive : T → ℕ → ℕ → M K (Bool × T)
    unfolding timed to_abs_timespec
    timed_receive default d ms k =
        timed default
          (kernel.mq_timedreceive d size (to_abs_timespec ms (kernel.clock_gettime k)) k)

    -- The loop of `clear`, which ends at the first error, for at most this many rounds.
    unfoldable pub drain : ℕ → ℕ → K → Option K
    unfolding drained
    drain zero d k = none
    drain (suc fuel) d k = drained (kernel.mq_receive d size k) (drain fuel d)

    -- Behind the loop: the destructor of `AttrRestorer`.
    reset_flag : ℕ → Bool → Option K → Option (Outcome K (Unit {0}))
    reset_flag d old none = none
    reset_flag d old (some k) = some (returned tt (kernel.mq_setattr d old k).1)

    -- Behind the change of the flag.
    restored : ℕ → ℕ → Result Bool × K → Option (Outcome K (Unit {0}))
    unfolding drain reset_flag
    restored fuel d (err errno, k) =
        some (fail_with (text "PosixMessageQueue::clear failed to set nonblock") errno k)
    restored fuel d (ok old, k) = reset_flag d old (drain fuel d k)

    unfoldable pub clear : ℕ → ℕ → K → Option (Outcome K (Unit {0}))
    unfolding restored
    clear fuel d k = restored fuel d (kernel.mq_setattr d true k)
