-- ===== src/Tests/Queues.antt =====
-- A kernel with one queue, whose state is what its one descriptor sees; objects are single bytes.
use cpp_framework.Prelude.{ℕ, ◌≡◌, refl, Bool, true, false, List, [], ◌∷◌, ◌++◌, length, inl, ap}
use cpp_framework.Message.Posix.System.{Bytes, Result, ok, err, Timespec, Kernel, Open, IsPosix}
use cpp_framework.Message.Posix.{send, receive, to_abs_timespec}
use cpp_framework.Message.Posix.Refines.{IsCopyable, Calls, none_yet, then_call, sends, receives}

-- A receive, whose errno on an empty queue this is.
abbrev take_oldest : ℕ → List Bytes → Open → Result Bytes × Open
take_oldest e [] o = (err e, o)
take_oldest e (m ∷ ms) o = (ok m, record o { messages = ms })

-- With a deadline: EAGAIN or ETIMEDOUT.
abbrev errno_of : Bool → ℕ
errno_of true = 11
errno_of false = 110

abbrev one_queue : Kernel
one_queue = record {
  State = Open;
  eagain = 11;
  etimedout = 110;
  clock_gettime = λ o. record { tv_sec = 5; tv_nsec = 0 };
  mq_open = λ name c o. (ok 3, o);
  mq_close = λ d o. o;
  mq_unlink = λ name o. o;
  mq_send = λ d m o. (ok tt, record o { messages = o.messages ++ m ∷ [] });
  mq_receive = λ d size o. take_oldest 11 o.messages o;
  mq_timedreceive = λ d size t o. take_oldest (errno_of o.nonblock) o.messages o;
  mq_setattr = λ d b o. (ok o.nonblock, record o { nonblock = b });
  mq_getattr = λ d o. (ok (length o.messages), o);
}

takes_lem :
    (b : ℕ) (ms : List Bytes) (k : Open) (m : Bytes) (k' : Open)
    → k.messages ≡ ms
    → take_oldest b ms k ≡ (ok m, k')
    → (rest : List Bytes) × (k.messages ≡ m ∷ rest) × (k' ≡ record k { messages = rest })
takes_lem b [] k m k' e h = absurd (cc)
takes_lem b (n ∷ ns) k m k' e h = (ns, cc, cc)

takes_nothing_lem :
    (b : ℕ) (ms : List Bytes) (k : Open) (n : ℕ) (k' : Open)
    → take_oldest b ms k ≡ (err n, k')
    → k' ≡ k
takes_nothing_lem b [] k n k' h = cc
takes_nothing_lem b (m ∷ ms) k n k' h = absurd (cc)

in_time :
    (k : Open) (n : ℕ)
    → k.messages ≡ []
    → errno_of k.nonblock ≡ n
    → take_oldest (errno_of k.nonblock) k.messages k ≡ (err n, k)
in_time k n e b = (λ i. take_oldest (b i) (e i) k)

one_queue-IsPosix : IsPosix one_queue 3 (λ o. o)
one_queue-IsPosix = record {
  sends = λ m k. inl (record k { messages = k.messages ++ m ∷ [] }, refl, refl);
  receives = λ size k m rest e fits. (record k { messages = rest }, rw e refl, refl);
  takes = λ size k m k' h. takes_lem 11 k.messages k m k' refl h;
  takes_nothing = λ size k n k' h. takes_nothing_lem 11 k.messages k n k' h;
  fails_on_empty = λ size k e b. (k, rw e refl, refl);
  receives_in_time = λ size t k m rest e fits.
      (record k { messages = rest }, ap (λ ms. take_oldest (errno_of k.nonblock) ms k) e, refl);
  times_out = λ size t k e b fits. (k, in_time k 110 e (ap errno_of b), refl);
  does_not_wait = λ size t k e b. (k, in_time k 11 e (ap errno_of b), refl);
  sets = λ b k. (record k { nonblock = b }, refl, refl);
  counts = λ k. (k, refl, refl);
}

abbrev of_byte : Bytes → ℕ
of_byte [] = 0
of_byte (b ∷ bytes) = b

byte-IsCopyable : IsCopyable (λ (n : ℕ). n ∷ []) of_byte 1 (0 ∷ [])
byte-IsCopyable = record { back = λ t. refl; sized = λ t. refl; buffer = refl }

-- A queue with this content.
abbrev holding : List Bytes → Open
holding ms = record { messages = ms; msgsize = 1; nonblock = false }

abbrev calls :
    Calls one_queue 3
      (λ o. o)
      one_queue-IsPosix
      (λ (n : ℕ). n ∷ [])
      of_byte
      1
      (0 ∷ [])
      byte-IsCopyable
      (holding ((7 ∷ []) ∷ []))
      (9 ∷ [])
      (7 ∷ [])
      (holding ((9 ∷ []) ∷ []))
unfolding send receive
calls =
    then_call (then_call none_yet (sends 9 (holding ((7 ∷ []) ∷ (9 ∷ []) ∷ [])) refl))
      (receives 7 (holding ((9 ∷ []) ∷ [])) refl)

abbrev half_past : Timespec
half_past = record { tv_sec = 5; tv_nsec = 500000000 }

-- Half a second and 1.7 seconds.
carried : to_abs_timespec 1700 half_past ≡ record { tv_sec = 7; tv_nsec = 200000000 }
unfolding to_abs_timespec
carried = refl
