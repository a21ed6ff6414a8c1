-- ===== src/Message/Posix/Refines.antt =====
-- The POSIX queue as a queue of objects, over a kernel that does what is documented.
use cpp_framework.Prelude.{
  ℕ, suc, ◌≤◌, ◌≡◌, refl, ap, ◌∙◌, false, List, [], ◌∷◌, ◌++◌, map, length, arith,
}
use cpp_framework.Error.Outcome.{returned, thrown, Fault}
use cpp_framework.Message.Posix.System.{Bytes, Kernel, Open, IsPosix}
use cpp_framework.Message.Posix.Deadline.{to_abs_timespec_exact}
use cpp_framework.Message.Posix.{
  num_message, counted, timed, timed_receive, to_abs_timespec, send, receive,
}

length-map {ℓ κ} :
    {A : Type ℓ} {B : Type κ} (f : A → B) (xs : List A) → length (map f xs) ≡ length xs
length-map f [] = refl
length-map f (x ∷ xs) = ap suc (length-map f xs)

-- The copies between an object and its bytes: `size` bytes, from which the object comes back, and
-- a buffer of that size.
pub record IsCopyable {T : Type 0} (to_bytes : T → Bytes) (of_bytes : Bytes → T) (size : ℕ)
    (garbage : Bytes) : Type 0 where
  pub back : (t : T) → of_bytes (to_bytes t) ≡ t
  pub sized : (t : T) → length (to_bytes t) ≡ size
  pub buffer : length garbage ≡ size

module _ (kernel : Kernel) (d : ℕ) (view : kernel.State → Open) (posix : IsPosix kernel d view)
    {T : Type 0} (to_bytes : T → Bytes) (of_bytes : Bytes → T) (size : ℕ) (garbage : Bytes)
    (copyable : IsCopyable to_bytes of_bytes size garbage) where
  -- The queue holds these objects, and its messages fit the buffer.
  abbrev pub Represents : kernel.State → List T → Type 0
  Represents k ts = ((view k).messages ≡ map to_bytes ts) × ((view k).msgsize ≤ size)

  -- A call of `send` or `receive` that returns or throws: what it has sent, and received.
  pub data Call (k : kernel.State) : List T → List T → kernel.State → Type 0 where
    sends :
        (t : T) (k' : kernel.State)
        → send kernel to_bytes of_bytes size garbage d t k ≡ returned tt k'
        → Call k (t ∷ []) [] k'
    cannot_send :
        (t : T) (f : Fault) (k' : kernel.State)
        → send kernel to_bytes of_bytes size garbage d t k ≡ thrown f k'
        → Call k [] [] k'
    receives :
        (t : T) (k' : kernel.State)
        → receive kernel to_bytes of_bytes size garbage d k ≡ returned t k'
        → Call k [] (t ∷ []) k'
    cannot_receive :
        (f : Fault) (k' : kernel.State)
        → receive kernel to_bytes of_bytes size garbage d k ≡ thrown f k'
        → Call k [] [] k'

  pub data Calls (k : kernel.State) : List T → List T → kernel.State → Type 0 where
    none_yet : Calls k [] [] k
    then_call :
        {ins outs more got : List T} {k' k'' : kernel.State}
        → Calls k ins outs k'
        → Call k' more got k''
        → Calls k (ins ++ more) (outs ++ got) k''

  unchanged :
      (k k' : kernel.State) (ts : List T) → view k' ≡ view k → Represents k ts → Represents k' ts
  unchanged k k' ts v r = rw v r

  -- num_message counts the objects that are there, and changes nothing; with none there, a timed
  -- receive on a descriptor that blocks answers false with the default object.
  pub posix_observes :
      (ts : List T) (k : kernel.State)
      → Represents k ts
      → (default : T) (ms : ℕ)
      → ((k' : kernel.State) × (num_message kernel d k ≡ returned (length ts) k')
          × Represents k' ts)
        × ((view k).messages ≡ []
            → (view k).nonblock ≡ false
            → (k' : kernel.State) × (timed_receive kernel to_bytes of_bytes size garbage default d
                  ms k
                ≡ returned (false, default) k')
              × Represents k' ts)
  unfolding num_message timed_receive counted timed
  posix_observes ts k r default ms =
      let (k', call, v) = posix.counts k in
      (
        (
          k',
          rw call (ap (λ n. returned n k') (ap length r.0 ∙ length-map to_bytes ts)),
          unchanged k k' ts v r,
        ),
        λ e blocks.
            let (k2, call2, v2) =
              posix.times_out size (to_abs_timespec ms (kernel.clock_gettime k)) k e blocks
                (to_abs_timespec_exact ms (kernel.clock_gettime k)).1 in
            (k2, rw call2 (ground arith), unchanged k k2 ts v2 r),
      )
