-- ===== src/Message/Deque/Laws.antt =====
-- The methods that look at the deque, on every branch.
use cpp_framework.Prelude.{
  ◌≡◌, refl, true, false, not, some, none, [], ◌∷◌, List, ◌⊎◌, inl, inr, arith, ◌==◌,
}
use cpp_framework.Message.Deque.{
  SynchronizedDeque, receive, timed_receive, is_empty, num_message, is_not_empty, clear,
}

module _ {A : Type 0} where
  timed_cases :
      (default : A) (d : SynchronizedDeque A) (q : List A)
      → d.queue ≡ q
      → ((is_empty d ≡ true) × (receive d ≡ none) × (timed_receive default d ≡ (false, default, d)))
        ⊎ ((a : A) × (d' : SynchronizedDeque A) × (d.queue ≡ a ∷ d'.queue)
            × (receive d ≡ some (a, d'))
            × (timed_receive default d ≡ (true, a, d')))
  unfolding is_empty receive timed_receive
  timed_cases default d [] e = inl (ground arith)
  timed_cases default d (a ∷ rest) e =
      inr (a, record { queue = rest }, ground arith, ground arith, ground arith)

  -- On an empty deque `receive` blocks and a timed receive ends with `false` and changes nothing;
  -- on any other both take the oldest message, and the timed one returns `true`.
  pub receive_cases :
      (default : A) (d : SynchronizedDeque A)
      → ((is_empty d ≡ true) × (receive d ≡ none) × (timed_receive default d ≡ (false, default, d)))
        ⊎ ((a : A) × (d' : SynchronizedDeque A) × (d.queue ≡ a ∷ d'.queue)
            × (receive d ≡ some (a, d'))
            × (timed_receive default d ≡ (true, a, d')))
  receive_cases default d = timed_cases default d d.queue refl

  sizes : (d : SynchronizedDeque A) (q : List A) → d.queue ≡ q → is_empty d ≡ (num_message d == 0)
  unfolding is_empty num_message
  sizes d [] e = ground arith
  sizes d (a ∷ rest) e = ground arith

  -- `is_empty`, `num_message` and the predicate of the waits agree, and a cleared deque is empty.
  pub is_empty-num_message :
      (d : SynchronizedDeque A)
      → (is_empty d ≡ (num_message d == 0))
        × (is_not_empty d ≡ not (is_empty d))
        × (num_message (clear d) ≡ 0)
  unfolding is_not_empty clear is_empty num_message
  is_empty-num_message d = (sizes d d.queue refl, refl, refl)
