-- ===== src/Tests/Deques.antt =====
-- A receiver of a deque that sleeps until a message comes, and a second message that stays.
use cpp_framework.Prelude.{ℕ, ◌≡◌, refl, false, List, [], ◌∷◌, ◌++◌, all_of, ℕ_discrete}
use cpp_framework.Message.Deque.{new_deque, send, receive, is_not_empty, get_front}
use cpp_framework.Message.Deque.Waiters.{
  System, Label, quiet, sent, taken, ins, outs, IsServed, fresh, Steps, here, later, calls, sleeps,
  sends, takes, deque_concurrent,
}

abbrev labels : List (Label ℕ)
labels = quiet ∷ quiet ∷ sent 7 ∷ sent 8 ∷ taken 7 ∷ []

reached : (t : System ℕ) × Steps 0 fresh labels t
unfolding fresh new_deque send receive is_not_empty get_front ℕ_discrete
reached = (
  _,
  later
      (later (later (later (later here (calls 0 false refl)) (sleeps 0 false refl refl)) (sends 7))
        (sends 8))
      (takes 0 false 7 (record { queue = 8 ∷ [] }) refl refl),
)

deque_concurrent_example :
    (all_of ins labels ≡ all_of outs labels ++ reached.0.deque.queue)
    × ((i : ℕ) → IsServed (reached.0.receivers i) reached.0.deque.queue)
deque_concurrent_example = deque_concurrent reached.1
