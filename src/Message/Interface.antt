-- ===== src/Message/Interface.antt =====
-- include/Message/IMessageQueue.hpp: the operations of a queue, and what a client relies on, over
-- the messages that it holds, oldest first. A call that blocks is `none`: the caller stays in it.
use cpp_framework.Prelude.{ℕ, ◌≡◌, Bool, Option, none, some, List, [], ◌∷◌, ◌++◌, length}

-- What `timed_receive` returns: the flag and the message, and the queue.
abbrev pub Timed : Type 0 → Type 0 → Type 0
Timed Q A = Bool × A × Q

pub record IMessageQueue (A : Type 0) : Type 1 where
  pub Q : Type 0
  pub empty : Q
  pub send : A → Q → Q
  pub receive : Q → Option (A × Q)
  pub timed_receive : Q → Timed Q A
  pub is_empty : Q → Bool
  pub clear : Q → Q
  pub num_message : Q → ℕ
  pub contents : Q → List A
  pub contents-empty : contents empty ≡ []
  pub contents-send : (a : A) (q : Q) → contents (send a q) ≡ contents q ++ a ∷ []
  pub receive_blocks : (q : Q) → contents q ≡ [] → receive q ≡ none
  pub receive_oldest :
      (q : Q) (a : A) (rest : List A)
      → contents q ≡ a ∷ rest
      → (q' : Q) × (receive q ≡ some (a, q')) × (contents q' ≡ rest)
  pub contents-clear : (q : Q) → contents (clear q) ≡ []
  pub num_message-length : (q : Q) → num_message q ≡ length (contents q)
