-- ===== src/Message/Deque/Fifo.antt =====
-- First in, first out, over any interleaving of sends and receives.
use mathlib.Core.List.{append_assoc, append-nil}
use cpp_framework.Prelude.{◌≡◌, refl, sym, ap, ◌∙◌, some, List, [], ◌∷◌, ◌++◌, arith}
use cpp_framework.Message.Deque.{SynchronizedDeque, send, receive}

module _ {A : Type 0} where
  -- One completed call: a send, or a receive that returned this message.
  pub data Call (d : SynchronizedDeque A) : List A → List A → SynchronizedDeque A → Type 0 where
    sends : (a : A) → Call d (a ∷ []) [] (send a d)
    receives : {a : A} {d' : SynchronizedDeque A} → receive d ≡ some (a, d') → Call d [] (a ∷ []) d'

  -- The calls of any number of threads, in the order of the mutex, with what was sent and received.
  pub data Calls (d : SynchronizedDeque A) : List A → List A → SynchronizedDeque A → Type 0 where
    none_yet : Calls d [] [] d
    then_call :
        {ins outs more got : List A} {e f : SynchronizedDeque A}
        → Calls d ins outs e
        → Call e more got f
        → Calls d (ins ++ more) (outs ++ got) f

  receives_lem :
      (d : SynchronizedDeque A) (q : List A) {a : A} {d' : SynchronizedDeque A}
      → d.queue ≡ q
      → receive d ≡ some (a, d')
      → d.queue ≡ a ∷ d'.queue
  unfolding receive
  receives_lem d [] e h = ground arith
  receives_lem d (x ∷ xs) e h = ground arith

  Call-balance :
      {d e : SynchronizedDeque A} {ins outs : List A}
      → Call d ins outs e
      → d.queue ++ ins ≡ outs ++ e.queue
  unfolding send
  Call-balance (sends a) = refl
  Call-balance {d} (receives h) = append-nil d.queue ∙ receives_lem d d.queue refl h

  -- From any deque: what was received, followed by what is left, is what was there followed by what
  -- was sent, in order. Nothing is lost, made up, or overtakes.
  pub deque_fifo :
      {d e : SynchronizedDeque A} {ins outs : List A}
      → Calls d ins outs e
      → d.queue ++ ins ≡ outs ++ e.queue
  deque_fifo {d} none_yet = append-nil d.queue
  deque_fifo {d} (then_call {ins = i} {outs = o} {more = m} {got = g} {e = e} {f = f} calls call) =
      sym (append_assoc d.queue i m)
      ∙ ap (λ xs. xs ++ m) (deque_fifo calls)
      ∙ append_assoc o e.queue m
      ∙ ap (λ xs. o ++ xs) (Call-balance call)
      ∙ sym (append_assoc o g f.queue)
