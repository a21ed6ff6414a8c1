-- ===== src/Task/EventTask/Answers.antt =====
-- Every reply that a client waits for is in the queue exactly once, and every one in the queue is
-- waited for: no promise is satisfied twice, and none is dropped while the thread runs.
use cpp_framework.Prelude.{
  ℕ, ◌≡◌, ◌≢◌, refl, Bool, true, false, some, List, [], ◌∷◌, arith, ap, get_elem?,
}
use cpp_framework.Error.Outcome.{Outcome, returned, thrown}
use cpp_framework.Message.Interface.{IMessageQueue}
use cpp_framework.Task.Request.{Request, new_request_empty}
use cpp_framework.Task.EventTask.{
  Content, Program, EventTask, Attribute, pending, iterate, settle, finish, internal, stop_command,
}
use cpp_framework.Task.EventTask.Api.{Sender, post, start, stop, send_event, rpc_event}
use cpp_framework.Task.EventTask.Queue.{
  occurs, is_pending, pending_at, occurs-append, pending_at-append, pending_at-respond, by_value,
  by_fault,
}
use cpp_framework.Task.EventTask.Turn.{iterate-empty, iterate-oldest}
use cpp_framework.Task.EventTask.System.{
  new_task, Step, Steps, starts, stops, sends, rpcs, turns, ends, joins, here, later,
}

module _ {C W : Type 0} {q : IMessageQueue (Content C)} where
  -- The number of times that a reply stands in the queue is 1 if it is pending, and else 0.
  abbrev pub IsTracked : EventTask C W q → Type 0
  IsTracked t = (i : ℕ) → occurs i (q.contents t.queue) ≡ pending_at i t.replies

  post-IsTracked :
      (attribute : Attribute) (need : Bool) (request : Request C) (t : EventTask C W q)
      → IsTracked t
      → IsTracked (post attribute need request t).1
  unfolding post
  post-IsTracked attribute true request t inv i = rw (
    q.contents-send _ t.queue,
    occurs-append i (q.contents t.queue) _,
    pending_at-append i t.replies,
    inv i,
  )
  post-IsTracked attribute false request t inv i =
      rw (q.contents-send _ t.queue, occurs-append i (q.contents t.queue) _) (omega (arith, inv i))

  settle-IsTracked :
      (t : EventTask C W q) (c : Content C) (rest : List (Content C)) (queue : q.Q)
      (o : Outcome W (Bool × Bool))
      → q.contents t.queue ≡ c ∷ rest
      → q.contents queue ≡ rest
      → IsTracked t
      → IsTracked (settle t c queue o)
  unfolding settle
  settle-IsTracked t c rest queue (returned (s, b) w) e left inv i = rw left (
      omega
        (arith, pending_at-respond i c.response _ t.replies (by_value b), ap (occurs i) e, inv i))
  settle-IsTracked t c rest queue (thrown f w) e left inv i = rw left (
      omega
        (arith, pending_at-respond i c.response _ t.replies (by_fault f), ap (occurs i) e, inv i))

  iterate-IsTracked :
      (p : Program C W) (t : EventTask C W q) (xs : List (Content C))
      → q.contents t.queue ≡ xs
      → IsTracked t
      → IsTracked (iterate p t)
  iterate-IsTracked p t [] e inv = rw (iterate-empty p t e) inv
  iterate-IsTracked p t (c ∷ rest) e inv =
      let (queue, left, step) = iterate-oldest p t c rest e in
      rw step (settle-IsTracked t c rest queue _ e left inv)

  pub stop-eq :
      (p : Program C W) (t t' : EventTask C W q) (s : Sender)
      → stop p t ≡ some (s, t')
      → t' ≡ (post internal true (new_request_empty [] (p.of_int stop_command)) t).1
  unfolding stop
  stop-eq p t t' s e = ground arith

  pub finish-same :
      (p : Program C W) (t t' : EventTask C W q)
      → finish p t ≡ some t'
      → (t'.queue ≡ t.queue) × (t'.replies ≡ t.replies)
  unfolding finish
  finish-same p t t' e = ground arith

  Step-IsTracked :
      {p : Program C W} {t t' : EventTask C W q} → Step p t t' → IsTracked t → IsTracked t'
  unfolding start send_event rpc_event
  Step-IsTracked {p} {t} starts inv = post-IsTracked _ true _ t inv
  Step-IsTracked {p} {t} {t'} (stops {s = s} e) inv =
      rw (stop-eq p t t' s e) (post-IsTracked _ true _ t inv)
  Step-IsTracked {p} {t} (sends request) inv = post-IsTracked _ false request t inv
  Step-IsTracked {p} {t} (rpcs request) inv = post-IsTracked _ true request t inv
  Step-IsTracked {p} {t} (turns a b) inv = iterate-IsTracked p t (q.contents t.queue) refl inv
  Step-IsTracked {p} {t} {t'} (ends a b e) inv =
      let (same, replies) = finish-same p t t' e in rw (same, replies) inv
  Step-IsTracked (joins e) inv = inv

  -- From the constructor on, over any calls of any clients and any progress of the thread, each
  -- reply index stands in the queue once if its reply is pending and never otherwise.
  pub Steps-IsTracked :
      {p : Program C W} (w : W) {t : EventTask C W q} → Steps p (new_task w) t → IsTracked t
  unfolding new_task
  Steps-IsTracked w here = λ i. rw q.contents-empty
  Steps-IsTracked w (later steps step) = Step-IsTracked step (Steps-IsTracked w steps)

  -- So when the queue is empty no client waits for a reply: every request that asked for one has
  -- been answered by a value or by an exception.
  pub idle_answered :
      {p : Program C W} (w : W) {t : EventTask C W q} (i : ℕ)
      → Steps p (new_task w) t
      → q.contents t.queue ≡ []
      → get_elem? t.replies i ≢ some pending
  idle_answered w {t} i steps e waits =
      omega (arith, Steps-IsTracked w steps i, ap (occurs i) e, ap is_pending waits)
