-- ===== src/Task/EventTask/Stopped.antt =====
-- A task whose thread has left its loop: what is sent to it is never answered.
use cpp_framework.Prelude.{
  ℕ, ◌≡◌, ◌≢◌, Bool, true, false, some, [], ◌∷◌, length, get_elem?, get_elem?-append_left,
  get_elem?-append_last, get_elem?-lt, ◌∙◌,
}
use cpp_framework.Message.Interface.{IMessageQueue}
use cpp_framework.Task.Request.{Request, new_request_empty}
use cpp_framework.Task.EventTask.{
  Content, Program, EventTask, Attribute, internal, external, start_command, pending, looping,
}
use cpp_framework.Task.EventTask.Api.{
  Sender, post, start, stop, send_event, rpc_event, wait_for_response, wait_forever, blocked,
}
use cpp_framework.Task.EventTask.Answers.{stop-eq}
use cpp_framework.Task.EventTask.System.{
  Step, Steps, starts, stops, sends, rpcs, turns, ends, joins, here, later,
}

module _ {C W : Type 0} {q : IMessageQueue (Content C)} where
  -- The thread has left its loop, and this reply has not come.
  abbrev pub Abandoned : ℕ → EventTask C W q → Type 0
  Abandoned i t = (t.thread ≢ looping) × (get_elem? t.replies i ≡ some pending)

  post-Abandoned :
      (i : ℕ) (attribute : Attribute) (need : Bool) (request : Request C) (t : EventTask C W q)
      → Abandoned i t
      → Abandoned i (post attribute need request t).1
  unfolding post
  post-Abandoned i attribute true request t (out, waits) = (
    out,
    get_elem?-append_left t.replies (pending ∷ []) i (get_elem?-lt t.replies i waits) ∙ waits,
  )
  post-Abandoned i attribute false request t (out, waits) = (out, waits)

  stop-Abandoned :
      (i : ℕ) (p : Program C W) (t t' : EventTask C W q) (s : Sender)
      → stop p t ≡ some (s, t')
      → Abandoned i t
      → Abandoned i t'
  stop-Abandoned i p t t' s e gone = rw (stop-eq p t t' s e) (post-Abandoned i _ true _ t gone)

  Step-Abandoned :
      (i : ℕ) {p : Program C W} {t t' : EventTask C W q}
      → Step p t t'
      → Abandoned i t
      → Abandoned i t'
  unfolding start send_event rpc_event
  Step-Abandoned i {p} {t} starts gone =
      post-Abandoned i internal true (new_request_empty [] (p.of_int start_command)) t gone
  Step-Abandoned i {p} {t} {t'} (stops {s = s} e) gone = stop-Abandoned i p t t' s e gone
  Step-Abandoned i {p} {t} (sends request) gone = post-Abandoned i external false request t gone
  Step-Abandoned i {p} {t} (rpcs request) gone = post-Abandoned i external true request t gone
  Step-Abandoned i (turns a b) gone = absurd (gone.0 a)
  Step-Abandoned i (ends a b e) gone = absurd (gone.0 a)
  Step-Abandoned i (joins e) gone = ((λ h. cc), gone.1)

  Steps-Abandoned :
      (i : ℕ) {p : Program C W} {t t' : EventTask C W q}
      → Steps p t t'
      → Abandoned i t
      → Abandoned i t'
  Steps-Abandoned i here gone = gone
  Steps-Abandoned i (later steps step) gone = Step-Abandoned i step (Steps-Abandoned i steps gone)

  -- A request that waits when the loop has ended waits for ever: no later call of any client and
  -- no progress of the thread answers it.
  pub abandoned_for_ever :
      (i : ℕ) {p : Program C W} {t t' : EventTask C W q}
      → t.thread ≢ looping
      → get_elem? t.replies i ≡ some pending
      → Steps p t t'
      → get_elem? t'.replies i ≡ some pending
  abandoned_for_ever i out waits steps = (Steps-Abandoned i steps (out, waits)).1

  -- In particular `rpc_event` without a timeout on such a task never returns.
  pub rpc_event_blocks :
      {p : Program C W} (request : Request C) (t : EventTask C W q) {t' : EventTask C W q}
      → t.thread ≢ looping
      → Steps p (rpc_event request t).1 t'
      → wait_for_response (rpc_event request t).0 wait_forever t'.replies ≡ blocked
  unfolding rpc_event wait_for_response
  rpc_event_blocks request t {t'} out steps =
      let waits =
        abandoned_for_ever (length t.replies) out (get_elem?-append_last t.replies pending) steps in
      rw waits
