-- ===== src/Task/EventTask/Turn.antt =====
-- One iteration of the loop: what is taken, run and answered.
use cpp_framework.Prelude.{◌≡◌, refl, Bool, true, List, [], ◌∷◌, arith}
use cpp_framework.Error.Outcome.{Outcome, returned, thrown, world_of, and_then}
use cpp_framework.Message.Interface.{IMessageQueue}
use cpp_framework.Task.EventTask.{
  Content, Program, EventTask, Reply, value, failed, iterate, settle, serve, respond, internal,
  external, stop_command,
}

-- What the promise is given for an outcome of the handler.
abbrev pub answer_of : {W : Type 0} → Outcome W Bool → Reply
answer_of (returned b w) = value b
answer_of (thrown f w) = failed f

module _ {C W : Type 0} (p : Program C W) where
  serve-external :
      (c : Content C) (stopped : Bool) (w : W)
      → c.attribute ≡ external
      → serve p c stopped w
        ≡ and_then (p.publish c.request.command c.request w) (λ b. returned (stopped, b))
  unfolding serve
  serve-external c stopped w ext = ground arith

  serve-stop :
      (c : Content C) (stopped : Bool) (w : W)
      → c.attribute ≡ internal
      → p.to_int c.request.command ≡ stop_command
      → serve p c stopped w ≡ returned (true, true) w
  unfolding serve
  serve-stop c stopped w int is_stop = ground arith

module _ {C W : Type 0} {q : IMessageQueue (Content C)} (p : Program C W) where
  -- With an empty queue the thread waits.
  pub iterate-empty : (t : EventTask C W q) → q.contents t.queue ≡ [] → iterate p t ≡ t
  unfolding iterate
  iterate-empty t e = rw (q.receive_blocks t.queue e, iterate)

  -- Otherwise it serves the oldest message and settles the result.
  pub iterate-oldest :
      (t : EventTask C W q) (c : Content C) (rest : List (Content C))
      → q.contents t.queue ≡ c ∷ rest
      → (queue : q.Q) × (q.contents queue ≡ rest)
        × (iterate p t ≡ settle t c queue (serve p c t.stopped t.world))
  unfolding iterate
  iterate-oldest t c rest e =
      let (queue, r, left) = q.receive_oldest t.queue c rest e in (queue, left, rw (r, iterate))

  settle_published :
      (t : EventTask C W q) (c : Content C) (queue : q.Q) (rest : List (Content C))
      → q.contents queue ≡ rest
      → (o : Outcome W Bool)
      → let t' = settle t c queue (and_then o (λ b. returned (t.stopped, b))) in
        (q.contents t'.queue ≡ rest)
        × (t'.replies ≡ respond c.response (answer_of o) t.replies)
        × (t'.world ≡ world_of o)
        × (t'.stopped ≡ t.stopped)
        × (t'.thread ≡ t.thread)
  unfolding settle
  settle_published t c queue rest left (returned b w) = (left, refl, refl, refl, refl)
  settle_published t c queue rest left (thrown f w) = (left, refl, refl, refl, refl)

  -- An external request is answered with its handler's result, or with the exception that it
  -- throws. Either way it leaves the queue, the thread goes on with `stopped_` as it was, and the
  -- handler's effects stay.
  pub iterate-external :
      (t : EventTask C W q) (c : Content C) (rest : List (Content C))
      → q.contents t.queue ≡ c ∷ rest
      → c.attribute ≡ external
      → let outcome = p.publish c.request.command c.request t.world in
        (q.contents (iterate p t).queue ≡ rest)
        × ((iterate p t).replies ≡ respond c.response (answer_of outcome) t.replies)
        × ((iterate p t).world ≡ world_of outcome)
        × ((iterate p t).stopped ≡ t.stopped)
        × ((iterate p t).thread ≡ t.thread)
  iterate-external t c rest e ext =
      let (queue, left, step) = iterate-oldest t c rest e in
      rw (step, serve-external p c t.stopped t.world ext)
        (settle_published t c queue rest left (p.publish c.request.command c.request t.world))

  -- An internal stop sets `stopped_` and answers true, and changes nothing else.
  pub iterate-stop :
      (t : EventTask C W q) (c : Content C) (rest : List (Content C))
      → q.contents t.queue ≡ c ∷ rest
      → c.attribute ≡ internal
      → p.to_int c.request.command ≡ stop_command
      → (q.contents (iterate p t).queue ≡ rest)
        × ((iterate p t).replies ≡ respond c.response (value true) t.replies)
        × ((iterate p t).world ≡ t.world)
        × ((iterate p t).stopped ≡ true)
        × ((iterate p t).thread ≡ t.thread)
  iterate-stop t c rest e int is_stop =
      let (queue, left, step) = iterate-oldest t c rest e in
      rw (step, serve-stop p c t.stopped t.world int is_stop)
        (unfold settle in (left, refl, refl, refl, refl))
