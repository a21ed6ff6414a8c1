-- ===== src/Task/EventTask/Serves.antt =====
-- The loop against the plain reading of it: the messages served one by one, oldest first.
use cpp_framework.Prelude.{
  ℕ, zero, suc, ◌≤◌, ◌≡◌, refl, ◌∙◌, ap, false, List, [], ◌∷◌, length, arith, All,
}
use cpp_framework.Error.Outcome.{world_of}
use cpp_framework.Message.Interface.{IMessageQueue}
use cpp_framework.Task.EventTask.{
  Content, Program, EventTask, Reply, external, iterate, loop, respond,
}
use cpp_framework.Task.EventTask.Turn.{iterate-empty, iterate-external, answer_of}
use cpp_framework.Task.EventTask.Drain.{loop-zero, loop-step}

module _ {C W : Type 0} (p : Program C W) where
  -- The world that the handlers of these messages leave, one after the other.
  unfoldable pub served_world : List (Content C) → W → W
  served_world [] w = w
  served_world (c ∷ cs) w = served_world cs (world_of (p.publish c.request.command c.request w))

  -- The replies that they leave.
  unfoldable pub served_replies : List (Content C) → W → List Reply → List Reply
  served_replies [] w replies = replies
  served_replies (c ∷ cs) w replies =
      let o = p.publish c.request.command c.request w in
      served_replies cs (world_of o) (respond c.response (answer_of o) replies)

abbrev pub AllExternal : {C : Type 0} → List (Content C) → Type 0
AllExternal cs = All (λ c. c.attribute ≡ external) cs

module _ {C W : Type 0} {q : IMessageQueue (Content C)} (p : Program C W) where
  -- Enough rounds of the loop on a queue of external requests come to the same as the handlers
  -- called one after the other, oldest request first: the same world, each reply given where it is
  -- awaited, and the queue empty.
  pub loop-serves :
      (rounds : ℕ) (t : EventTask C W q) (cs : List (Content C))
      → q.contents t.queue ≡ cs
      → t.stopped ≡ false
      → AllExternal cs
      → length cs ≤ rounds
      → (q.contents (loop rounds p t).queue ≡ [])
        × ((loop rounds p t).world ≡ served_world p cs t.world)
        × ((loop rounds p t).replies ≡ served_replies p cs t.world t.replies)
  unfolding served_world served_replies
  loop-serves zero t [] e go ext enough = rw (loop-zero p t) (e, refl, refl)
  loop-serves zero t (c ∷ cs) e go ext enough = absurd (omega arith)
  loop-serves (suc rounds) t [] e go ext enough =
      rw (loop-step p rounds t go, iterate-empty p t e)
        (loop-serves rounds t [] e go tt (omega arith))
  loop-serves (suc rounds) t (c ∷ cs) e go ext enough =
      let (left, replies, world, still, _) = iterate-external p t c cs e ext.0 in
      let (done, w, r) =
        loop-serves rounds (iterate p t) cs left (still ∙ go) ext.1 (omega arith) in
      rw (loop-step p rounds t go) (
        done,
        w ∙ ap (served_world p cs) world,
        r ∙ (λ i. served_replies p cs (world i) (replies i)),
      )
