-- ===== src/Task/EventTask/Halting.antt =====
-- The loop up to the first stop, against the effects of its messages one after the other.
use cpp_framework.Prelude.{
  ℕ, zero, suc, ◌<◌, ◌≡◌, refl, ap, ◌∙◌, Bool, true, false, Option, none, some, List, [], ◌∷◌, ◌++◌,
  length, arith, All, ◌==◌, if◌then◌else◌,
}
use cpp_framework.Error.Outcome.{Outcome, returned, thrown, M, and_then, world_of}
use cpp_framework.Message.Interface.{IMessageQueue}
use cpp_framework.Task.EventTask.{
  Content, Program, EventTask, Reply, value, internal, is_internal, start_command, stop_command,
  iterate, loop, respond, settle, serve,
}
use cpp_framework.Task.EventTask.Turn.{answer_of, iterate-oldest, iterate-stop}
use cpp_framework.Task.EventTask.Drain.{stops, iterate-harmless, loop-step, loop-stopped}

module _ {C W : Type 0} (p : Program C W) where
  -- What is called for a message that is no stop: the start handler if there is one, or the
  -- handler of the request's command.
  unfoldable pub effect_of : Content C → M W Bool
  effect_of c w =
      if is_internal c.attribute
      then if p.to_int c.request.command == start_command
        then elim p.on_start [
          | none ↦ returned true w
          | some f ↦ and_then (f w) (λ _. returned true)
        ]
        else returned true w
      else p.publish c.request.command c.request w

  -- The world that these messages leave, one after the other, and the replies.
  unfoldable pub world_after : List (Content C) → W → W
  world_after [] w = w
  world_after (c ∷ cs) w = world_after cs (world_of (effect_of c w))

  unfoldable pub replies_after : List (Content C) → W → List Reply → List Reply
  replies_after [] w replies = replies
  replies_after (c ∷ cs) w replies =
      let o = effect_of c w in
      replies_after cs (world_of o) (respond c.response (answer_of o) replies)

  answer_started :
      (o : Outcome W (Unit {0})) (stopped : Bool)
      → and_then {B = Bool × Bool} (and_then o (λ _. returned stopped)) (λ s. returned (s, true))
        ≡ and_then (and_then o (λ _. returned true)) (λ b. returned (stopped, b))
  answer_started (returned u w) stopped = refl
  answer_started (thrown f w) stopped = refl

  answer_start :
      (o : Option (M W (Unit {0}))) (stopped : Bool) (w : W)
      → and_then {B = Bool × Bool}
          (elim o [ none ↦ returned stopped w | some f ↦ and_then (f w) (λ _. returned stopped) ])
          (λ s. returned (s, true))
        ≡ and_then
            (elim o [ none ↦ returned true w | some f ↦ and_then (f w) (λ _. returned true) ])
            (λ b. returned (stopped, b))
  answer_start none stopped w = refl
  answer_start (some f) stopped w = answer_started (f w) stopped

  serve-effect :
      (c : Content C) (stopped : Bool) (w : W)
      → stops p c ≡ false
      → serve p c stopped w ≡ and_then (effect_of c w) (λ b. returned (stopped, b))
  unfolding serve effect_of
  serve-effect c stopped w harmless =
      by_kind (is_internal c.attribute) (p.to_int c.request.command == start_command)
        (p.to_int c.request.command == stop_command) refl refl refl
    where
      by_kind :
          (int start stop : Bool)
          → is_internal c.attribute ≡ int
          → (p.to_int c.request.command == start_command) ≡ start
          → (p.to_int c.request.command == stop_command) ≡ stop
          → serve p c stopped w ≡ and_then (effect_of c w) (λ b. returned (stopped, b))
      by_kind false start stop i a o = rw i refl
      by_kind true true stop i a o = rw (i, a) (answer_start p.on_start stopped w)
      by_kind true false true i a o = absurd (ground (arith, harmless, i, o))
      by_kind true false false i a o = rw (i, a, o) refl

module _ {C W : Type 0} {q : IMessageQueue (Content C)} (p : Program C W) where
  settle_effect :
      (t : EventTask C W q) (c : Content C) (queue : q.Q) (stopped : Bool) (o : Outcome W Bool)
      → let t' = settle t c queue (and_then o (λ b. returned (stopped, b))) in
        (t'.world ≡ world_of o) × (t'.replies ≡ respond c.response (answer_of o) t.replies)
  unfolding settle
  settle_effect t c queue stopped (returned b w) = (refl, refl)
  settle_effect t c queue stopped (thrown f w) = (refl, refl)

  iterate-effect :
      (t : EventTask C W q) (c : Content C) (rest : List (Content C))
      → q.contents t.queue ≡ c ∷ rest
      → stops p c ≡ false
      → ((iterate p t).world ≡ world_of (effect_of p c t.world))
        × ((iterate p t).replies ≡ respond c.response (answer_of (effect_of p c t.world)) t.replies)
  iterate-effect t c rest e harmless =
      let (queue, left, step) = iterate-oldest p t c rest e in
      rw (step, serve-effect p c t.stopped t.world harmless)
        (settle_effect t c queue t.stopped (effect_of p c t.world))

  -- With a stop in the queue and rounds enough to come to it, the loop calls what the messages
  -- before the first stop ask for, in their order and each in the world that the one before has
  -- left: the start handler for a start, the handler of its command for a request, and nothing for
  -- another internal message. Each message that asks for a reply gets its own result or exception,
  -- and the stop gets true. The loop then ends, with all that stands behind the stop left in the
  -- queue, however many rounds it has.
  pub loop-stops :
      (rounds : ℕ) (t : EventTask C W q) (xs rest : List (Content C)) (c : Content C)
      → q.contents t.queue ≡ xs ++ c ∷ rest
      → t.stopped ≡ false
      → All (λ x. stops p x ≡ false) xs
      → c.attribute ≡ internal
      → p.to_int c.request.command ≡ stop_command
      → length xs < rounds
      → let end = loop rounds p t in
        (q.contents end.queue ≡ rest)
        × (end.stopped ≡ true)
        × (end.world ≡ world_after p xs t.world)
        × (end.replies ≡ respond c.response (value true) (replies_after p xs t.world t.replies))
  unfolding world_after replies_after
  loop-stops zero t xs rest c e go harmless int cmd enough = absurd (omega (arith, enough))
  loop-stops (suc rounds) t [] rest c e go harmless int cmd enough =
      let (left, replies, world, stopped, _) = iterate-stop p t c rest e int cmd in
      rw (loop-step p rounds t go, loop-stopped p rounds (iterate p t) stopped)
        (left, stopped, world, replies)
  loop-stops (suc rounds) t (x ∷ xs) rest c e go harmless int cmd enough =
      let (left, still) = iterate-harmless p t x (xs ++ c ∷ rest) e go harmless.0 in
      let (world, replies) = iterate-effect t x (xs ++ c ∷ rest) e harmless.0 in
      let (queue, stopped, w, r) =
        loop-stops rounds (iterate p t) xs rest c left still harmless.1 int cmd (omega arith) in
      rw (loop-step p rounds t go) (
        queue,
        stopped,
        w ∙ ap (world_after p xs) world,
        r ∙ (λ i. respond c.response (value true) (replies_after p xs (world i) (replies i))),
      )
