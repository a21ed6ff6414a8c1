-- ===== src/Task/EventTask/Drain.antt =====
-- How far the loop gets.
use cpp_framework.Prelude.{
  ℕ, zero, suc, ◌≤◌, ◌≡◌, refl, Bool, true, false, List, [], ◌∷◌, length, arith, All, ◌&&◌, ◌==◌,
  if◌then◌else◌, ap,
}
use cpp_framework.Error.Outcome.{Outcome, returned, thrown}
use cpp_framework.Message.Interface.{IMessageQueue}
use cpp_framework.Task.EventTask.{
  Content, Program, EventTask, is_internal, stop_command, iterate, loop, settle, serve,
}
use cpp_framework.Task.EventTask.Turn.{iterate-empty, iterate-oldest}

-- A message that sets `stopped_`.
abbrev pub stops : {C W : Type 0} → Program C W → Content C → Bool
stops p c = is_internal c.attribute && p.to_int c.request.command == stop_command

module _ {C W : Type 0} {q : IMessageQueue (Content C)} (p : Program C W) where
  pub settle-stopped :
      (t : EventTask C W q) (c : Content C) (queue : q.Q) (w : W)
      → t.stopped ≡ false
      → stops p c ≡ false
      → (settle t c queue (serve p c t.stopped w)).stopped ≡ false
  unfolding settle serve
  settle-stopped t c queue w go harmless = ground arith

  pub settle-queue :
      (t : EventTask C W q) (c : Content C) (queue : q.Q) (o : Outcome W (Bool × Bool))
      → (settle t c queue o).queue ≡ queue
  unfolding settle
  settle-queue t c queue (returned (s, b) w) = refl
  settle-queue t c queue (thrown f w) = refl

  pub iterate-harmless :
      (t : EventTask C W q) (c : Content C) (rest : List (Content C))
      → q.contents t.queue ≡ c ∷ rest
      → t.stopped ≡ false
      → stops p c ≡ false
      → (q.contents (iterate p t).queue ≡ rest) × ((iterate p t).stopped ≡ false)
  iterate-harmless t c rest e go harmless =
      let (queue, left, step) = iterate-oldest p t c rest e in
      rw step (
        rw (settle-queue t c queue (serve p c t.stopped t.world)) left,
        settle-stopped t c queue t.world go harmless,
      )

  pub loop-step :
      (rounds : ℕ) (t : EventTask C W q)
      → t.stopped ≡ false
      → loop (suc rounds) p t ≡ loop rounds p (iterate p t)
  unfolding loop
  loop-step rounds t go = ap (λ b. if b then t else loop rounds p (iterate p t)) go

  pub loop-zero : (t : EventTask C W q) → loop zero p t ≡ t
  unfolding loop
  loop-zero t = refl

  -- Without a stop in the queue, as many rounds as it has messages serve them all, whatever the
  -- handlers return or throw, and the thread goes on.
  pub loop-drains :
      (rounds : ℕ) (t : EventTask C W q) (xs : List (Content C))
      → q.contents t.queue ≡ xs
      → t.stopped ≡ false
      → All (λ c. stops p c ≡ false) xs
      → length xs ≤ rounds
      → (q.contents (loop rounds p t).queue ≡ []) × ((loop rounds p t).stopped ≡ false)
  loop-drains zero t [] e go harmless enough = rw (loop-zero t) (e, go)
  loop-drains zero t (x ∷ xs) e go harmless enough = absurd (omega arith)
  loop-drains (suc rounds) t [] e go harmless enough =
      rw (loop-step rounds t go, iterate-empty p t e)
        (loop-drains rounds t [] e go tt (omega arith))
  loop-drains (suc rounds) t (x ∷ xs) e go harmless enough =
      let (left, still) = iterate-harmless t x xs e go harmless.0 in
      rw (loop-step rounds t go)
        (loop-drains rounds (iterate p t) xs left still harmless.1 (omega arith))

  pub loop-stopped : (rounds : ℕ) (t : EventTask C W q) → t.stopped ≡ true → loop rounds p t ≡ t
  unfolding loop
  loop-stopped zero t s = refl
  loop-stopped (suc rounds) t s = rw s
