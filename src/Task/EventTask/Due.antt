-- ===== src/Task/EventTask/Due.antt =====
-- A message with a reply that stands in the queue of a running task, with no stop before it.
use mathlib.Core.List.{append_assoc}
use cpp_framework.Prelude.{
  ℕ, ◌+◌, ◌-◌, ◌<◌, ◌≤◌, ◌≡◌, ◌⊎◌, inl, inr, refl, ap, ◌∙◌, Bool, true, false, some, List, [], ◌∷◌,
  ◌++◌, length, length-append, subst, get_elem?, All, arith,
}
use cpp_framework.Error.Outcome.{Outcome, returned, thrown}
use cpp_framework.Message.Interface.{IMessageQueue}
use cpp_framework.Task.Request.{Request}
use cpp_framework.Task.EventTask.{
  Content, Program, EventTask, Attribute, Reply, pending, value, failed, looping, iterate, settle,
  serve,
}
use cpp_framework.Task.EventTask.Api.{post, start, send_event, rpc_event}
use cpp_framework.Task.EventTask.Queue.{
  carries, pending_at, pending_at-append, pending_at-respond, by_value, by_fault, length-respond,
  is_pending-le,
}
use cpp_framework.Task.EventTask.Turn.{iterate-empty, iterate-oldest}
use cpp_framework.Task.EventTask.Drain.{stops, iterate-harmless}
use cpp_framework.Task.EventTask.Answers.{stop-eq, finish-same}
use cpp_framework.Task.EventTask.System.{
  Step, Steps, starts, sends, rpcs, turns, ends, joins, here, later,
}
use cpp_framework.Task.EventTask.System

-- A reply that is there and no longer pending.
abbrev pub IsAnswered : ℕ → List Reply → Type 0
IsAnswered i rs = (pending_at i rs ≡ 0) × (i < length rs)

-- Another reply, waited for, leaves it; and so does whatever is given to a reply.
push-IsAnswered : (i : ℕ) (rs : List Reply) → IsAnswered i rs → IsAnswered i (rs ++ pending ∷ [])
push-IsAnswered i rs (done, there) =
    let other : carries i (some (length rs)) ≡ 0 = ground (arith, there) in
    (
      omega (arith, pending_at-append i rs, done, other),
      omega (arith, length-append rs (pending ∷ []), there),
    )

module _ {C W : Type 0} {q : IMessageQueue (Content C)} where
  settle-given :
      (i : ℕ) (t : EventTask C W q) (c : Content C) (queue : q.Q) (o : Outcome W (Bool × Bool))
      → let t' = settle t c queue o in
        (pending_at i t'.replies ≡ pending_at i t.replies - carries i c.response)
        × (length t'.replies ≡ length t.replies)
        × (t'.thread ≡ t.thread)
  unfolding settle
  settle-given i t c queue (returned (s, b) w) = (
    pending_at-respond i c.response (value b) t.replies (by_value b),
    length-respond c.response (value b) t.replies,
    refl,
  )
  settle-given i t c queue (thrown f w) = (
    pending_at-respond i c.response (failed f) t.replies (by_fault f),
    length-respond c.response (failed f) t.replies,
    refl,
  )

  iterate-given :
      (p : Program C W) (i : ℕ) (t : EventTask C W q) (c : Content C) (rest : List (Content C))
      → q.contents t.queue ≡ c ∷ rest
      → (pending_at i (iterate p t).replies ≡ pending_at i t.replies - carries i c.response)
        × (length (iterate p t).replies ≡ length t.replies)
        × ((iterate p t).thread ≡ t.thread)
  iterate-given p i t c rest e =
      let (queue, _, step) = iterate-oldest p t c rest e in
      rw step (settle-given i t c queue (serve p c t.stopped t.world))

  iterate-IsAnswered :
      (p : Program C W) (i : ℕ) (t : EventTask C W q) (xs : List (Content C))
      → q.contents t.queue ≡ xs
      → IsAnswered i t.replies
      → IsAnswered i (iterate p t).replies
  iterate-IsAnswered p i t [] e h = rw (iterate-empty p t e) h
  iterate-IsAnswered p i t (c ∷ rest) e (done, there) =
      let (left, size, _) = iterate-given p i t c rest e in
      (omega (arith, left, done), omega (arith, size, there))

  pub Step-IsAnswered :
      {p : Program C W} (i : ℕ) {t t' : EventTask C W q}
      → Step p t t'
      → IsAnswered i t.replies
      → IsAnswered i t'.replies
  unfolding start send_event rpc_event post
  Step-IsAnswered i {t} starts h = push-IsAnswered i t.replies h
  Step-IsAnswered {p} i {t} {t'} (System.stops {s = s} e) h =
      rw (stop-eq p t t' s e) (push-IsAnswered i t.replies h)
  Step-IsAnswered i {t} (sends request) h = h
  Step-IsAnswered i {t} (rpcs request) h = push-IsAnswered i t.replies h
  Step-IsAnswered {p} i {t} (turns a b) h = iterate-IsAnswered p i t (q.contents t.queue) refl h
  Step-IsAnswered {p} i {t} {t'} (ends a b e) h = rw (finish-same p t t' e).1 h
  Step-IsAnswered i (joins e) h = h

  module _ (p : Program C W) where
    -- The task is running, and a message for this reply stands in its queue with no stop before it.
    pub record IsDue (i : ℕ) (t : EventTask C W q) : Type 0 where
      pub before : List (Content C)
      pub own : Content C
      pub rest : List (Content C)
      pub at : q.contents t.queue ≡ before ++ own ∷ rest
      pub harmless : All (λ c. stops p c ≡ false) before
      pub carried : own.response ≡ some i
      pub there : i < length t.replies
      pub going : t.stopped ≡ false
      pub running : t.thread ≡ looping

    push-IsDue :
        (i : ℕ) (t u : EventTask C W q) (c : Content C) (d : IsDue i t)
        → q.contents u.queue ≡ q.contents t.queue ++ c ∷ []
        → length t.replies ≤ length u.replies
        → u.stopped ≡ t.stopped
        → u.thread ≡ t.thread
        → (d' : IsDue i u) × (length d'.before ≡ length d.before)
    push-IsDue i t u c d e more same_stop same_thread = (
      record {
        before = d.before;
        own = d.own;
        rest = d.rest ++ c ∷ [];
        at = e ∙ rw d.at (append_assoc d.before (d.own ∷ d.rest) (c ∷ []));
        harmless = d.harmless;
        carried = d.carried;
        there = omega (arith, d.there, more);
        going = same_stop ∙ d.going;
        running = same_thread ∙ d.running;
      },
      refl,
    )

    pub post-IsDue :
        (i : ℕ) (attribute : Attribute) (need : Bool) (request : Request C) (t : EventTask C W q)
        (d : IsDue i t)
        → (d' : IsDue i (post attribute need request t).1) × (length d'.before ≡ length d.before)
    unfolding post
    post-IsDue i attribute true request t d =
        push-IsDue i t _ _ d (q.contents-send _ t.queue)
          (omega (arith, length-append t.replies (pending ∷ []))) refl refl
    post-IsDue i attribute false request t d =
        push-IsDue i t _ _ d (q.contents-send _ t.queue) (omega arith) refl refl

    -- What a turn makes of it: the reply is given if it was the first, and else it is one nearer.
    pub turn-IsDue :
        (i : ℕ) (t : EventTask C W q) (d : IsDue i t) (xs : List (Content C))
        → d.before ≡ xs
        → ((length xs ≡ 0) × IsAnswered i (iterate p t).replies)
          ⊎ ((d' : IsDue i (iterate p t)) × (length d'.before + 1 ≡ length xs))
    turn-IsDue i t d [] e =
        let first = d.at ∙ ap (λ xs. xs ++ d.own ∷ d.rest) e in
        let (left, size, _) = iterate-given p i t d.own d.rest first in
        let own : carries i d.own.response ≡ 1 = ap (carries i) d.carried ∙ ground arith in
        inl (
          refl,
          (
            omega (arith, left, own, is_pending-le (get_elem? t.replies i)),
            omega (arith, size, d.there),
          ),
        )
    turn-IsDue i t d (x ∷ xs) e =
        let first = d.at ∙ ap (λ xs. xs ++ d.own ∷ d.rest) e in
        let safe = subst (All (λ c. stops p c ≡ false)) e d.harmless in
        let (queue, go) = iterate-harmless p t x (xs ++ d.own ∷ d.rest) first d.going safe.0 in
        let (_, size, thread) = iterate-given p i t x (xs ++ d.own ∷ d.rest) first in
        inr (
          record {
            before = xs;
            own = d.own;
            rest = d.rest;
            at = queue;
            harmless = safe.1;
            carried = d.carried;
            there = omega (arith, size, d.there);
            going = go;
            running = thread ∙ d.running;
          },
          omega arith,
        )
