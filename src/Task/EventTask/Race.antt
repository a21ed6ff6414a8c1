-- ===== src/Task/EventTask/Race.antt =====
-- Calls that are sent behind a stop command which the thread has not served yet.
use mathlib.Core.List.{append_assoc}
use cpp_framework.Prelude.{
  ℕ, ◌+◌, ◌≡◌, ◌⊎◌, inl, inr, refl, Bool, true, false, Option, none, some, List, [], ◌∷◌, ◌++◌,
  length, get_elem?, get_elem?-append_left, get_elem?-append_last, get_elem?-lt, arith, sym, ◌∙◌,
  ap,
}
use cpp_framework.Error.Outcome.{Outcome, returned, thrown}
use cpp_framework.Message.Interface.{IMessageQueue}
use cpp_framework.Task.Request.{Request}
use cpp_framework.Task.EventTask.{
  Content, Program, EventTask, Attribute, Reply, pending, value, failed, internal, is_internal,
  stop_command, iterate, settle, serve, finish,
}
use cpp_framework.Task.EventTask.Api.{
  post, start, send_event, rpc_event, wait_for_response, wait_forever, blocked,
}
use cpp_framework.Task.EventTask.Queue.{
  occurs, carries, pending_at, is_pending, pending_at-respond, by_value, by_fault,
}
use cpp_framework.Task.EventTask.Turn.{iterate-oldest, iterate-stop}
use cpp_framework.Task.EventTask.Drain.{stops}
use cpp_framework.Task.EventTask.Answers.{stop-eq, finish-same, IsTracked, Steps-IsTracked}
use cpp_framework.Task.EventTask.System.{
  new_task, Step, Steps, starts, sends, rpcs, turns, ends, joins, here, later,
}
use cpp_framework.Task.EventTask.System

pub pending_there : (i : ℕ) (rs : List Reply) → pending_at i rs ≡ 1 → get_elem? rs i ≡ some pending
pending_there i rs e = by_reply (get_elem? rs i) e
  where
    by_reply : (o : Option Reply) → is_pending o ≡ 1 → o ≡ some pending
    by_reply none h = absurd (omega (arith, h))
    by_reply (some pending) h = refl
    by_reply (some (value b)) h = absurd (omega (arith, h))
    by_reply (some (failed f)) h = absurd (omega (arith, h))

pub nothing_beyond : (rs : List Reply) → pending_at (length rs) rs ≡ 0
nothing_beyond [] = refl
nothing_beyond (r ∷ rs) = nothing_beyond rs

occurs_split :
    {C : Type 0} (i : ℕ) (xs : List (Content C)) (c : Content C) (rest : List (Content C))
    → occurs i (xs ++ c ∷ rest) ≡ occurs i xs + (carries i c.response + occurs i rest)
occurs_split i [] c rest = omega arith
occurs_split i (x ∷ xs) c rest = omega (arith, occurs_split i xs c rest)

pending_kept :
    (i : ℕ) (rs : List Reply) → pending_at i rs ≡ 1 → pending_at i (rs ++ pending ∷ []) ≡ 1
pending_kept i rs e =
    let there = pending_there i rs e in
    ap is_pending (get_elem?-append_left rs (pending ∷ []) i (get_elem?-lt rs i there) ∙ there)

stops-parts :
    {C W : Type 0} (p : Program C W) (c : Content C)
    → stops p c ≡ true
    → (c.attribute ≡ internal) × (p.to_int c.request.command ≡ stop_command)
unfolding is_internal
stops-parts p c e = ground (arith, e)

module _ {C W : Type 0} {q : IMessageQueue (Content C)} (p : Program C W) where
  -- A stop stands in the queue, and this reply is promised neither by it nor before it.
  pub record IsBehind (i : ℕ) (t : EventTask C W q) : Type 0 where
    pub before : List (Content C)
    pub stop_message : Content C
    pub rest : List (Content C)
    pub at : q.contents t.queue ≡ before ++ stop_message ∷ rest
    pub is_stop : stops p stop_message ≡ true
    pub not_before : occurs i before ≡ 0
    pub not_there : carries i stop_message.response ≡ 0

  -- A reply that is pending, while the loop is about to end or will end before it comes to it.
  abbrev pub IsShadowed : ℕ → EventTask C W q → Type 0
  IsShadowed i t = (pending_at i t.replies ≡ 1) × ((t.stopped ≡ true) ⊎ IsBehind i t)

  append-IsBehind :
      (i : ℕ) (t u : EventTask C W q) (c : Content C)
      → q.contents u.queue ≡ q.contents t.queue ++ c ∷ []
      → IsBehind i t
      → IsBehind i u
  append-IsBehind i t u c e b = record {
    before = b.before;
    stop_message = b.stop_message;
    rest = b.rest ++ c ∷ [];
    at = e ∙ rw b.at (append_assoc b.before (b.stop_message ∷ b.rest) (c ∷ []));
    is_stop = b.is_stop;
    not_before = b.not_before;
    not_there = b.not_there;
  }

  post-IsShadowed :
      (i : ℕ) (attribute : Attribute) (need : Bool) (request : Request C) (t : EventTask C W q)
      → IsShadowed i t
      → IsShadowed i (post attribute need request t).1
  unfolding post
  post-IsShadowed i attribute true request t (waits, inl over) =
      (pending_kept i t.replies waits, inl over)
  post-IsShadowed i attribute true request t (waits, inr b) =
      (pending_kept i t.replies waits, inr (append-IsBehind i t _ _ (q.contents-send _ t.queue) b))
  post-IsShadowed i attribute false request t (waits, inl over) = (waits, inl over)
  post-IsShadowed i attribute false request t (waits, inr b) =
      (waits, inr (append-IsBehind i t _ _ (q.contents-send _ t.queue) b))

  -- What a reply given to another message leaves.
  settle-waits :
      (i : ℕ) (t : EventTask C W q) (c : Content C) (queue : q.Q) (o : Outcome W (Bool × Bool))
      → carries i c.response ≡ 0
      → pending_at i (settle t c queue o).replies ≡ pending_at i t.replies
  unfolding settle
  settle-waits i t c queue (returned (s, b) w) none_of =
      omega (arith, pending_at-respond i c.response (value b) t.replies (by_value b), none_of)
  settle-waits i t c queue (thrown f w) none_of =
      omega (arith, pending_at-respond i c.response (failed f) t.replies (by_fault f), none_of)

  settle-queue :
      (t : EventTask C W q) (c : Content C) (queue : q.Q) (o : Outcome W (Bool × Bool))
      → (settle t c queue o).queue ≡ queue
  unfolding settle
  settle-queue t c queue (returned (s, b) w) = refl
  settle-queue t c queue (thrown f w) = refl

  iterate-IsShadowed :
      (i : ℕ) (t : EventTask C W q) (before : List (Content C)) (b : IsBehind i t)
      → b.before ≡ before
      → pending_at i t.replies ≡ 1
      → IsShadowed i (iterate p t)
  iterate-IsShadowed i t [] b e waits =
      let (int, cmd) = stops-parts p b.stop_message b.is_stop in
      let (_, replies, _, over, _) =
        iterate-stop p t b.stop_message b.rest (b.at ∙ rw e refl) int cmd in
      let left =
        pending_at-respond i b.stop_message.response (value true) t.replies (by_value true) in
      (ap (pending_at i) replies ∙ omega (arith, left, b.not_there, waits), inl over)
  iterate-IsShadowed i t (x ∷ xs) b e waits =
      let (queue, left, step) =
        iterate-oldest p t x (xs ++ b.stop_message ∷ b.rest) (b.at ∙ rw e refl) in
      let split : carries i x.response + occurs i xs ≡ 0 = ap (occurs i) (sym e) ∙ b.not_before in
      rw step (
        settle-waits i t x queue _ (omega (arith, split)) ∙ waits,
        inr (record {
          before = xs;
          stop_message = b.stop_message;
          rest = b.rest;
          at = rw (settle-queue t x queue (serve p x t.stopped t.world)) left;
          is_stop = b.is_stop;
          not_before = omega (arith, split);
          not_there = b.not_there;
        }),
      )

  finish-stopped : (t t' : EventTask C W q) → finish p t ≡ some t' → t'.stopped ≡ t.stopped
  unfolding finish
  finish-stopped t t' e = ground arith

  Step-IsShadowed :
      (i : ℕ) {t t' : EventTask C W q} → Step p t t' → IsShadowed i t → IsShadowed i t'
  unfolding start send_event rpc_event
  Step-IsShadowed i {t} starts s = post-IsShadowed i _ true _ t s
  Step-IsShadowed i {t} {t'} (System.stops {s = sender} e) s =
      rw (stop-eq p t t' sender e) (post-IsShadowed i _ true _ t s)
  Step-IsShadowed i {t} (sends request) s = post-IsShadowed i _ false request t s
  Step-IsShadowed i {t} (rpcs request) s = post-IsShadowed i _ true request t s
  Step-IsShadowed i (turns looping go) (waits, inl over) = absurd cc
  Step-IsShadowed i {t} (turns looping go) (waits, inr b) =
      iterate-IsShadowed i t b.before b refl waits
  Step-IsShadowed i {t} {t'} (ends looping over e) (waits, s) =
      let (same, replies) = finish-same p t t' e in
      (rw replies waits, inl (finish-stopped t t' e ∙ over))
  Step-IsShadowed i (joins e) (waits, inl over) = (waits, inl over)
  Step-IsShadowed i (joins e) (waits, inr b) = (
    waits,
    inr (record {
      before = b.before;
      stop_message = b.stop_message;
      rest = b.rest;
      at = b.at;
      is_stop = b.is_stop;
      not_before = b.not_before;
      not_there = b.not_there;
    }),
  )

  Steps-IsShadowed :
      (i : ℕ) {t t' : EventTask C W q} → Steps p t t' → IsShadowed i t → IsShadowed i t'
  Steps-IsShadowed i here s = s
  Steps-IsShadowed i (later run step) s = Step-IsShadowed i step (Steps-IsShadowed i run s)

  posted-IsShadowed :
      (attribute : Attribute) (request : Request C) (t : EventTask C W q)
      (xs rest : List (Content C)) (c : Content C)
      → IsTracked t
      → q.contents t.queue ≡ xs ++ c ∷ rest
      → stops p c ≡ true
      → IsShadowed (length t.replies) (post attribute true request t).1
  unfolding post
  posted-IsShadowed attribute request t xs rest c tracked at is_stop =
      let i = length t.replies in
      let split =
        sym (ap (occurs i) at ∙ occurs_split i xs c rest) ∙ tracked i ∙ nothing_beyond t.replies in
      let behind : IsBehind i t = record {
        before = xs;
        stop_message = c;
        rest = rest;
        at = at;
        is_stop = is_stop;
        not_before = omega (arith, split);
        not_there = omega (arith, split);
      } in
      (
        ap is_pending (get_elem?-append_last t.replies pending),
        inr (append-IsBehind i t _ _ (q.contents-send _ t.queue) behind),
      )

  -- On a task in any state that it can reach, a call that waits for its reply without a timeout and
  -- is sent while a stop stands in the queue never returns, be it a start, a second stop or an
  -- rpc_event: whatever is called and however the thread moves afterwards, its wait is blocked.
  pub stop_race_blocks :
      (w : W) (attribute : Attribute) (request : Request C) {t t' : EventTask C W q}
      (xs rest : List (Content C)) (c : Content C)
      → Steps p (new_task w) t
      → q.contents t.queue ≡ xs ++ c ∷ rest
      → stops p c ≡ true
      → Steps p (post attribute true request t).1 t'
      → wait_for_response (post attribute true request t).0 wait_forever t'.replies ≡ blocked
  unfolding post wait_for_response
  stop_race_blocks w attribute request {t} {t'} xs rest c reached at is_stop steps =
      let shadowed =
        posted-IsShadowed attribute request t xs rest c (Steps-IsTracked w reached) at is_stop in
      let waits =
        pending_there (length t.replies) t'.replies
          (Steps-IsShadowed (length t.replies) steps shadowed).0 in
      rw waits refl
