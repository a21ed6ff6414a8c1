-- ===== src/Task/EventTask/Prompt.antt =====
-- A call that is sent to a running task with no stop before it, beside everything that other
-- clients do meanwhile.
use cpp_framework.Prelude.{
  ℕ, ◌+◌, ◌≤◌, ◌≡◌, ◌≢◌, ◌⊎◌, inl, inr, refl, sym, ap, ◌∙◌, true, false, Option, none, some, List,
  [], ◌∷◌, ◌++◌, length, length-append, get_elem?, get_elem?-ne_none, All, arith,
}
use cpp_framework.Message.Interface.{IMessageQueue}
use cpp_framework.Task.Request.{Request, new_request_empty}
use cpp_framework.Task.EventTask.{
  Content, Program, EventTask, Attribute, Reply, pending, value, failed, looping, external,
  internal, stop_command, start_command,
}
use cpp_framework.Task.EventTask.Api.{
  post, start, send_event, rpc_event, new_sender, sender_send, wait_for_response, wait_forever,
  future_get, blocked,
}
use cpp_framework.Task.EventTask.Queue.{is_pending}
use cpp_framework.Task.EventTask.Drain.{stops}
use cpp_framework.Task.EventTask.Answers.{stop-eq}
use cpp_framework.Task.EventTask.Due.{IsAnswered, Step-IsAnswered, IsDue, post-IsDue, turn-IsDue}
use cpp_framework.Task.EventTask.System.{
  Step, Steps, starts, sends, rpcs, turns, ends, joins, here, later,
}
use cpp_framework.Task.EventTask.System

answered_comes :
    (i : ℕ) (rs : List Reply) (o : Option Reply)
    → get_elem? rs i ≡ o
    → IsAnswered i rs
    → future_get wait_forever o ≢ blocked
unfolding future_get
answered_comes i rs none e (done, there) = absurd (get_elem?-ne_none rs i there e)
answered_comes i rs (some pending) e (done, there) = absurd (omega (arith, done, ap is_pending e))
answered_comes i rs (some (value b)) e h = λ x. cc
answered_comes i rs (some (failed f)) e h = λ x. cc

-- Answered, or so many turns after the call, out of this many.
abbrev OnTheWay :
    {C W : Type 0} {q : IMessageQueue (Content C)}
    → Program C W
    → ℕ
    → ℕ
    → ℕ
    → EventTask C W q
    → Type 0
OnTheWay p i n k t = IsAnswered i t.replies ⊎ ((d : IsDue p i t) × (k + length d.before ≡ n))

module _ {C W : Type 0} {q : IMessageQueue (Content C)} {p : Program C W} where
  -- Whether a step is a turn of the thread, and how many turns a run has.
  abbrev pub turn_of : {t u : EventTask C W q} → Step p t u → ℕ
  turn_of starts = 0
  turn_of (System.stops e) = 0
  turn_of (sends request) = 0
  turn_of (rpcs request) = 0
  turn_of (turns a b) = 1
  turn_of (ends a b e) = 0
  turn_of (joins e) = 0

  abbrev pub turns_in : {t u : EventTask C W q} → Steps p t u → ℕ
  turns_in here = 0
  turns_in (later run step) = turns_in run + turn_of step

  Step-OnTheWay :
      (i n k : ℕ) {t u : EventTask C W q} (step : Step p t u) (d : IsDue p i t)
      → k + length d.before ≡ n
      → OnTheWay p i n (k + turn_of step) u
  unfolding start send_event rpc_event
  Step-OnTheWay i n k {t} starts d e =
      let (d', same) =
        post-IsDue p i internal true (new_request_empty [] (p.of_int start_command)) t d in
      inr (d', omega (arith, same, e))
  Step-OnTheWay i n k {t} {u} (System.stops {s = s} r) d e =
      let request = new_request_empty [] (p.of_int stop_command) in
      let (d', same) = post-IsDue p i internal true request t d in
      rw (stop-eq p t u s r) (inr (d', omega (arith, same, e)))
  Step-OnTheWay i n k {t} (sends request) d e =
      let (d', same) = post-IsDue p i external false request t d in inr (d', omega (arith, same, e))
  Step-OnTheWay i n k {t} (rpcs request) d e =
      let (d', same) = post-IsDue p i external true request t d in inr (d', omega (arith, same, e))
  Step-OnTheWay i n k {t} (turns a b) d e = elim (turn-IsDue p i t d d.before refl) [
    | inl (_, done) ↦ inl done
    | inr (d', less) ↦ inr (d', omega (arith, less, e))
  ]
  Step-OnTheWay i n k (ends a b r) d e = let go = d.going in absurd cc
  Step-OnTheWay i n k (joins r) d e = let run = d.running in absurd cc

  Steps-OnTheWay :
      (i : ℕ) {t u : EventTask C W q} (run : Steps p t u) (d : IsDue p i t)
      → OnTheWay p i (length d.before) (turns_in run) u
  Steps-OnTheWay i here d = inr (d, omega arith)
  Steps-OnTheWay i (later run step) d = elim (Steps-OnTheWay i run d) [
    | inl done ↦ inl (Step-IsAnswered i step done)
    | inr (d', e) ↦ Step-OnTheWay i _ (turns_in run) step d' e
  ]

  -- A call that waits for its reply without a timeout, as start, stop and rpc_event make it, on a
  -- running task with no stop in its queue: whatever other clients call afterwards, stops included,
  -- and however the thread goes on, either its wait comes to an end, or the thread has made no more
  -- turns than there were messages before it, is still looping and has a message to take.
  pub call_prompt :
      (attribute : Attribute) (request : Request C) (t : EventTask C W q) {u : EventTask C W q}
      (cs : List (Content C))
      → q.contents t.queue ≡ cs
      → All (λ c. stops p c ≡ false) cs
      → t.stopped ≡ false
      → t.thread ≡ looping
      → (run : Steps p (post attribute true request t).1 u)
      → (wait_for_response (post attribute true request t).0 wait_forever u.replies ≢ blocked)
        ⊎ ((turns_in run ≤ length cs)
            × (u.thread ≡ looping)
            × (u.stopped ≡ false)
            × (q.contents u.queue ≢ []))
  unfolding post wait_for_response new_sender sender_send
  call_prompt attribute request t {u} cs e harmless go alive run =
      let i = length t.replies in
      let c : Content C = record { attribute = attribute; request = request; response = some i } in
      let d : IsDue p i (post attribute true request t).1 = record {
        before = cs;
        own = c;
        rest = [];
        at = q.contents-send c t.queue ∙ ap (λ xs. xs ++ c ∷ []) e;
        harmless = harmless;
        carried = refl;
        there = omega (arith, length-append t.replies (pending ∷ []));
        going = go;
        running = alive;
      } in
      elim (Steps-OnTheWay i run d) [
        | inl done ↦ inl (answered_comes i u.replies (get_elem? u.replies i) refl done)
        | inr (d', left) ↦ inr (
          omega (arith, left),
          d'.running,
          d'.going,
          λ empty. not_empty d'.before d'.own d'.rest (sym d'.at ∙ empty),
        )
      ]
    where
      not_empty :
          (xs : List (Content C)) (x : Content C) (ys : List (Content C)) → xs ++ x ∷ ys ≢ []
      not_empty [] x ys n = cc
      not_empty (w ∷ ws) x ys n = cc
