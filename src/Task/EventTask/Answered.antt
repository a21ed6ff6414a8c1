-- ===== src/Task/EventTask/Answered.antt =====
-- A call with its reply, from the sender to the end of its wait.
use cpp_framework.Prelude.{
  ℕ, zero, suc, ◌+◌, ◌≡◌, refl, sym, ◌∙◌, ap, Bool, false, some, List, [], ◌∷◌, ◌++◌, length, inl,
  inr, take, take-append_left, take-length, Bool-cases, leb, if◌then◌else◌, ◌==◌, get_elem?,
  get_elem?-append_last, get_elem?-set_self, length-append, All-append, arith,
}
use cpp_framework.Error.Outcome.{Outcome, returned, thrown, world_of}
use cpp_framework.Message.Interface.{IMessageQueue}
use cpp_framework.Task.Request.{Request}
use cpp_framework.Task.EventTask.{
  Content, Program, EventTask, Reply, pending, external, iterate, loop, respond,
}
use cpp_framework.Task.EventTask.Api.{
  Waited, answered, raised, rpc_event, post, new_sender, sender_send, wait_for_response, future_get,
  wait_forever, blocked,
}
use cpp_framework.Task.EventTask.Turn.{answer_of, iterate-empty, iterate-external}
use cpp_framework.Task.EventTask.Queue.{
  length-respond, occurs, is_pending, pending_at, pending_at-respond, IsAnswer, by_value, by_fault,
}
use cpp_framework.Task.EventTask.Drain.{loop-zero, loop-step}
use cpp_framework.Task.EventTask.System.{new_task, Steps}
use cpp_framework.Task.EventTask.Answers.{Steps-IsTracked}
use cpp_framework.Task.EventTask.Race.{pending_there, nothing_beyond}
use cpp_framework.Task.EventTask.Serves.{served_world, served_replies, AllExternal}

-- How the wait for a handler ends: with its result, or with its exception.
abbrev pub waited_of : {W : Type 0} → Outcome W Bool → Waited
waited_of (returned b w) = answered b
waited_of (thrown f w) = raised f

-- How a wait ends, or not, while the reply is not there.
abbrev pub unanswered : ℕ → Waited
unanswered timeout = if timeout == wait_forever then blocked else answered false

answer_of-IsAnswer : {W : Type 0} (o : Outcome W Bool) → IsAnswer (answer_of o)
answer_of-IsAnswer (returned b w) = by_value b
answer_of-IsAnswer (thrown f w) = by_fault f

module _ {C W : Type 0} (p : Program C W) where
  served_world-append :
      (cs : List (Content C)) (c : Content C) (w : W)
      → served_world p (cs ++ c ∷ []) w
        ≡ world_of (p.publish c.request.command c.request (served_world p cs w))
  unfolding served_world
  served_world-append [] c w = refl
  served_world-append (x ∷ cs) c w = served_world-append cs c _

  served_replies-append :
      (cs : List (Content C)) (c : Content C) (w : W) (rs : List Reply)
      → served_replies p (cs ++ c ∷ []) w rs
        ≡ respond c.response
            (answer_of (p.publish c.request.command c.request (served_world p cs w)))
            (served_replies p cs w rs)
  unfolding served_world served_replies
  served_replies-append [] c w rs = refl
  served_replies-append (x ∷ cs) c w rs = served_replies-append cs c _ _

  length-served_replies :
      (cs : List (Content C)) (w : W) (rs : List Reply)
      → length (served_replies p cs w rs) ≡ length rs
  unfolding served_replies
  length-served_replies [] w rs = refl
  length-served_replies (c ∷ cs) w rs =
      length-served_replies cs _ _ ∙ length-respond c.response _ rs

  answered_of :
      (o : Outcome W Bool) (timeout : ℕ) → future_get timeout (some (answer_of o)) ≡ waited_of o
  unfolding future_get
  answered_of (returned b w) timeout = refl
  answered_of (thrown f w) timeout = refl

  future-waits : (timeout : ℕ) → future_get timeout (some pending) ≡ unanswered timeout
  unfolding future_get
  future-waits timeout = refl

  last_answer :
      (cs : List (Content C)) (c : Content C) (w : W) (rs : List Reply)
      → c.response ≡ some (length rs)
      → get_elem? (served_replies p (cs ++ c ∷ []) w (rs ++ pending ∷ [])) (length rs)
        ≡ some (answer_of (p.publish c.request.command c.request (served_world p cs w)))
  unfolding respond
  last_answer cs c w rs own =
      let before = served_replies p cs w (rs ++ pending ∷ []) in
      let size : length before ≡ length rs + 1 =
        length-served_replies cs w (rs ++ pending ∷ []) ∙ length-append rs (pending ∷ []) in
      rw (served_replies-append cs c w (rs ++ pending ∷ []), own)
        (get_elem?-set_self before (length rs) _ (omega (arith, size)))

  -- A reply that none of them carries is as it was, however many of them are served.
  served-waits :
      (k : ℕ) (cs : List (Content C)) (i : ℕ) (w : W) (rs : List Reply)
      → occurs i cs ≡ 0
      → pending_at i (served_replies p (take k cs) w rs) ≡ pending_at i rs
  unfolding served_replies
  served-waits zero cs i w rs h = refl
  served-waits (suc k) [] i w rs h = refl
  served-waits (suc k) (c ∷ cs) i w rs h =
      let o = p.publish c.request.command c.request w in
      omega (
        arith,
        served-waits k cs i (world_of o) (respond c.response (answer_of o) rs) (omega (arith, h)),
        pending_at-respond i c.response (answer_of o) rs (answer_of-IsAnswer o),
        h,
      )

module _ {C W : Type 0} {q : IMessageQueue (Content C)} (p : Program C W) where
  -- Any number of rounds of the loop on a queue of external requests.
  loop-take :
      (rounds : ℕ) (t : EventTask C W q) (cs : List (Content C))
      → q.contents t.queue ≡ cs
      → t.stopped ≡ false
      → AllExternal cs
      → ((loop rounds p t).world ≡ served_world p (take rounds cs) t.world)
        × ((loop rounds p t).replies ≡ served_replies p (take rounds cs) t.world t.replies)
  unfolding served_world served_replies
  loop-take zero t cs e go ext = rw (loop-zero p t) (refl, refl)
  loop-take (suc rounds) t [] e go ext =
      let (world, replies) = loop-take rounds t [] e go tt in
      rw (loop-step p rounds t go, iterate-empty p t e)
        (
          world ∙ ap (λ cs. served_world p cs t.world) (take-length rounds [] (omega arith)),
          replies
              ∙ ap (λ cs. served_replies p cs t.world t.replies)
                  (take-length rounds [] (omega arith)),
        )
  loop-take (suc rounds) t (c ∷ cs) e go ext =
      let (left, replies, world, still, _) = iterate-external p t c cs e ext.0 in
      let (w, r) = loop-take rounds (iterate p t) cs left (still ∙ go) ext.1 in
      rw (loop-step p rounds t go) (
        w ∙ ap (served_world p (take rounds cs)) world,
        r ∙ (λ i. served_replies p (take rounds cs) (world i) (replies i)),
      )

  -- A call of rpc_event on a task that runs, in a state that it can reach in which its queue holds
  -- only external requests; the wait for the reply is looked at when the thread has made a number
  -- of rounds. As long as these are no more than the requests before the call, the reply is not
  -- there: a wait without a timeout goes on, and one whose time is over returns false. After that
  -- the wait returns what the handler returns for its request in the world that the requests before
  -- it have left, or throws what the handler throws. In either case exactly the requests of these
  -- rounds have had their effects.
  pub rpc_answered :
      (w : W) (rounds timeout : ℕ) (request : Request C) (t : EventTask C W q)
      (cs : List (Content C))
      → Steps p (new_task w) t
      → q.contents t.queue ≡ cs
      → t.stopped ≡ false
      → AllExternal cs
      → let (sender, t') = rpc_event request t in
        let outcome = p.publish request.command request (served_world p cs t.world) in
        let end = loop rounds p t' in
        (wait_for_response sender timeout end.replies
          ≡ (if leb rounds (length cs) then unanswered timeout else waited_of outcome))
        × (end.world ≡ (
            if leb rounds (length cs)
            then served_world p (take rounds cs) t.world
            else world_of outcome))
  unfolding rpc_event post wait_for_response new_sender sender_send
  rpc_answered w rounds timeout request t cs reached e go ext =
      let (world, replies) = served in
      elim (Bool-cases (leb rounds (length cs))) [
        | inl few ↦
            let some_of = take-append_left rounds cs (c ∷ []) (ground (arith, few)) in
            let replies' =
              replies
              ∙ ap (λ xs. served_replies p xs t.world (t.replies ++ pending ∷ [])) some_of in
            let waits =
              ap (pending_at own) replies'
              ∙ served-waits p rounds cs own t.world (t.replies ++ pending ∷ []) none_before
              ∙ ap is_pending (get_elem?-append_last t.replies pending) in
            rw few (
              ap (future_get timeout) (pending_there own _ waits) ∙ future-waits p timeout,
              world ∙ ap (λ xs. served_world p xs t.world) some_of,
            )
        | inr enough ↦
            let size = length-append cs (c ∷ []) in
            let all_of = take-length rounds (cs ++ c ∷ []) (ground (arith, size, enough)) in
            let replies' =
              replies ∙ ap (λ xs. served_replies p xs t.world (t.replies ++ pending ∷ [])) all_of in
            let answer =
              ap (λ rs. get_elem? rs own) replies' ∙ last_answer p cs c t.world t.replies refl in
            rw enough (
              ap (future_get timeout) answer ∙ answered_of p _ timeout,
              world
                  ∙ ap (λ xs. served_world p xs t.world) all_of
                  ∙ served_world-append p cs c t.world,
            )
      ]
    where
      own : ℕ
      own = length t.replies

      c : Content C
      c = record { attribute = external; request = request; response = some own }

      none_before : occurs own cs ≡ 0
      none_before =
          sym (ap (occurs own) e) ∙ Steps-IsTracked w reached own ∙ nothing_beyond t.replies

      served :
          let end = loop rounds p (rpc_event request t).1 in
          (end.world ≡ served_world p (take rounds (cs ++ c ∷ [])) t.world)
          × (end.replies
              ≡ served_replies p (take rounds (cs ++ c ∷ [])) t.world (t.replies ++ pending ∷ []))
      served =
          loop-take rounds (rpc_event request t).1 (cs ++ c ∷ [])
            (q.contents-send c t.queue ∙ ap (λ xs. xs ++ c ∷ []) e) go
            (All-append (λ x. x.attribute ≡ external) cs (c ∷ []) ext (refl, tt))
