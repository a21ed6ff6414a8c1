-- ===== src/Task/Statement/Rpc.antt =====
-- A call with its reply on the task of a state machine: client, queue, thread, machine and back.
use cpp_framework.Prelude.{
  ℕ, zero, suc, ◌<◌, ◌≤◌, ◌≡◌, refl, ◌∙◌, ap, sym, Bool, true, false, List, [], ◌∷◌, ◌++◌, length,
  take, take-append_left, take-length, length-append, leb, if◌then◌else◌, arith,
}
use cpp_framework.Error.Outcome.{world_of}
use cpp_framework.Prelude.Map.{Key}
use cpp_framework.Message.Interface.{IMessageQueue}
use cpp_framework.Task.Request.{Request}
use cpp_framework.Task.Aggregator.{StateType}
use cpp_framework.Task.StateMachine.{Live, Machine, publish}
use cpp_framework.Task.StateMachine.Bound.{IsBound}
use cpp_framework.Task.StateMachine.Automaton.{
  IsQuiet, accepted, verdict, step, run, follow, run-follow, publish-Follows,
}
use cpp_framework.Task.EventTask.{Content, Program, EventTask, loop}
use cpp_framework.Task.EventTask.Api.{rpc_event, wait_for_response}
use cpp_framework.Task.EventTask.Answered.{waited_of, unanswered, rpc_answered}
use cpp_framework.Task.EventTask.System.{new_task, Steps}
use cpp_framework.Task.EventTask.Serves.{AllExternal, served_world}
use cpp_framework.Task.Statement.{StatementTask, program_of}
use cpp_framework.Task.Statement.Run.{requests, served-run}

module _ {C : Type 0} where
  length-requests : (cs : List (Content C)) → length (requests cs) ≡ length cs
  length-requests [] = refl
  length-requests (c ∷ cs) = ap suc (length-requests cs)

  requests-take : (n : ℕ) (cs : List (Content C)) → requests (take n cs) ≡ take n (requests cs)
  requests-take zero cs = refl
  requests-take (suc n) [] = refl
  requests-take (suc n) (c ∷ cs) = ap (λ rs. c.request ∷ rs) (requests-take n cs)

  few_enough :
      (rounds : ℕ) (xs : List (Content C)) → leb rounds (length xs) ≡ true → rounds ≤ length xs
  few_enough rounds xs h = ground (arith, h)

  more_than :
      (rounds : ℕ) (xs : List (Content C)) → leb rounds (length xs) ≡ false → length xs < rounds
  more_than rounds xs h = ground (arith, h)

module _ {C S W : Type 0} ⦃key : Key C⦄ ⦃states : Key S⦄ ⦃st : StateType S⦄ where
  run-append :
      (m : Machine C S W) (reqs : List (Request C)) (req : Request C) (l : Live S W)
      → run m (reqs ++ req ∷ []) l ≡ step m req (run m reqs l)
  unfolding run
  run-append m [] req l = refl
  run-append m (x ∷ reqs) req l = run-append m reqs req (step m x l)

  -- rpc_event on a task over a state machine that runs, in a state that it can reach in which its
  -- queue holds external requests only; the wait is looked at when the thread has made a number of
  -- rounds. With no more rounds than there are requests before the call, a wait without a timeout
  -- goes on and one whose time is over returns false. With more, the client gets what `publish`
  -- gives on its request in the state that the requests before it have led to, a return or an
  -- exception, which is an acceptance exactly if the handler of that state accepts. The task is in
  -- the state that the automaton of the table reaches on the requests of these rounds. The table has
  -- no dangling target, no observer, and handlers that leave the current state alone.
  pub task-rpc :
      {q : IMessageQueue (Content C)} (p : Program C (Live S W)) (s : StatementTask C S W)
      (first : Live S W) (rounds timeout : ℕ) (req : Request C) (t : EventTask C (Live S W) q)
      (cs : List (Content C))
      → Steps (program_of p s) (new_task first) t
      → q.contents t.queue ≡ cs
      → t.stopped ≡ false
      → AllExternal cs
      → IsQuiet s.machine
      → IsBound s.machine t.world
      → let m = s.machine in
        let before = run m (requests cs) t.world in
        let (sender, t') = rpc_event req t in
        let end = loop rounds (program_of p s) t' in
        (wait_for_response sender timeout end.replies ≡ (
          if leb rounds (length cs)
          then unanswered timeout
          else waited_of (publish m req.command req before)))
        × (accepted (publish m req.command req before) ≡ verdict m before req)
        × (end.world.current.state
            ≡ follow m (take rounds (requests cs ++ req ∷ [])) t.world t.world.current.state)
        × IsBound m end.world
  unfolding program_of
  task-rpc p s first rounds timeout req t cs reached e go ext quiet bound =
      let m = s.machine in
      let reqs = requests cs in
      let served = served-run p s cs t.world in
      let (answer, world) =
        rpc_answered (program_of p s) first rounds timeout req t cs reached e go ext in
      let (state, bound') = run-follow m (take rounds (reqs ++ req ∷ [])) t.world quiet bound in
      let (_, before_bound) = run-follow m reqs t.world quiet bound in
      let same = world ∙ world_after (leb rounds (length cs)) refl in
      (
        answer
            ∙ ap
                (λ l.
                  if leb rounds (length cs)
                  then unanswered timeout
                  else waited_of (publish m req.command req l))
                served,
        (publish-Follows m req (run m reqs t.world) quiet before_bound).0,
        ap (λ l. l.current.state) same ∙ state,
        rw same bound',
      )
    where
      world_after :
          (few : Bool)
          → leb rounds (length cs) ≡ few
          → (if few
              then served_world (program_of p s) (take rounds cs) t.world
              else world_of
                  (publish s.machine req.command req (served_world (program_of p s) cs t.world)))
            ≡ run s.machine (take rounds (requests cs ++ req ∷ [])) t.world
      world_after true h =
          served-run p s (take rounds cs) t.world
          ∙ ap (λ xs. run s.machine xs t.world)
              (requests-take rounds cs
                ∙ sym (
                    take-append_left rounds (requests cs) (req ∷ [])
                      (omega (arith, length-requests cs, few_enough rounds cs h))))
      world_after false h =
          ap (step s.machine req) (served-run p s cs t.world)
          ∙ sym (run-append s.machine (requests cs) req t.world)
          ∙ ap (λ xs. run s.machine xs t.world)
              (sym (
                take-length rounds (requests cs ++ req ∷ []) (
                  omega (
                    arith,
                    length-append (requests cs) (req ∷ []),
                    length-requests cs,
                    more_than rounds cs h,
                  ))))
