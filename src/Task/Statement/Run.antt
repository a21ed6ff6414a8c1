-- ===== src/Task/Statement/Run.antt =====
-- The task of a state machine: its thread with the automaton of its table.
use cpp_framework.Prelude.{ℕ, ◌≤◌, ◌≡◌, refl, ◌∙◌, ap, false, List, [], ◌∷◌, length, map}
use cpp_framework.Prelude.Map.{Key}
use cpp_framework.Message.Interface.{IMessageQueue}
use cpp_framework.Task.Request.{Request}
use cpp_framework.Task.Aggregator.{StateType}
use cpp_framework.Task.StateMachine.{Live}
use cpp_framework.Task.StateMachine.Bound.{IsBound}
use cpp_framework.Task.StateMachine.Automaton.{IsQuiet, run, follow, run-follow}
use cpp_framework.Task.EventTask.{Content, Program, EventTask, loop}
use cpp_framework.Task.EventTask.Serves.{served_world, served_replies, AllExternal, loop-serves}
use cpp_framework.Task.Statement.{StatementTask, program_of}

-- The requests of the messages, oldest first.
abbrev pub requests : {C : Type 0} → List (Content C) → List (Request C)
requests = map (λ c. c.request)

module _ {C S W : Type 0} ⦃key : Key C⦄ ⦃states : Key S⦄ ⦃st : StateType S⦄ where
  pub served-run :
      (p : Program C (Live S W)) (s : StatementTask C S W) (cs : List (Content C)) (l : Live S W)
      → served_world (program_of p s) cs l ≡ run s.machine (requests cs) l
  unfolding served_world run program_of
  served-run p s [] l = refl
  served-run p s (c ∷ cs) l = served-run p s cs _

  -- Enough rounds of the thread of a task over a state machine serve all the external requests in
  -- its queue, and the task is then in the state that the automaton of its table reaches from the
  -- state it was in, on those requests in the order of the queue and the verdicts of its handlers;
  -- each client gets the verdict, or the exception, of its own request. The table has no dangling
  -- target, no observer, and handlers that leave the current state alone.
  pub task-follow :
      {q : IMessageQueue (Content C)} (p : Program C (Live S W)) (s : StatementTask C S W)
      (rounds : ℕ) (t : EventTask C (Live S W) q) (cs : List (Content C))
      → q.contents t.queue ≡ cs
      → t.stopped ≡ false
      → AllExternal cs
      → length cs ≤ rounds
      → IsQuiet s.machine
      → IsBound s.machine t.world
      → let end = loop rounds (program_of p s) t in
        (q.contents end.queue ≡ [])
        × (end.world.current.state ≡ follow s.machine (requests cs) t.world t.world.current.state)
        × IsBound s.machine end.world
        × (end.replies ≡ served_replies (program_of p s) cs t.world t.replies)
  task-follow p s rounds t cs e go ext enough quiet bound =
      let (done, world, replies) = loop-serves (program_of p s) rounds t cs e go ext enough in
      let (state, bound') = run-follow s.machine (requests cs) t.world quiet bound in
      let same = world ∙ served-run p s cs t.world in
      (done, ap (λ l. l.current.state) same ∙ state, rw same bound', replies)
