-- ===== src/Task/Statement.antt =====
-- include/Task/MessageTask.hpp and include/Task/StatementTask.hpp: the event task over a table of
-- handlers, and the one over a state machine with its builder.
pub mod Builder
pub mod Run
pub mod Rpc
use cpp_framework.Prelude.{ℕ, Bool, Option, none, some, List, []}
use cpp_framework.Prelude.Map.{Key}
use cpp_framework.Error.Outcome.{M, Outcome, returned, thrown, Fault}
use cpp_framework.Message.Interface.{IMessageQueue}
use cpp_framework.Task.Request.{Request}
use cpp_framework.Task.Aggregator
use cpp_framework.Task.Aggregator.{EventMap, StateType}
use cpp_framework.Task.StateMachine
use cpp_framework.Task.StateMachine.{Machine, Live, new_machine, init, of_table}
use cpp_framework.Task.EventTask.{Program, EventTask, Content}
use cpp_framework.Task.EventTask.Api
use cpp_framework.Task.EventTask.Api.{Sender}

-- `MessageTask`: the base, whose aggregator is the table.
unfoldable pub message_task :
    {C S W : Type 0} ⦃key : Key C⦄ → Program C W → EventMap C S W → Program C W
message_task p events = record p {
  publish = λ command request. Aggregator.publish events command request;
}

-- `StatementTask` without its thread: the state machine, and the state to start from.
pub record StatementTask (C S W : Type 0) : Type 0 where
  pub machine : Machine C S W
  pub pending_initial_state : Option S

module _ {C S W : Type 0} ⦃key : Key C⦄ ⦃states : Key S⦄ ⦃st : StateType S⦄ where
  -- The constructor from a table, with the world in which it runs: the initial state is set at
  -- once, which may throw.
  unfoldable pub statement_of_table :
      List (S × EventMap C S (Live S W))
      → S
      → W
      → StatementTask C S W × Outcome (Live S W) (Unit {0})
  statement_of_table table initial w =
      let (m, o) = of_table table initial w in
      (record { machine = m; pending_initial_state = none }, o)

  -- The constructor for the builder.
  unfoldable pub new_statement_task : S → StatementTask C S W
  new_statement_task s = record { machine = new_machine; pending_initial_state = some s }

  unfoldable pub on :
      S → C → (Request C → M (Live S W) Bool) → S → StatementTask C S W → StatementTask C S W
  on from command handler next t = record t {
    machine = StateMachine.add t.machine from command handler next;
  }

  -- The program that the base runs.
  unfoldable pub program_of : Program C (Live S W) → StatementTask C S W → Program C (Live S W)
  program_of p t = record p {
    publish = λ command request. StateMachine.publish t.machine command request;
  }

  init_pending : Machine C S W → Option S → M (Live S W) (Unit {0})
  init_pending m none l = returned tt l
  init_pending m (some s) l = init m s l

  -- `Base::start` up to its wait, once the initial state is set or that has thrown.
  abbrev pub start_base :
      {q : IMessageQueue (Content C)}
      → Program C (Live S W)
      → StatementTask C S W
      → EventTask C (Live S W) q
      → Outcome (Live S W) (Unit {0})
      → Outcome (EventTask C (Live S W) q) Sender
  start_base p t task (thrown f l) = thrown f (record task { world = l })
  start_base p t task (returned _ l) =
      let (sender, task') = Api.start (program_of p t) (record task { world = l }) in
      returned sender task'

  -- `start`: the initial state, and then the base.
  unfoldable pub start :
      {q : IMessageQueue (Content C)}
      → Program C (Live S W)
      → StatementTask C S W
      → EventTask C (Live S W) q
      → Outcome (EventTask C (Live S W) q) Sender
  unfolding init_pending
  start p t task = start_base p t task (init_pending t.machine t.pending_initial_state task.world)
