-- ===== src/Tests/Builders.antt =====
-- A task built by `on`, started from a state with handlers and from one without.
use cpp_framework.Prelude.{ℕ, ◌≡◌, refl, false, none, some, List, [], ◌∷◌}
use cpp_framework.Error.Outcome.{returned}
use cpp_framework.Message.Interface.{IMessageQueue}
use cpp_framework.Message.Deque.{deque, send, new_deque}
use cpp_framework.Task.StateMachine.{Live, start_info, publish}
use cpp_framework.Task.EventTask.{Content, Program, EventTask, unset, external, looping, loop}
use cpp_framework.Task.Statement.{StatementTask, program_of}
use cpp_framework.Task.Statement.Builder.{Transition}
use cpp_framework.Task.StateMachine.Automaton.{follow, run, accepted, verdict}
use cpp_framework.Task.Statement.Rpc.{task-rpc}
use cpp_framework.Task.EventTask.Api.{rpc_event, wait_for_response}
use cpp_framework.Task.EventTask.Answered.{waited_of}
use cpp_framework.Task.EventTask.System.{new_task, Steps, rpcs, here, later}
use cpp_framework.Task.StateMachine.Bound.{IsBound}
use cpp_framework.Tests.Machine.{
  Phase, idle, running, Cmd, go, ask, Info, accept, refuse, phase_key, cmd_key, phase_type, halt,
  motor, at_idle, motor-IsQuiet, at_idle-IsBound,
}

abbrev queue : IMessageQueue (Content Cmd)
queue = deque (record { attribute = unset; request = ask go; response = none })

-- The program of the base; the builder's machine takes the place of its `publish`.
abbrev base : Program Cmd (Live Phase ℕ)
base = record {
  publish = λ c r l. returned false l;
  on_start = none;
  on_finish = none;
  of_int = λ n. go;
  to_int = λ c. 7;
}

abbrev idle_task : EventTask Cmd (Live Phase ℕ) queue
idle_task = record {
  queue = queue.empty;
  replies = [];
  stopped = false;
  thread = looping;
  world = record { current = start_info; world = 0 };
}

abbrev accepting : Info
accepting = record { handler = accept; next_state = running }

abbrev refusing : Info
refusing = record { handler = refuse; next_state = idle }

-- `on(idle, go, accept, running).on(idle, go, refuse, idle)`, the last call first.
abbrev calls : List (Transition Cmd Phase ℕ)
calls =
    record { from = idle; command = go; info = refusing }
    ∷ record { from = idle; command = go; info = accepting }
    ∷ []

-- A task over the motor with two calls in its queue: a start, which is accepted, and a halt.
abbrev motor_task : StatementTask Cmd Phase ℕ
motor_task = record { machine = motor; pending_initial_state = none }

abbrev call : Cmd → ℕ → Content Cmd
call c i = record { attribute = external; request = ask c; response = some i }

abbrev fresh_task : EventTask Cmd (Live Phase ℕ) queue
fresh_task = new_task at_idle

abbrev called : EventTask Cmd (Live Phase ℕ) queue
called = (rpc_event (ask halt) (rpc_event (ask go) fresh_task).1).1

called_reached : Steps (program_of base motor_task) fresh_task called
called_reached = later (later here (rpcs (ask go))) (rpcs (ask halt))

-- A halt, called behind the two, waits at most 100 ms.
task-rpc_example :
    let before = run motor (ask go ∷ ask halt ∷ []) at_idle in
    let (sender, t) = rpc_event (ask halt) called in
    let end = loop 3 (program_of base motor_task) t in
    (wait_for_response sender 100 end.replies ≡ waited_of (publish motor halt (ask halt) before))
    × (accepted (publish motor halt (ask halt) before) ≡ verdict motor before (ask halt))
    × (end.world.current.state ≡ follow motor (ask go ∷ ask halt ∷ ask halt ∷ []) at_idle idle)
    × IsBound motor end.world
unfolding new_task rpc_event send new_deque
task-rpc_example =
    task-rpc base motor_task at_idle 3 100 (ask halt) called (call go 0 ∷ call halt 1 ∷ [])
      called_reached refl refl (refl, (refl, tt)) motor-IsQuiet at_idle-IsBound
