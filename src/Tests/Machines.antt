-- ===== src/Tests/Machines.antt =====
-- The state machine.
use cpp_framework.Prelude.{ℕ, ◌≡◌, refl, some, [], ◌∷◌}
use cpp_framework.Prelude.Map.{find}
use cpp_framework.Error.Outcome.{returned, thrown, framework, std_out_of_range}
use cpp_framework.Task.Aggregator
use cpp_framework.Task.StateMachine.{Machine, publish, set_state, enter, state_not_found}
use cpp_framework.Task.StateMachine.Bound.{IsBound, Leaves, publish-IsBound}
use cpp_framework.Task.StateMachine.Moves.{set_state-found, set_state-missing}
use cpp_framework.Task.StateMachine.Automaton.{run, follow, run-follow}
use cpp_framework.Tests.Machine.{
  Phase, unknown, idle, running, Cmd, go, halt, poke, motor, at_idle, ask, motor-IsQuiet, phase_key,
  cmd_key, phase_type, motor-IsWellBehaved, at_idle-IsBound,
}

-- A start, a refused start, a call that is accepted and keeps the state, and a halt.
motor_runs :
    (run motor (ask go ∷ ask go ∷ ask poke ∷ ask halt ∷ ask poke ∷ []) at_idle)
    ≡ record { current = record { state = idle; aggregator = some idle }; world = 4 }
unfolding run publish find Aggregator.publish Aggregator.get_next_state
motor_runs = refl

run-follow_example :
    let reqs = ask go ∷ ask go ∷ ask poke ∷ ask halt ∷ [] in
    ((run motor reqs at_idle).current.state ≡ follow motor reqs at_idle idle)
    × IsBound motor (run motor reqs at_idle)
run-follow_example =
    run-follow motor (ask go ∷ ask go ∷ ask poke ∷ ask halt ∷ []) at_idle motor-IsQuiet
      at_idle-IsBound

publish-IsBound_example : Leaves (IsBound motor) (publish motor go (ask go) at_idle)
publish-IsBound_example =
    publish-IsBound motor go (ask go) at_idle motor-IsWellBehaved at_idle-IsBound

set_state-found_example : set_state motor running at_idle ≡ returned tt (enter running at_idle)
unfolding find
set_state-found_example = set_state-found motor running at_idle refl

set_state-missing_example :
    set_state motor unknown at_idle ≡ thrown (framework state_not_found) at_idle
unfolding find
set_state-missing_example = set_state-missing motor unknown at_idle refl

-- The motor with an observer that throws.
abbrev watched : Machine Cmd Phase ℕ
watched = record motor { state_changed = some (λ from to l. thrown std_out_of_range l) }
