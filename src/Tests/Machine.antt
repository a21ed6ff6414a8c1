-- ===== src/Tests/Machine.antt =====
-- A small state machine: a motor that is started and halted, with a count of the calls.
use cpp_framework.Prelude.{ℕ, suc, ◌≡◌, ◌≢◌, refl, Bool, true, false, none, some, [], ◌∷◌, arith}
use cpp_framework.Prelude.Map.{Key, find}
use cpp_framework.Error.Outcome.{returned, thrown, M, std_out_of_range, world_of}
use cpp_framework.Task.Request.{Request}
use cpp_framework.Task.Aggregator.{EventMap, MessageInfo, StateType}
use cpp_framework.Task.StateMachine.{Live, Machine}
use cpp_framework.Task.StateMachine.Automaton.{IsQuiet}
use cpp_framework.Task.StateMachine.Bound.{IsBound, IsWellBehaved}

pub data Phase : Type 0 where
  unknown idle running : Phase

pub data Cmd : Type 0 where
  go halt poke : Cmd

abbrev Phase-discrete : Discrete Phase
Phase-discrete = hlevel

abbrev Cmd-discrete : Discrete Cmd
Cmd-discrete = hlevel

instance abbrev pub phase_key : Key Phase
phase_key = record { key_eq = Phase-discrete }

instance abbrev pub cmd_key : Key Cmd
cmd_key = record { key_eq = Cmd-discrete }

instance abbrev pub phase_type : StateType Phase
phase_type = record { minus_one = unknown }

-- Counts the call and accepts.
abbrev pub accept : {C S : Type 0} → Request C → M (Live S ℕ) Bool
accept req l = returned true (record l { world = suc l.world })

-- Refuses.
abbrev pub refuse : {C S : Type 0} → Request C → M (Live S ℕ) Bool
refuse req l = returned false l

-- Throws `std::out_of_range`.
abbrev pub fail : {C S : Type 0} → Request C → M (Live S ℕ) Bool
fail req l = thrown std_out_of_range (record l { world = suc l.world })

abbrev pub Info : Type 0
Info = MessageInfo Cmd Phase (Live Phase ℕ)

abbrev pub Events : Type 0
Events = EventMap Cmd Phase (Live Phase ℕ)

abbrev pub idle_events : Events
idle_events =
    (go, record { handler = accept; next_state = running })
    ∷ (poke, record { handler = fail; next_state = running })
    ∷ []

abbrev pub running_events : Events
running_events =
    (halt, record { handler = accept; next_state = idle })
    ∷ (poke, record { handler = accept; next_state = unknown })
    ∷ (go, record { handler = refuse; next_state = idle })
    ∷ []

abbrev pub motor : Machine Cmd Phase ℕ
motor = record {
  table = (idle, idle_events) ∷ (running, running_events) ∷ [];
  state_changed = none;
}

abbrev pub at_idle : Live Phase ℕ
at_idle = record { current = record { state = idle; aggregator = some idle }; world = 0 }

abbrev pub ask : Cmd → Request Cmd
ask c = record { from = []; command = c; payload = none }

motor_handlers :
    (s : Phase) (c : Cmd) (req : Request Cmd) (l : Live Phase ℕ) (events : Events) (info : Info)
    → find s motor.table ≡ some events
    → find c events ≡ some info
    → (world_of (info.handler req l)).current ≡ l.current
unfolding find
motor_handlers s c req l events info e f = ground arith

target_of : (s : Phase) → s ≢ unknown → (target : Events) × (find s motor.table ≡ some target)
unfolding find
target_of unknown n = absurd (n refl)
target_of idle n = (idle_events, refl)
target_of running n = (running_events, refl)

motor_closed :
    (s : Phase) (c : Cmd) (events : Events) (info : Info)
    → find s motor.table ≡ some events
    → find c events ≡ some info
    → info.next_state ≢ unknown
    → (target : Events) × (find info.next_state motor.table ≡ some target)
motor_closed s c events info e f n = target_of info.next_state n

pub motor-IsQuiet : IsQuiet motor
motor-IsQuiet = record { unobserved = refl; handlers = motor_handlers; closed = motor_closed }

pub at_idle-IsBound : IsBound motor at_idle
unfolding find
at_idle-IsBound = (refl, (idle_events, refl))

pub motor-IsWellBehaved : IsWellBehaved motor
motor-IsWellBehaved = record {
  handlers = λ s c req l events info e f bound. rw (motor_handlers s c req l events info e f) bound;
  observer = λ from to l bound. bound;
}
