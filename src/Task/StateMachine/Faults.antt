-- ===== src/Task/StateMachine/Faults.antt =====
-- Exceptions of the observer `state_changed`, which `set_state` calls in its `try` block.
use cpp_framework.Prelude.{◌≡◌, some, arith}
use cpp_framework.Prelude.Map.{Key, find}
use cpp_framework.Error.Outcome.{M, thrown, framework, std_out_of_range}
use cpp_framework.Task.Aggregator.{EventMap, StateType}
use cpp_framework.Task.StateMachine.{Live, Machine, enter, set_state, get_state, state_not_found}

module _ {C S W : Type 0} ⦃key : Key C⦄ ⦃states : Key S⦄ ⦃st : StateType S⦄ where
  -- An observer that throws `std::out_of_range` makes `set_state` report that the state was not
  -- found, though the state is in the table and was entered before the observer ran.
  pub observer_fault_masked :
      (m : Machine C S W) (s : S) (l l' : Live S W) (events : EventMap C S (Live S W))
      (f : S → S → M (Live S W) (Unit {0}))
      → find s m.table ≡ some events
      → m.state_changed ≡ some f
      → f (get_state l) s (enter s l) ≡ thrown std_out_of_range l'
      → (set_state m s l ≡ thrown (framework state_not_found) l') × (get_state (enter s l) ≡ s)
  unfolding set_state get_state
  observer_fault_masked m s l l' events f here observed throws = ground arith
