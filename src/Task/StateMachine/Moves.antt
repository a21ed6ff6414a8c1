-- ===== src/Task/StateMachine/Moves.antt =====
-- Transitions: when the state changes, and to what.
use cpp_framework.Prelude.{◌≡◌, Bool, true, none, some, arith, if◌then◌else◌, false}
use cpp_framework.Prelude.Map.{Key, find}
use cpp_framework.Error.Outcome.{
  returned, thrown, framework, rethrow_out_of_range, and_then, pure, Fault,
}
use cpp_framework.Task.Request.{Request}
use cpp_framework.Task.Aggregator
use cpp_framework.Task.Aggregator.{EventMap, MessageInfo, StateType, event_not_found}
use cpp_framework.Task.StateMachine.{
  Live, Machine, notify, enter, set_state, publish, state_not_found, not_initialized, get_state,
  publish_at, after_handler, move_to,
}

module _ {C S W : Type 0} ⦃key : Key C⦄ ⦃states : Key S⦄ ⦃st : StateType S⦄ where
  -- `set_state` to a state of the table enters it and then calls the observer with the old state
  -- and the new one.
  pub set_state-found :
      (m : Machine C S W) (s : S) (l : Live S W) {events : EventMap C S (Live S W)}
      → find s m.table ≡ some events
      → set_state m s l
        ≡ rethrow_out_of_range state_not_found (notify m.state_changed (get_state l) s (enter s l))
  unfolding set_state get_state
  set_state-found m s l h = ground arith

  -- `set_state` to a state that the table lacks throws `OutOfRange` and changes nothing.
  pub set_state-missing :
      (m : Machine C S W) (s : S) (l : Live S W)
      → find s m.table ≡ none
      → set_state m s l ≡ thrown (framework state_not_found) l
  unfolding set_state
  set_state-missing m s l h = ground arith

  -- The whole of `publish` in a state of the table on a command of its aggregator whose handler
  -- returns: a refusal leaves what the handler left; an acceptance is followed by a move to the
  -- command's next state, with `kKeepState` and the state that the handler left skipped.
  pub publish-verdict :
      (m : Machine C S W) (s : S) (command : C) (req : Request C) (l l' : Live S W) (b : Bool)
      {events : EventMap C S (Live S W)} {info : MessageInfo C S (Live S W)}
      → l.current.aggregator ≡ some s
      → find s m.table ≡ some events
      → find command events ≡ some info
      → info.handler req l ≡ returned b l'
      → publish m command req l ≡ (
          if b then and_then (move_to m info.next_state l') (λ _. pure true) else returned false l')
  unfolding publish publish_at after_handler Aggregator.publish Aggregator.get_next_state
  publish-verdict m s command req l l' b at_s in_table in_events verdict = ground arith

  -- `publish` in a state of the table whose handler throws: nothing moves, and the exception goes on,
  -- `std::out_of_range` replaced.
  pub publish-thrown :
      (m : Machine C S W) (s : S) (command : C) (req : Request C) (l l' : Live S W) (f : Fault)
      {events : EventMap C S (Live S W)} {info : MessageInfo C S (Live S W)}
      → l.current.aggregator ≡ some s
      → find s m.table ≡ some events
      → find command events ≡ some info
      → info.handler req l ≡ thrown f l'
      → publish m command req l ≡ rethrow_out_of_range event_not_found (thrown f l')
  unfolding publish publish_at after_handler Aggregator.publish Aggregator.get_next_state
  publish-thrown m s command req l l' f at_s in_table in_events verdict = ground arith

  -- `publish` of a command that the current state has no handler for throws `OutOfRange`.
  pub publish-missing :
      (m : Machine C S W) (s : S) (command : C) (req : Request C) (l : Live S W)
      {events : EventMap C S (Live S W)}
      → l.current.aggregator ≡ some s
      → find s m.table ≡ some events
      → find command events ≡ none
      → publish m command req l ≡ thrown (framework event_not_found) l
  unfolding publish publish_at Aggregator.publish
  publish-missing m s command req l at_s in_table missing = ground arith

  -- Before a state is set, every `publish` throws `InvalidOperation` and runs nothing.
  pub publish-uninitialized :
      (m : Machine C S W) (command : C) (req : Request C) (l : Live S W)
      → l.current.aggregator ≡ none
      → publish m command req l ≡ thrown (framework not_initialized) l
  unfolding publish
  publish-uninitialized m command req l h = ground arith
