-- ===== src/Task/Aggregator/Laws.antt =====
-- The table of handlers: what `publish` runs and what it throws, and what `add` changes.
use cpp_framework.Prelude.{◌≡◌, ◌≢◌, Bool, none, some, arith, ite}
use cpp_framework.Prelude.Map.{Key, find, or_else, find-emplace}
use cpp_framework.Error.Outcome.{
  Outcome, returned, thrown, M, std_out_of_range, framework, foreign, rethrow_out_of_range,
}
use cpp_framework.Task.Request.{Request}
use cpp_framework.Task.Aggregator.{
  EventMap, MessageInfo, add, publish, get_next_state, event_not_found,
}

rethrow_ne :
    {W A : Type 0} (o : Outcome W A) (w : W)
    → rethrow_out_of_range event_not_found o ≢ thrown std_out_of_range w
rethrow_ne (returned a v) w h = cc
rethrow_ne (thrown std_out_of_range v) w h = cc
rethrow_ne (thrown (framework x) v) w h = cc
rethrow_ne (thrown (foreign n) v) w h = cc

module _ {C S W : Type 0} ⦃key : Key C⦄ where
  -- `publish` on a command that the table has is a call of its handler, with `std::out_of_range`
  -- replaced by the exception for a missing event.
  pub publish-found :
      (events : EventMap C S W) (command : C) (req : Request C) (w : W) {info : MessageInfo C S W}
      → find command events ≡ some info
      → publish events command req w ≡ rethrow_out_of_range event_not_found (info.handler req w)
  unfolding publish
  publish-found events command req w h = ground arith

  -- A missing command throws `OutOfRange` and runs nothing, in `publish` and in `get_next_state`.
  pub missing_event :
      (events : EventMap C S W) (command : C) (req : Request C) (w : W)
      → find command events ≡ none
      → (publish events command req w ≡ thrown (framework event_not_found) w)
        × (get_next_state events command w ≡ thrown (framework event_not_found) w)
  unfolding publish get_next_state
  missing_event events command req w h = ground arith

  -- A handler that is there and itself throws `std::out_of_range` is reported as a missing event,
  -- with the effects that it had.
  pub handler_fault_masked :
      (events : EventMap C S W) (command : C) (req : Request C) (w w' : W)
      {info : MessageInfo C S W}
      → find command events ≡ some info
      → info.handler req w ≡ thrown std_out_of_range w'
      → publish events command req w ≡ thrown (framework event_not_found) w'
  unfolding publish
  handler_fault_masked events command req w w' h t = ground arith

  -- `std::out_of_range` never leaves `publish` or `get_next_state`.
  pub no_std_out_of_range :
      (events : EventMap C S W) (command : C) (req : Request C) (w w' : W)
      → (publish events command req w ≢ thrown std_out_of_range w')
        × (get_next_state events command w ≢ thrown std_out_of_range w')
  unfolding publish get_next_state
  no_std_out_of_range events command req w w' = (rethrow_ne _ w', rethrow_ne _ w')

  -- After `add` a lookup finds what the table had, and else the new handler at its command: a
  -- second registration of a command is ignored, and no other command changes.
  pub find-add :
      (events : EventMap C S W) (command other : C) (handler : Request C → M W Bool) (next : S)
      → find other (add events command handler next)
        ≡ or_else (find other events) (
            ite
              (key.key_eq command other)
              (some (record { handler = handler; next_state = next }))
              none)
  unfolding add
  find-add events command other handler next = find-emplace command other _ events
