-- ===== src/Task/StateMachine.antt =====
-- include/Task/StateMachine.hpp: a table of handlers for each state, and the current state.
-- Handlers and the observer `state_changed` are code of the user, and may themselves call
-- `set_state`: they act on the current state and on a world `W`.
pub mod Moves
pub mod Faults
pub mod Bound
pub mod Automaton
use cpp_framework.Prelude.{Bool, true, false, Option, none, some, List, [], text, ite}
use cpp_framework.Prelude.Map.{Key, find, emplace, insert_or_assign}
use cpp_framework.Error.{Exception, out_of_range, invalid_operation, new_exception}
use cpp_framework.Error.Outcome.{
  Outcome, returned, thrown, M, pure, throw, and_then, ◌>>=◌, ◌>>◌, std_out_of_range, framework,
  rethrow_out_of_range,
}
use cpp_framework.Task.Request.{Request}
use cpp_framework.Task.Aggregator
use cpp_framework.Task.Aggregator.{EventMap, MessageInfo, StateType, keep_state}

-- `aggregator` is a pointer into the table, by the key of its node; nodes are never erased.
pub record StateInfo (S : Type 0) : Type 0 where
  pub state : S
  pub aggregator : Option S

-- What a handler can see and change.
pub record Live (S W : Type 0) : Type 0 where
  pub current : StateInfo S
  pub world : W

pub record Machine (C S W : Type 0) : Type 0 where
  pub table : List (S × EventMap C S (Live S W))
  pub state_changed : Option (S → S → M (Live S W) (Unit {0}))

abbrev pub state_not_found : Exception
state_not_found = new_exception (text "State not found") out_of_range

abbrev pub not_initialized : Exception
not_initialized = new_exception (text "State machine not initialized") invalid_operation

module _ {S W : Type 0} where
  -- `if (state_changed) state_changed(from, to);`
  abbrev pub notify : Option (S → S → M (Live S W) (Unit {0})) → S → S → M (Live S W) (Unit {0})
  notify none from to l = returned tt l
  notify (some f) from to l = f from to l

  -- `current_.store({ new_state, table_.at(new_state) })` on a node that is there.
  abbrev pub enter : S → Live S W → Live S W
  enter s l = record l { current = record { state = s; aggregator = some s } }

  unfoldable pub get_state : Live S W → S
  get_state l = l.current.state

-- The default `StateInfo`: `kUndefinedState` is -1, and there is no aggregator.
abbrev pub start_info : {S : Type 0} ⦃st : StateType S⦄ → StateInfo S
start_info ⦃st⦄ = record { state = st.minus_one; aggregator = none }

module _ {C S W : Type 0} ⦃key : Key C⦄ ⦃states : Key S⦄ ⦃st : StateType S⦄ where
  -- The body of the `try` block of `set_state`.
  unfoldable pub set_state_body : Machine C S W → S → S → M (Live S W) (Unit {0})
  set_state_body m old new l = elim (find new m.table) [
    | none ↦ thrown std_out_of_range l
    | some events ↦ notify m.state_changed old new (enter new l)
  ]

  unfoldable pub set_state : Machine C S W → S → M (Live S W) (Unit {0})
  unfolding set_state_body
  set_state m new l = rethrow_out_of_range state_not_found (set_state_body m l.current.state new l)

  unfoldable pub init : Machine C S W → S → M (Live S W) (Unit {0})
  unfolding set_state
  init m s = set_state m s

  unfoldable pub new_machine : Machine C S W
  new_machine = record { table = []; state_changed = none }

  -- The constructor from a table, with the world in which it runs.
  unfoldable pub of_table :
      List (S × EventMap C S (Live S W)) → S → W → Machine C S W × Outcome (Live S W) (Unit {0})
  unfolding set_state
  of_table table initial w =
      let m : Machine C S W = record { table = table; state_changed = none } in
      (m, set_state m initial (record { current = start_info; world = w }))

  -- `table_[from]`, with the empty aggregator that the map makes for a new key.
  abbrev pub events_of : List (S × EventMap C S (Live S W)) → S → EventMap C S (Live S W)
  events_of table s = elim (find s table) [ none ↦ [] | some events ↦ events ]

  -- `table_[from].add(cmd, handler, next_state)`.
  unfoldable pub add : Machine C S W → S → C → (Request C → M (Live S W) Bool) → S → Machine C S W
  add m from command handler next = record m {
    table =
        insert_or_assign from (Aggregator.add (events_of m.table from) command handler next)
          m.table;
  }

  -- The last `if` of `publish`.
  unfoldable pub move_to : Machine C S W → S → M (Live S W) (Unit {0})
  unfolding set_state
  move_to m next l =
      ite (states.key_eq next keep_state) (returned tt l)
        (ite (states.key_eq l.current.state next) (returned tt l) (set_state m next l))

  -- What `publish` does once the handler has returned.
  unfoldable pub after_handler :
      Machine C S W → EventMap C S (Live S W) → C → Bool → M (Live S W) Bool
  unfolding move_to
  after_handler m events command false = pure false
  after_handler m events command true = do
    next ← Aggregator.get_next_state events command
    move_to m next
    pure true

  -- `publish` through the aggregator that `current_` points to.
  unfoldable pub publish_at :
      Machine C S W → EventMap C S (Live S W) → C → Request C → M (Live S W) Bool
  unfolding after_handler
  publish_at m events command req = do
    accepted ← Aggregator.publish events command req
    after_handler m events command accepted

  unfoldable pub publish : Machine C S W → C → Request C → M (Live S W) Bool
  unfolding publish_at
  publish m command req l = elim l.current.aggregator [
    | none ↦ thrown (framework not_initialized) l
    | some s ↦ publish_at m (events_of m.table s) command req l
  ]
