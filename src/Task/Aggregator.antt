-- ===== src/Task/Aggregator.antt =====
-- include/Task/MessageEventAggregator.hpp: a table from commands to handlers.
-- A handler is code of the user: a function on a world `W` that may return or throw.
pub mod Laws
use cpp_framework.Prelude.{Bool, Option, none, some, List, text, Text}
use cpp_framework.Prelude.Map.{Key, find, emplace}
use cpp_framework.Error.{Exception, out_of_range, new_exception}
use cpp_framework.Error.Outcome.{
  Outcome, returned, thrown, M, std_out_of_range, rethrow_out_of_range,
}
use cpp_framework.Task.Request.{Request}

-- A state type has the value -1 (`static_cast<State>(-1)`).
pub record StateType (S : Type 0) : Type 0 where
  pub minus_one : S

-- `kKeepState`.
abbrev pub keep_state : {S : Type 0} ⦃st : StateType S⦄ → S
keep_state ⦃st⦄ = st.minus_one

module _ (C S W : Type 0) where
  pub record MessageInfo : Type 0 where
    pub handler : Request C → M W Bool
    pub next_state : S

abbrev pub EventMap : Type 0 → Type 0 → Type 0 → Type 0
EventMap C S W = List (C × MessageInfo C S W)

-- `Exception("Event not found", Error::Code::OutOfRange)`.
abbrev pub event_not_found : Exception
event_not_found = new_exception (text "Event not found") out_of_range

module _ {C S W : Type 0} ⦃key : Key C⦄ where
  -- `MessageInfo::handle`.
  unfoldable pub handle : MessageInfo C S W → Request C → M W Bool
  handle info req = info.handler req

  unfoldable pub add : EventMap C S W → C → (Request C → M W Bool) → S → EventMap C S W
  add events command handler next_state =
      emplace command (record { handler = handler; next_state = next_state }) events

  -- The body of the `try` block of `publish`.
  unfoldable pub publish_body : EventMap C S W → C → Request C → M W Bool
  unfolding handle
  publish_body events command req w = elim (find command events) [
    | none ↦ thrown std_out_of_range w
    | some info ↦ handle info req w
  ]

  unfoldable pub publish : EventMap C S W → C → Request C → M W Bool
  unfolding publish_body
  publish events command req w =
      rethrow_out_of_range event_not_found (publish_body events command req w)

  unfoldable pub get_next_state : EventMap C S W → C → M W S
  get_next_state events command w =
      rethrow_out_of_range event_not_found (elim (find command events) [
        | none ↦ thrown std_out_of_range w
        | some info ↦ returned info.next_state w
      ])
