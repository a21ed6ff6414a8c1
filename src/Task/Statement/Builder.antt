-- ===== src/Task/Statement/Builder.antt =====
-- What a chain of `on` builds, and where it starts.
use cpp_framework.Prelude.{
  ◌≡◌, refl, Bool, true, false, Option, none, some, List, [], ◌∷◌, arith, ite, is_some, ap, ◌∙◌,
  sym, if◌then◌else◌, Option-cases, inl, inr,
}
use cpp_framework.Prelude.Map.{Key, find, insert_or_assign, or_else, find-insert_or_assign}
use cpp_framework.Error.Outcome.{returned, thrown, framework}
use cpp_framework.Message.Interface.{IMessageQueue}
use cpp_framework.Task.Aggregator
use cpp_framework.Task.Aggregator.{EventMap, MessageInfo, StateType}
use cpp_framework.Task.Aggregator.Laws.{find-add}
use cpp_framework.Task.StateMachine
use cpp_framework.Task.StateMachine.{
  Machine, Live, new_machine, events_of, state_not_found, enter, set_state, init, notify,
}
use cpp_framework.Task.StateMachine.Moves.{set_state-found, set_state-missing}
use cpp_framework.Task.EventTask.{Program, EventTask, Content}
use cpp_framework.Task.Statement.{
  StatementTask, new_statement_task, on, start, start_base, init_pending,
}

-- The arguments of one call of `on`.
pub record Transition (C S W : Type 0) : Type 0 where
  pub from : S
  pub command : C
  pub info : MessageInfo C S (Live S W)

or_else-none {ℓ} : {A : Type ℓ} (o : Option A) → o ≡ or_else o none
or_else-none none = refl
or_else-none (some a) = refl

module _ {C S W : Type 0} ⦃key : Key C⦄ ⦃states : Key S⦄ ⦃st : StateType S⦄ where
  -- A task built by these calls of `on`, the last one first.
  unfoldable pub built : S → List (Transition C S W) → StatementTask C S W
  unfolding on new_statement_task
  built s [] = new_statement_task s
  built s (t ∷ earlier) = on t.from t.command t.info.handler t.info.next_state (built s earlier)

  -- The first of the calls, the last one first, that is for this state and command.
  unfoldable pub first_for : S → C → List (Transition C S W) → Option (MessageInfo C S (Live S W))
  first_for s c [] = none
  first_for s c (t ∷ earlier) =
      or_else (first_for s c earlier)
        (ite (states.key_eq t.from s) (ite (key.key_eq t.command c) (some t.info) none) none)

  -- Whether any of the calls is for this state.
  unfoldable pub leaves_from : S → List (Transition C S W) → Bool
  leaves_from s [] = false
  leaves_from s (t ∷ earlier) = ite (states.key_eq t.from s) true (leaves_from s earlier)

  find-insert :
      (from s : S) (c : C) (x : EventMap C S (Live S W))
      (table : List (S × EventMap C S (Live S W)))
      → find c (events_of (insert_or_assign from x table) s)
        ≡ ite (states.key_eq from s) (find c x) (find c (events_of table s))
  find-insert from s c x table =
      ap (λ o. find c (elim o [ none ↦ [] | some events ↦ events ]))
        (find-insert_or_assign from s x table)
      ∙ (elim (states.key_eq from s)
          as (λ d.
            find c (elim (ite d (some x) (find s table)) [ none ↦ [] | some events ↦ events ])
            ≡ ite d (find c x) (find c (events_of table s))) [ yes _ ↦ refl | no _ ↦ refl ])

  find-events_of :
      (m : Machine C S W) (t : Transition C S W) (s : S) (c : C)
      → find c
          (events_of (StateMachine.add m t.from t.command t.info.handler t.info.next_state).table s)
        ≡ or_else
            (find c (events_of m.table s))
            (ite (states.key_eq t.from s) (ite (key.key_eq t.command c) (some t.info) none) none)
  unfolding StateMachine.add
  find-events_of m t s c =
      let old = find c (events_of m.table s) in
      let new = ite (key.key_eq t.command c) (some t.info) none in
      let events = events_of m.table t.from in
      let added = Aggregator.add events t.command t.info.handler t.info.next_state in
      find-insert t.from s c added m.table
      ∙ (elim (states.key_eq t.from s)
          as (λ d. ite d (find c added) old ≡ or_else old (ite d new none)) [
            | yes e ↦
                find-add events t.command c t.info.handler t.info.next_state
                ∙ ap (λ u. or_else (find c (events_of m.table u)) new) e
            | no _ ↦ or_else-none old
          ])

  has-add :
      (m : Machine C S W) (t : Transition C S W) (s : S)
      → is_some
          (find s (StateMachine.add m t.from t.command t.info.handler t.info.next_state).table)
        ≡ ite (states.key_eq t.from s) true (is_some (find s m.table))
  unfolding StateMachine.add
  has-add m t s = ground (
    arith,
    find-insert_or_assign t.from s
        (Aggregator.add (events_of m.table t.from) t.command t.info.handler t.info.next_state)
        m.table,
  )

  -- A task built by on() has for each state and command the handler and the next state of the first
  -- call of on() for them: later calls for the same pair are ignored.
  pub builder_first :
      (initial s : S) (c : C) (calls : List (Transition C S W))
      → find c (events_of (built initial calls).machine.table s) ≡ first_for s c calls
  unfolding built first_for on new_statement_task new_machine find
  builder_first initial s c [] = refl
  builder_first initial s c (t ∷ earlier) =
      find-events_of (built initial earlier).machine t s c
      ∙ ap
          (λ o.
            or_else o
              (ite (states.key_eq t.from s) (ite (key.key_eq t.command c) (some t.info) none) none))
          (builder_first initial s c earlier)

  has-built :
      (initial s : S) (calls : List (Transition C S W))
      → is_some (find s (built initial calls).machine.table) ≡ leaves_from s calls
  unfolding built leaves_from on new_statement_task new_machine find
  has-built initial s [] = refl
  has-built initial s (t ∷ earlier) =
      has-add (built initial earlier).machine t s
      ∙ ap (λ b. ite (states.key_eq t.from s) true b) (has-built initial s earlier)

  unobserved :
      (initial : S) (calls : List (Transition C S W))
      → ((built initial calls).machine.state_changed ≡ none)
        × ((built initial calls).pending_initial_state ≡ some initial)
  unfolding built on new_statement_task new_machine StateMachine.add
  unobserved initial [] = (refl, refl)
  unobserved initial (t ∷ earlier) = unobserved initial earlier

  init-built :
      (initial : S) (calls : List (Transition C S W)) (l : Live S W)
      → init_pending (built initial calls).machine (built initial calls).pending_initial_state l ≡ (
          if leaves_from initial calls
          then returned tt (enter initial l)
          else thrown (framework state_not_found) l)
  unfolding init_pending init
  init-built initial calls l =
      let m = (built initial calls).machine in
      let (quiet, pending) = unobserved initial calls in
      let has = has-built initial initial calls in
      elim (Option-cases (find initial m.table)) [
        | inl e ↦
            let no_leave : leaves_from initial calls ≡ false = sym has ∙ ap is_some e in
            rw (pending, no_leave) (set_state-missing m initial l e)
        | inr (events, e) ↦
            let leave : leaves_from initial calls ≡ true = sym has ∙ ap is_some e in
            rw (pending, leave) (set_state-found m initial l e ∙ rw quiet refl)
      ]

  -- start() of a task built by on() enters the initial state and then sends the start command to
  -- the thread, if some call of on() was for that state; otherwise it throws that the state was not
  -- found, and neither the queue nor the state has changed.
  pub start_built :
      {q : IMessageQueue (Content C)} (p : Program C (Live S W)) (initial : S)
      (calls : List (Transition C S W)) (task : EventTask C (Live S W) q)
      → start p (built initial calls) task ≡ (
          if leaves_from initial calls
          then start_base p (built initial calls) task (returned tt (enter initial task.world))
          else thrown (framework state_not_found) task)
  unfolding start
  start_built p initial calls task =
      ap (start_base p (built initial calls) task) (init-built initial calls task.world)
      ∙ (elim (leaves_from initial calls)
          as (λ b.
            start_base p (built initial calls) task (
              if b
              then returned tt (enter initial task.world)
              else thrown (framework state_not_found) task.world)
            ≡ (if b
                then start_base p (built initial calls) task
                    (returned tt (enter initial task.world))
                else thrown (framework state_not_found) task)) [ true ↦ refl | false ↦ refl ])
