-- ===== src/Task/StateMachine/Automaton.antt =====
-- The state machine against the automaton that its table describes, for handlers that leave the
-- current state to the machine and a table with no dangling target.
use cpp_framework.Prelude.{
  ◌≡◌, ◌≢◌, refl, Bool, true, false, none, some, List, [], ◌∷◌, arith, ite, Option-cases, inl, inr,
  if_pos, if_neg, ◌∙◌, ap,
}
use cpp_framework.Prelude.Map.{Key, find}
use cpp_framework.Error.Outcome.{
  Outcome, returned, thrown, world_of, Outcome-cases, rethrow_out_of_range, Fault, std_out_of_range,
  framework, foreign,
}
use cpp_framework.Task.Request.{Request}
use cpp_framework.Task.Aggregator.{EventMap, MessageInfo, StateType, keep_state, event_not_found}
use cpp_framework.Task.StateMachine.{Live, Machine, publish, move_to, enter}
use cpp_framework.Task.StateMachine.Moves.{
  set_state-found, publish-verdict, publish-thrown, publish-missing,
}
use cpp_framework.Task.StateMachine.Bound.{IsBound}

-- Whether a request was accepted: a refusal and an exception count as no.
abbrev pub accepted : {W : Type 0} → Outcome W Bool → Bool
accepted (returned b w) = b
accepted (thrown f w) = false

module _ {C S W : Type 0} ⦃key : Key C⦄ ⦃states : Key S⦄ ⦃st : StateType S⦄ where
  -- What the handler of a command in the current state would answer.
  unfoldable pub verdict : Machine C S W → Live S W → Request C → Bool
  verdict m l req = elim (find l.current.state m.table) [
    | none ↦ false
    | some events ↦ elim (find req.command events) [
      | none ↦ false
      | some info ↦ accepted (info.handler req l)
    ]
  ]

  -- The automaton: an accepted command leads to its target, anything else stays.
  unfoldable pub next_of : Machine C S W → S → C → Bool → S
  next_of m s c false = s
  next_of m s c true = elim (find s m.table) [
    | none ↦ s
    | some events ↦ elim (find c events) [
      | none ↦ s
      | some info ↦ ite (states.key_eq info.next_state keep_state) s info.next_state
    ]
  ]

  pub record IsQuiet (m : Machine C S W) : Type 0 where
    pub unobserved : m.state_changed ≡ none
    pub handlers :
        (s : S) (c : C) (req : Request C) (l : Live S W) (events : EventMap C S (Live S W))
        (info : MessageInfo C S (Live S W))
        → find s m.table ≡ some events
        → find c events ≡ some info
        → (world_of (info.handler req l)).current ≡ l.current
    pub closed :
        (s : S) (c : C) (events : EventMap C S (Live S W)) (info : MessageInfo C S (Live S W))
        → find s m.table ≡ some events
        → find c events ≡ some info
        → info.next_state ≢ keep_state
        → (target : EventMap C S (Live S W)) × (find info.next_state m.table ≡ some target)

  -- One request through the machine as the task's loop sends it: exceptions are dropped.
  abbrev pub step : Machine C S W → Request C → Live S W → Live S W
  step m req l = world_of (publish m req.command req l)

  move_to-quiet :
      (m : Machine C S W) (s : S) (l : Live S W)
      → m.state_changed ≡ none
      → (s ≢ keep_state → (target : EventMap C S (Live S W)) × (find s m.table ≡ some target))
      → IsBound m l
      → (l' : Live S W) × (move_to m s l ≡ returned tt l')
        × (l'.current.state ≡ ite (states.key_eq s keep_state) l.current.state s)
        × IsBound m l'
  unfolding move_to
  move_to-quiet m s l quiet closed bound = elim (states.key_eq s keep_state) [
    | yes e ↦ (l, rw (if_pos _ e), rw (if_pos _ e), bound)
    | no n ↦ elim (states.key_eq l.current.state s) [
      | yes e ↦ (l, rw (if_neg _ n) (rw (if_pos _ e)), rw (if_neg _ n) e, bound)
      | no k ↦
          let (target, t) = closed n in
          (
            enter s l,
            rw (if_neg _ n) (rw (if_neg _ k) (rw (set_state-found m s l t) (rw quiet))),
            rw (if_neg _ n),
            (refl, (target, t)),
          )
    ]
  ]

  IsBound-current :
      (m : Machine C S W) (l l' : Live S W) → l'.current ≡ l.current → IsBound m l → IsBound m l'
  IsBound-current m l l' same bound = rw same bound

  -- What one request does: the machine accepts it exactly when the handler does, and then, and
  -- only then, follows the automaton.
  abbrev Follows : Machine C S W → Request C → Live S W → Type 0
  Follows m req l =
      (accepted (publish m req.command req l) ≡ verdict m l req)
      × ((step m req l).current.state ≡ next_of m l.current.state req.command (verdict m l req))
      × IsBound m (step m req l)

  module _ (m : Machine C S W) (quiet : IsQuiet m) (req : Request C) (l : Live S W)
      (bound : IsBound m l) where
    verdict-found :
        (events : EventMap C S (Live S W)) (info : MessageInfo C S (Live S W))
        → find l.current.state m.table ≡ some events
        → find req.command events ≡ some info
        → verdict m l req ≡ accepted (info.handler req l)
    unfolding verdict
    verdict-found events info e found = ground arith

    next_of-found :
        (events : EventMap C S (Live S W)) (info : MessageInfo C S (Live S W))
        → find l.current.state m.table ≡ some events
        → find req.command events ≡ some info
        → next_of m l.current.state req.command true
          ≡ ite (states.key_eq info.next_state keep_state) l.current.state info.next_state
    unfolding next_of
    next_of-found events info e found = ground arith

    next_of-refused : next_of m l.current.state req.command false ≡ l.current.state
    unfolding next_of
    next_of-refused = refl

    verdict-missing :
        (events : EventMap C S (Live S W))
        → find l.current.state m.table ≡ some events
        → find req.command events ≡ none
        → verdict m l req ≡ false
    unfolding verdict
    verdict-missing events e missing = ground arith

    returned-Follows :
        (events : EventMap C S (Live S W)) (info : MessageInfo C S (Live S W)) (b : Bool)
        (l' : Live S W)
        → find l.current.state m.table ≡ some events
        → find req.command events ≡ some info
        → info.handler req l ≡ returned b l'
        → Follows m req l
    returned-Follows events info true l' e found r =
        let same : l'.current ≡ l.current =
          rw r at (quiet.handlers _ _ req l events info e found) in
        let (l2, moved, state, bound2) =
          move_to-quiet m info.next_state l' quiet.unobserved
            (λ n. quiet.closed _ _ events info e found n) (IsBound-current m l l' same bound) in
        let p = publish-verdict m _ req.command req l l' true bound.0 e found r in
        let v : verdict m l req ≡ true = verdict-found events info e found ∙ ap accepted r in
        (
          rw (p, moved, v),
          rw (p, moved, v, next_of-found events info e found) (rw (← same) state),
          rw (p, moved) bound2,
        )
    returned-Follows events info false l' e found r =
        let same : l'.current ≡ l.current =
          rw r at (quiet.handlers _ _ req l events info e found) in
        let p = publish-verdict m _ req.command req l l' false bound.0 e found r in
        let v : verdict m l req ≡ false = verdict-found events info e found ∙ ap accepted r in
        (rw (p, v), rw (p, v, next_of-refused) (rw same), rw p (IsBound-current m l l' same bound))

    thrown-Follows :
        (events : EventMap C S (Live S W)) (info : MessageInfo C S (Live S W)) (f : Fault)
        (l' : Live S W)
        → find l.current.state m.table ≡ some events
        → find req.command events ≡ some info
        → info.handler req l ≡ thrown f l'
        → Follows m req l
    thrown-Follows events info f l' e found r =
        let same : l'.current ≡ l.current =
          rw r at (quiet.handlers _ _ req l events info e found) in
        let p = publish-thrown m _ req.command req l l' f bound.0 e found r in
        let v : verdict m l req ≡ false = verdict-found events info e found ∙ ap accepted r in
        (
          rw (p, v) (rethrown f),
          rw (p, v, next_of-refused, rethrown_world f) (rw same),
          rw (p, rethrown_world f) (IsBound-current m l l' same bound),
        )
      where
        rethrown :
            (f : Fault) → accepted (rethrow_out_of_range event_not_found (thrown f l')) ≡ false
        rethrown std_out_of_range = refl
        rethrown (framework x) = refl
        rethrown (foreign n) = refl

        rethrown_world :
            (f : Fault)
            → world_of (rethrow_out_of_range {A = Bool} event_not_found (thrown f l')) ≡ l'
        rethrown_world std_out_of_range = refl
        rethrown_world (framework x) = refl
        rethrown_world (foreign n) = refl

    missing-Follows :
        (events : EventMap C S (Live S W))
        → find l.current.state m.table ≡ some events
        → find req.command events ≡ none
        → Follows m req l
    missing-Follows events e missing =
        let p = publish-missing m _ req.command req l bound.0 e missing in
        let v = verdict-missing events e missing in
        (rw (p, v), rw (p, v, next_of-refused), rw p bound)

  -- One request on a machine whose handlers leave the current state alone, whose targets are all in
  -- the table and which has no observer: `publish` accepts exactly when the handler of the current
  -- state does, the state moves as the automaton does, and the pointer follows it.
  pub publish-Follows :
      (m : Machine C S W) (req : Request C) (l : Live S W)
      → IsQuiet m
      → IsBound m l
      → Follows m req l
  publish-Follows m req l quiet bound =
      let (events, e) = bound.1 in
      elim (Option-cases (find req.command events)) [
        | inl missing ↦ missing-Follows m quiet req l bound events e missing
        | inr (info, found) ↦ elim (Outcome-cases (info.handler req l)) [
          | inl (b, l', r) ↦ returned-Follows m quiet req l bound events info b l' e found r
          | inr (f, l', r) ↦ thrown-Follows m quiet req l bound events info f l' e found r
        ]
      ]

  -- A sequence of requests.
  unfoldable pub run : Machine C S W → List (Request C) → Live S W → Live S W
  run m [] l = l
  run m (req ∷ reqs) l = run m reqs (step m req l)

  -- The run of the automaton, with the verdicts of the handlers along the way.
  unfoldable pub follow : Machine C S W → List (Request C) → Live S W → S → S
  follow m [] l s = s
  follow m (req ∷ reqs) l s =
      follow m reqs (step m req l) (next_of m s req.command (verdict m l req))

  -- Refinement: over any sequence of requests the machine is in the state that the automaton of
  -- its table reaches on the handlers' verdicts, and its pointer is the one of that state.
  pub run-follow :
      (m : Machine C S W) (reqs : List (Request C)) (l : Live S W)
      → IsQuiet m
      → IsBound m l
      → ((run m reqs l).current.state ≡ follow m reqs l l.current.state) × IsBound m (run m reqs l)
  unfolding run follow
  run-follow m [] l quiet bound = (refl, bound)
  run-follow m (req ∷ reqs) l quiet bound =
      let (_, state, bound') = publish-Follows m req l quiet bound in
      let (ends, bound'') = run-follow m reqs (step m req l) quiet bound' in
      (ends ∙ ap (follow m reqs (step m req l)) state, bound'')
