-- ===== src/Task/StateMachine/Bound.antt =====
-- The invariant of the state machine: the current state is a key of the table, and the pointer to
-- its handlers is the one of that key.
use cpp_framework.Prelude.{
  if◌then◌else◌, Bool, true, false, ◌≡◌, refl, some, Option-cases, inl, inr, if_pos, if_neg,
}
use cpp_framework.Prelude.Map.{Key, find}
use cpp_framework.Error.{Exception}
use cpp_framework.Error.Outcome.{
  Outcome, returned, thrown, M, rethrow_out_of_range, and_then, world_of, pure, Outcome-cases,
  std_out_of_range, framework, foreign,
}
use cpp_framework.Task.Request.{Request}
use cpp_framework.Task.Aggregator.{EventMap, event_not_found, MessageInfo, StateType, keep_state}
use cpp_framework.Task.StateMachine.{
  Live, Machine, get_state, publish, enter, set_state, move_to, state_not_found, notify,
}
use cpp_framework.Task.StateMachine.Moves.{
  set_state-found, set_state-missing, publish-verdict, publish-thrown, publish-missing,
}

-- A property of worlds that holds after an outcome, however it ends.
abbrev pub Leaves : {W A : Type 0} → (W → Type 0) → Outcome W A → Type 0
Leaves P o = P (world_of o)

Leaves-rethrow :
    {W A : Type 0} (P : W → Type 0) (e : Exception) (o : Outcome W A)
    → Leaves P o
    → Leaves P (rethrow_out_of_range e o)
Leaves-rethrow P e (returned a w) h = h
Leaves-rethrow P e (thrown std_out_of_range w) h = h
Leaves-rethrow P e (thrown (framework x) w) h = h
Leaves-rethrow P e (thrown (foreign n) w) h = h

Leaves-and_then :
    {W A B : Type 0} (P : W → Type 0) (o : Outcome W A) (k : A → M W B)
    → Leaves P o
    → ((a : A) (w : W) → P w → Leaves P (k a w))
    → Leaves P (and_then o k)
Leaves-and_then P (returned a w) k h next = next a w h
Leaves-and_then P (thrown f w) k h next = h

module _ {C S W : Type 0} ⦃key : Key C⦄ ⦃states : Key S⦄ ⦃st : StateType S⦄ where
  abbrev pub IsBound : Machine C S W → Live S W → Type 0
  IsBound m l =
      (l.current.aggregator ≡ some l.current.state)
      × ((events : EventMap C S (Live S W)) × (find l.current.state m.table ≡ some events))

  -- Code of the user that keeps the invariant: every handler of the table, and the observer.
  pub record IsWellBehaved (m : Machine C S W) : Type 0 where
    pub handlers :
        (s : S) (c : C) (req : Request C) (l : Live S W) (events : EventMap C S (Live S W))
        (info : MessageInfo C S (Live S W))
        → find s m.table ≡ some events
        → find c events ≡ some info
        → IsBound m l
        → Leaves (IsBound m) (info.handler req l)
    pub observer :
        (from to : S) (l : Live S W)
        → IsBound m l
        → Leaves (IsBound m) (notify m.state_changed from to l)

  pub set_state-IsBound :
      (m : Machine C S W) (s : S) (l : Live S W)
      → IsWellBehaved m
      → IsBound m l
      → Leaves (IsBound m) (set_state m s l)
  set_state-IsBound m s l good bound = elim (Option-cases (find s m.table)) [
    | inl e ↦ rw (set_state-missing m s l e) bound
    | inr (events, e) ↦ rw (set_state-found m s l e) (
        Leaves-rethrow (IsBound m) state_not_found
          (notify m.state_changed (get_state l) s (enter s l))
          (good.observer (get_state l) s (enter s l) (refl, (events, e))))
  ]

  move_to-IsBound :
      (m : Machine C S W) (s : S) (l : Live S W)
      → IsWellBehaved m
      → IsBound m l
      → Leaves (IsBound m) (move_to m s l)
  unfolding move_to
  move_to-IsBound m s l good bound = elim (states.key_eq s keep_state) [
    | yes e ↦ rw (if_pos _ e) bound
    | no n ↦ rw (if_neg _ n) (elim (states.key_eq l.current.state s) [
      | yes e ↦ rw (if_pos _ e) bound
      | no k ↦ rw (if_neg _ k) (set_state-IsBound m s l good bound)
    ])
  ]

  verdict-IsBound :
      (m : Machine C S W) (s : S) (b : Bool) (l : Live S W)
      → IsWellBehaved m
      → IsBound m l
      → Leaves
          (IsBound m)
          (if b then and_then (move_to m s l) (λ _. pure true) else returned false l)
  verdict-IsBound m s true l good bound =
      Leaves-and_then (IsBound m) (move_to m s l) _ (move_to-IsBound m s l good bound) (λ _ w h. h)
  verdict-IsBound m s false l good bound = bound

  -- `publish` keeps the invariant, whether it returns or throws, if the code of the user does.
  pub publish-IsBound :
      (m : Machine C S W) (command : C) (req : Request C) (l : Live S W)
      → IsWellBehaved m
      → IsBound m l
      → Leaves (IsBound m) (publish m command req l)
  publish-IsBound m command req l good (at_s, (events, e)) =
      elim (Option-cases (find command events)) [
        | inl missing ↦ rw (publish-missing m _ command req l at_s e missing) (at_s, (events, e))
        | inr (info, found) ↦
            let kept = good.handlers _ command req l events info e found (at_s, (events, e)) in
            elim (Outcome-cases (info.handler req l)) [
              | inl (b, l', r) ↦
                  rw (publish-verdict m _ command req l l' b at_s e found r)
                    (verdict-IsBound m info.next_state b l' good (rw r at kept))
              | inr (f, l', r) ↦
                  rw (publish-thrown m _ command req l l' f at_s e found r)
                    (Leaves-rethrow (IsBound m) event_not_found (thrown f l') (rw r at kept))
            ]
      ]
