-- ===== src/Task/Manager/Registry.antt =====
-- The manager as a function from names to tasks.
use cpp_framework.Prelude.{
  ℕ, ◌≡◌, refl, Option, none, some, List, [], ◌∷◌, Text, arith, ite, is_some, ap,
}
use cpp_framework.Prelude.Map.{
  text_key, find, find-insert_or_assign, find-erase, times, times-insert_or_assign, times-erase,
}
use cpp_framework.Error.Outcome.{M, Outcome, returned, thrown, framework, world_of, and_then}
use cpp_framework.Task.Request.{Request}
use cpp_framework.Task.Interface.{IEventTask}
use cpp_framework.Task.Manager.{
  EventTaskManager, new_manager, register_task, unregister_task, has_task, task_names, get_task,
  find_or_throw, send_event, rpc_event, task_not_found,
}

pub data Call (C W : Type 0) : Type 0 where
  registered : Text → Option (IEventTask C W) → Call C W
  unregistered : Text → Call C W

module _ {C W : Type 0} where
  unfoldable pub apply : Call C W → EventTaskManager C W → EventTaskManager C W
  unfolding register_task unregister_task
  apply (registered name task) m = world_of (register_task name task m)
  apply (unregistered name) m = unregister_task name m

  -- The calls, the last one first.
  unfoldable pub after : List (Call C W) → EventTaskManager C W
  unfolding apply new_manager
  after [] = new_manager
  after (c ∷ calls) = apply c (after calls)

  -- The task that a name stands for, read off the calls, the last one first: that of the last
  -- registration, unless it was taken back since.
  unfoldable pub latest : Text → List (Call C W) → Option (IEventTask C W)
  latest k [] = none
  latest k (registered name none ∷ calls) = latest k calls
  latest k (registered name (some task) ∷ calls) =
      ite (text_key.key_eq name k) (some task) (latest k calls)
  latest k (unregistered name ∷ calls) = ite (text_key.key_eq name k) none (latest k calls)

  pub find-after :
      (k : Text) (calls : List (Call C W)) → find k (after calls).tasks ≡ latest k calls
  unfolding after apply latest register_task unregister_task new_manager find
  find-after k [] = refl
  find-after k (registered name none ∷ calls) = find-after k calls
  find-after k (registered name (some task) ∷ calls) =
      rw (find-insert_or_assign name k task (after calls).tasks, find-after k calls)
  find-after k (unregistered name ∷ calls) =
      rw (find-erase name k (after calls).tasks, find-after k calls)

  unfoldable pub once : Option (IEventTask C W) → ℕ
  once none = 0
  once (some task) = 1

  pub times-after :
      (k : Text) (calls : List (Call C W))
      → times k (task_names (after calls)) ≡ once (latest k calls)
  unfolding after apply latest register_task unregister_task new_manager task_names times once
  times-after k [] = refl
  times-after k (registered name none ∷ calls) = times-after k calls
  times-after k (registered name (some task) ∷ calls) =
      rw (times-insert_or_assign k name task (after calls).tasks, times-after k calls)
        (ground arith)
  times-after k (unregistered name ∷ calls) =
      rw (times-erase k name (after calls).tasks, times-after k calls) (ground arith)

  -- What a call by name comes to, given the task that the name stands for.
  abbrev pub answer :
      {A : Type 0}
      → Text
      → W
      → (IEventTask C W → Outcome W A)
      → Option (IEventTask C W)
      → Outcome W A
  answer name w call none = thrown (framework (task_not_found name)) w
  answer name w call (some task) = call task

  found_answer :
      {A : Type 0} (name : Text) (m : EventTaskManager C W) (w : W) (call : IEventTask C W → M W A)
      (o : Option (IEventTask C W))
      → find name m.tasks ≡ o
      → and_then (find_or_throw m name w) call ≡ answer name w (λ task. call task w) o
  unfolding find_or_throw
  found_answer name m w call none e = grind arith
  found_answer name m w call (some task) e = grind arith

  -- After any calls of register_task and unregister_task on a new manager, a name stands for the
  -- task of its last registration unless that was taken back since, a null pointer registering
  -- nothing: get_task gives that task or throws InvalidArgument, has_task says which, and
  -- task_names lists the name once or not at all.
  pub registry_latest :
      (calls : List (Call C W)) (name : Text) (w : W)
      → (get_task (after calls) name w ≡ answer name w (λ t. returned t w) (latest name calls))
        × (has_task (after calls) name ≡ is_some (latest name calls))
        × (times name (task_names (after calls)) ≡ once (latest name calls))
  unfolding get_task has_task
  registry_latest calls name w = (
    ap (answer name w (λ t. returned t w)) (find-after name calls),
    ap is_some (find-after name calls),
    times-after name calls,
  )

  -- A request sent or called by name is the call of the task of the name's last registration; for
  -- a name that stands for no task it throws InvalidArgument and reaches no task.
  pub routed :
      (calls : List (Call C W)) (name : Text) (request : Request C) (timeout : ℕ) (w : W)
      → (send_event (after calls) name request w
          ≡ answer name w (λ task. task.send_event request w) (latest name calls))
        × (rpc_event (after calls) name request timeout w
            ≡ answer name w (λ task. task.rpc_event request timeout w) (latest name calls))
  unfolding send_event rpc_event
  routed calls name request timeout w =
      let e = find-after name calls in
      let m = after calls in
      (
        found_answer name m w (λ task. task.send_event request) (latest name calls) e,
        found_answer name m w (λ task. task.rpc_event request timeout) (latest name calls) e,
      )
