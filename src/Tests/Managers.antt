-- ===== src/Tests/Managers.antt =====
-- Two tasks that count their requests, registered under names.
use cpp_framework.Prelude.{
  ℕ, ◌+◌, ◌≡◌, ◌≢◌, refl, ap, arith, Text, true, false, none, some, List, [], ◌∷◌, text, ℕ_discrete,
}
use cpp_framework.Prelude.Map.{text_key, times, find, erase, insert_or_assign}
use cpp_framework.Error.Outcome.{returned}
use cpp_framework.Task.Request.{Request, new_request_empty}
use cpp_framework.Task.Interface.{IEventTask}
use cpp_framework.Task.Manager.{has_task, find_or_throw, get_task, send_event, task_names}
use cpp_framework.Task.Manager.Registry.{
  Call, registered, unregistered, after, registry_latest, latest, once,
}
use cpp_framework.Task.Manager.Abstract.{Registry, call, has, listed, registry_laws}
use mathlib.Core.Quot.{Quot}

-- Adds `n` to the world at each request.
abbrev counting : ℕ → IEventTask ℕ ℕ
counting n = record {
  start = λ w. returned tt w;
  stop = λ w. returned tt w;
  send_event = λ r w. returned tt (w + n);
  rpc_event = λ r timeout w. returned true (w + n);
}

abbrev calls : List (Call ℕ ℕ)
calls =
    registered (text "b") none
    ∷ unregistered (text "a")
    ∷ registered (text "b") (some (counting 7))
    ∷ registered (text "b") (some (counting 5))
    ∷ registered (text "a") (some (counting 1))
    ∷ []

abbrev ping : Request ℕ
ping = new_request_empty [] 3

goes_to_b : send_event (after calls) (text "b") ping 10 ≡ returned tt 17
unfolding send_event after find erase insert_or_assign find_or_throw ℕ_discrete
goes_to_b = refl

a_is_gone : has_task (after calls) (text "a") ≡ false
unfolding has_task after find erase insert_or_assign ℕ_discrete
a_is_gone = refl

one_name : task_names (after calls) ≡ text "b" ∷ []
unfolding task_names after erase insert_or_assign ℕ_discrete
one_name = refl

registry_latest_example :
    (get_task (after calls) (text "b") 0 ≡ returned (counting 7) 0)
    × (has_task (after calls) (text "b") ≡ true)
    × (times (text "b") (task_names (after calls)) ≡ 1)
unfolding latest once ℕ_discrete
registry_latest_example = registry_latest calls (text "b") 0

abbrev first : Text → ℕ
first [] = 0
first (c ∷ cs) = c

abbrev some_registry : Registry ℕ ℕ
some_registry = Quot.mk calls

abbrev call_a : Call ℕ ℕ
call_a = registered (text "a") (some (counting 2))

abbrev call_b : Call ℕ ℕ
call_b = unregistered (text "b")

registry_laws_example :
    (call call_a (call call_b some_registry) ≡ call call_b (call call_a some_registry))
    × (call call_a (call (unregistered (text "a")) some_registry) ≡ call call_a some_registry)
    × (has (text "a") (call call_a some_registry) ≡ true)
    × (listed (text "a") (call call_a some_registry) ≡ 1)
    × (has (text "b") (call call_a some_registry) ≡ has (text "b") some_registry)
    × (listed (text "b") (call call_a some_registry) ≡ listed (text "b") some_registry)
registry_laws_example =
    registry_laws call_a call_b (unregistered (text "a")) some_registry apart refl refl
  where
    apart : text "a" ≢ text "b"
    apart e = omega (arith, ap first e)
