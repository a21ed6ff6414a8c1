-- ===== src/Tests/Basics.antt =====
-- Exceptions, requests, the table of handlers and the deque.
use cpp_framework.Prelude.{ℕ, ◌≡◌, refl, none, some, [], ◌∷◌, text, not, ◌==◌}
use cpp_framework.Error.{out_of_range, build_error_message}
use cpp_framework.Task.Request.{Request, assign_copy}
use cpp_framework.Message.Deque.{
  SynchronizedDeque, receive, is_empty, num_message, is_not_empty, clear, send,
}
use cpp_framework.Message.Deque.Laws.{is_empty-num_message}
use cpp_framework.Message.Deque.Fifo.{Calls, none_yet, then_call, sends, receives}
use cpp_framework.Tests.Machine.{phase_key, cmd_key}

message_text : build_error_message (text "x") out_of_range ≡ text "x (Error Code: 1)"
unfolding build_error_message
message_text = refl

-- A request with a payload, and one without.
abbrev loaded : Request ℕ
loaded = record { from = []; command = 1; payload = some (record { type_id = 2; value = 7 }) }

abbrev bare : Request ℕ
bare = record { from = []; command = 3; payload = none }

-- The old payload is still there after the assignment.
stale : assign_copy loaded bare ≡ record loaded { command = 3 }
unfolding assign_copy
stale = refl

abbrev two_items : SynchronizedDeque ℕ
two_items = record { queue = 4 ∷ 5 ∷ [] }

is_empty-num_message_example :
    (is_empty two_items ≡ (num_message two_items == 0))
    × (is_not_empty two_items ≡ not (is_empty two_items))
    × (num_message (clear two_items) ≡ 0)
is_empty-num_message_example = is_empty-num_message two_items

two_sends-Calls : Calls two_items (9 ∷ []) (4 ∷ []) (record { queue = 5 ∷ 9 ∷ [] })
unfolding send receive
two_sends-Calls = then_call (then_call none_yet (sends 9)) (receives refl)
