-- ===== src/Task/EventTask/Api.antt =====
-- What a client calls: the sender, the wait for a reply, and the methods of the task.
use cpp_framework.Prelude.{
  ℕ, Bool, true, false, Option, none, some, List, [], ◌∷◌, ◌++◌, length, get_elem?, ◌==◌, ◌||◌, not,
  if◌then◌else◌, is_some,
}
use cpp_framework.Error.Outcome.{M, Fault}
use cpp_framework.Message.Interface.{IMessageQueue}
use cpp_framework.Task.Request.{Request, new_request_empty}
use cpp_framework.Task.EventTask.{
  Attribute, internal, external, Content, Reply, pending, value, failed, Program, EventTask,
  looping, finished, joined, start_command, stop_command,
}

pub record Sender : Type 0 where
  pub response : Option ℕ
  pub sent : Bool

-- How `wait_for_response` ends, or that it does not.
pub data Waited : Type 0 where
  answered : Bool → Waited
  raised : Fault → Waited
  blocked : Waited

module _ {C W : Type 0} where
  unfoldable pub set_on_start : Option (M W (Unit {0})) → Program C W → Program C W
  set_on_start on_start p = record p { on_start = on_start }

  unfoldable pub set_on_finish : Option (M W (Unit {0})) → Program C W → Program C W
  set_on_finish on_finish p = record p { on_finish = on_finish }

module _ {C W : Type 0} {q : IMessageQueue (Content C)} where
  -- `Sender(message_queue, need_response)`: a fresh `Response` where one is needed.
  unfoldable pub new_sender : Bool → EventTask C W q → Sender × EventTask C W q
  new_sender true t = (
    record { response = some (length t.replies); sent = false },
    record t { replies = t.replies ++ pending ∷ [] },
  )
  new_sender false t = (record { response = none; sent = false }, t)

  -- `Sender::send`. The queue lives as long as the task, so `lock()` gives it.
  unfoldable pub sender_send :
      Sender → Attribute → Request C → EventTask C W q → Sender × EventTask C W q
  sender_send s attribute request t = (
    record s { sent = true },
    record t {
      queue =
          q.send (record { attribute = attribute; request = request; response = s.response })
            t.queue;
    },
  )

  -- Construction and sending, as every method does.
  unfoldable pub post : Attribute → Bool → Request C → EventTask C W q → Sender × EventTask C W q
  unfolding new_sender sender_send
  post attribute need_response request t =
      let (s, t') = new_sender need_response t in sender_send s attribute request t'

  unfoldable pub is_running : EventTask C W q → Bool
  is_running t = elim t.thread [ joined ↦ false | looping ↦ true | finished ↦ true ]

  -- `start()` up to its wait.
  unfoldable pub start : Program C W → EventTask C W q → Sender × EventTask C W q
  unfolding post
  start p = post internal true (new_request_empty [] (p.of_int start_command))

  -- `stop()` up to its wait; `none` is the early return.
  unfoldable pub stop : Program C W → EventTask C W q → Option (Sender × EventTask C W q)
  unfolding post is_running
  stop p t =
      if not (is_running t)
      then none
      else some (post internal true (new_request_empty [] (p.of_int stop_command)) t)

  -- The destructor, up to the wait of its `stop()`.
  unfoldable pub destroy : Program C W → EventTask C W q → Option (Sender × EventTask C W q)
  unfolding stop
  destroy = stop

  unfoldable pub send_event : Request C → EventTask C W q → EventTask C W q
  unfolding post
  send_event request t = (post external false request t).1

  -- `rpc_event` up to its wait.
  unfoldable pub rpc_event : Request C → EventTask C W q → Sender × EventTask C W q
  unfolding post
  rpc_event request = post external true request

-- `kWaitForever` is zero milliseconds.
abbrev pub wait_forever : ℕ
wait_forever = 0

-- A future with this content: `get()`, or the end of `wait_for`.
unfoldable pub future_get : ℕ → Option Reply → Waited
future_get timeout none = blocked
future_get timeout (some pending) = if timeout == wait_forever then blocked else answered false
future_get timeout (some (value b)) = answered b
future_get timeout (some (failed f)) = raised f

-- `wait_for_response`, at the state of the replies when the wait ends.
unfoldable pub wait_for_response : Sender → ℕ → List Reply → Waited
unfolding future_get
wait_for_response s timeout replies =
    if not (is_some s.response) || not s.sent then answered false else elim s.response [
      | none ↦ answered false
      | some i ↦ future_get timeout (get_elem? replies i)
    ]
