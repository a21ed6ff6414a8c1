-- ===== src/Task/EventTask.antt =====
-- include/Task/EventTaskBase.hpp and include/Task/interface/IEventTask.hpp: a thread that takes
-- requests from a queue and publishes them to its aggregator, and the calls of its clients.
pub mod Api
pub mod Queue
pub mod Turn
pub mod System
pub mod Answers
pub mod Drain
pub mod Serves
pub mod Halting
pub mod Answered
pub mod Due
pub mod Prompt
pub mod Race
pub mod Stopped
use cpp_framework.Prelude.{
  ℕ, zero, suc, Bool, true, false, Option, none, some, List, [], ◌∷◌, ◌++◌, length, set, get_elem?,
  ◌==◌, if◌then◌else◌, is_some, Text,
}
use cpp_framework.Error.Outcome.{Outcome, returned, thrown, M, Fault, and_then}
use cpp_framework.Message.Interface.{IMessageQueue}
use cpp_framework.Task.Request.{Request, new_request_empty}

pub data Attribute : Type 0 where
  unset internal external : Attribute

unfoldable pub is_internal : Attribute → Bool
is_internal unset = false
is_internal internal = true
is_internal external = false

unfoldable pub is_external : Attribute → Bool
is_external unset = false
is_external internal = false
is_external external = true

-- `MessageContent`; `response` points to a `Response`, by its index in the task's `replies`.
pub record Content (C : Type 0) : Type 0 where
  pub attribute : Attribute
  pub request : Request C
  pub response : Option ℕ

unfoldable pub is_response_required : {C : Type 0} → Content C → Bool
is_response_required c = is_some c.response

-- The shared state of a promise and its future.
pub data Reply : Type 0 where
  pending : Reply
  value : Bool → Reply
  failed : Fault → Reply

-- `InternalCommands`.
abbrev pub start_command : ℕ
start_command = 0

abbrev pub stop_command : ℕ
stop_command = 1

-- The aggregator and the callbacks of a task, and the casts between the command type and `int64_t`
-- (its 64-bit pattern): 0 and 1 must survive them.
pub record Program (C W : Type 0) : Type 0 where
  pub publish : C → Request C → M W Bool
  pub on_start : Option (M W (Unit {0}))
  pub on_finish : Option (M W (Unit {0}))
  pub of_int : ℕ → C
  pub to_int : C → ℕ

-- What the task's thread has come to.
pub data Thread : Type 0 where
  looping finished joined : Thread

pub record EventTask (C W : Type 0) (q : IMessageQueue (Content C)) : Type 0 where
  pub queue : q.Q
  pub replies : List Reply
  pub stopped : Bool
  pub thread : Thread
  pub world : W

module _ {C W : Type 0} (p : Program C W) where
  -- `process_internal_command`, with the value of `stopped_` that it leaves.
  unfoldable pub process_internal_command : Request C → Bool → M W Bool
  process_internal_command request stopped w =
      let command = p.to_int request.command in
      if command == start_command
      then elim p.on_start [
        | none ↦ returned stopped w
        | some f ↦ and_then (f w) (λ _. returned stopped)
      ]
      else if command == stop_command
      then returned true w
      else returned stopped w

  unfoldable pub process_event : Request C → M W Bool
  process_event request = p.publish request.command request

  -- The body of the `try` block: the value of `stopped_` and the response.
  unfoldable pub serve : Content C → Bool → M W (Bool × Bool)
  unfolding process_internal_command process_event is_internal
  serve c stopped w =
      if is_internal c.attribute
      then and_then (process_internal_command c.request stopped w) (λ s. returned (s, true))
      else and_then (process_event c.request w) (λ b. returned (stopped, b))

-- `response_->set(…)` and `handle_exception()`, where a response is required.
unfoldable pub respond : Option ℕ → Reply → List Reply → List Reply
respond none r replies = replies
respond (some i) r replies = set replies i r

module _ {C W : Type 0} {q : IMessageQueue (Content C)} where
  -- The end of an iteration: the reply, and what the `catch (...)` does with an exception.
  unfoldable pub settle :
      EventTask C W q → Content C → q.Q → Outcome W (Bool × Bool) → EventTask C W q
  unfolding respond
  settle t c rest (returned (stopped, b) w) = record t {
    queue = rest;
    replies = respond c.response (value b) t.replies;
    stopped = stopped;
    world = w;
  }
  settle t c rest (thrown f w) = record t {
    queue = rest;
    replies = respond c.response (failed f) t.replies;
    world = w;
  }

  -- One iteration of the loop of `main_loop`; with nothing to receive the thread stays where it is.
  unfoldable pub iterate : Program C W → EventTask C W q → EventTask C W q
  unfolding serve settle
  iterate p t = elim (q.receive t.queue) [
    | none ↦ t
    | some (c, rest) ↦ settle t c rest (serve p c t.stopped t.world)
  ]

  -- The loop of `main_loop`, for at most this many iterations.
  unfoldable pub loop : ℕ → Program C W → EventTask C W q → EventTask C W q
  loop zero p t = t
  loop (suc rounds) p t = let rest = loop rounds p (iterate p t) in if t.stopped then t else rest

  -- The end of `main_loop`. An exception of `on_finish` would end the process: it is `none`.
  unfoldable pub finish : Program C W → EventTask C W q → Option (EventTask C W q)
  finish p t = elim p.on_finish [
    | none ↦ some (record t { thread = finished })
    | some f ↦ elim (f t.world) [
      | returned _ w ↦ some (record t { thread = finished; world = w })
      | thrown f w ↦ none
    ]
  ]
