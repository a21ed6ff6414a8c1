-- ===== src/Tests/Tasks.antt =====
-- A task over the deque, with a handler that accepts, refuses or throws by the command's number.
use cpp_framework.Prelude.{
  ℕ, suc, ◌≡◌, ◌≢◌, ◌≤◌, ◌⊎◌, refl, Bool, true, false, none, some, [], ◌∷◌, arith, if◌then◌else◌,
  ◌==◌,
}
use cpp_framework.Error.Outcome.{Outcome, returned, thrown, foreign}
use cpp_framework.Message.Interface.{IMessageQueue}
use cpp_framework.Message.Deque.{deque, receive, send, new_deque}
use cpp_framework.Task.Request.{Request, new_request_empty}
use cpp_framework.Task.EventTask.{
  Content, Program, EventTask, Attribute, unset, internal, external, pending, value, failed,
  looping, finished, is_internal, iterate, loop, respond,
}
use cpp_framework.Task.EventTask.Api.{
  rpc_event, wait_for_response, wait_forever, blocked, raised, answered, post, stop, new_sender,
  sender_send,
}
use cpp_framework.Task.EventTask.System.{new_task, Steps, stops, rpcs, turns, here, later}
use cpp_framework.Task.EventTask.Answers.{IsTracked, Steps-IsTracked}
use cpp_framework.Task.EventTask.Halting.{loop-stops, world_after, replies_after, effect_of}
use cpp_framework.Task.EventTask.Race.{stop_race_blocks}
use cpp_framework.Task.EventTask.Prompt.{turns_in, call_prompt}
use cpp_framework.Task.EventTask.Answered.{rpc_answered}
use cpp_framework.Task.EventTask.Serves.{served_world, served_replies, loop-serves}

abbrev request : ℕ → Request ℕ
request c = record { from = []; command = c; payload = none }

-- Command 0 throws; any other is counted, and accepted if it is 7.
abbrev handler : ℕ → Request ℕ → ℕ → Outcome ℕ Bool
handler c req w = if c == 0 then thrown (foreign 3) w else returned (c == 7) (suc w)

abbrev program : Program ℕ ℕ
program = record {
  publish = handler;
  on_start = none;
  on_finish = none;
  of_int = λ n. n;
  to_int = λ n. n;
}

abbrev queue : IMessageQueue (Content ℕ)
queue = deque (record { attribute = unset; request = request 0; response = none })

abbrev fresh : EventTask ℕ ℕ queue
fresh = record {
  queue = record { queue = [] };
  replies = [];
  stopped = false;
  thread = looping;
  world = 0;
}

abbrev message : Attribute → ℕ → ℕ → Content ℕ
message a c i = record { attribute = a; request = request c; response = some i }

-- Three calls in the queue: a throwing one, a stop and an accepted one.
abbrev busy : EventTask ℕ ℕ queue
busy = record {
  queue = record {
    queue = message external 0 0 ∷ message internal 1 1 ∷ message external 7 2 ∷ [];
  };
  replies = pending ∷ pending ∷ pending ∷ [];
  stopped = false;
  thread = looping;
  world = 0;
}

-- The exception reaches the first caller, the stop ends the loop, the last call stays unanswered.
busy_runs : loop 9 program busy ≡ record {
  queue = record { queue = message external 7 2 ∷ [] };
  replies = failed (foreign 3) ∷ value true ∷ pending ∷ [];
  stopped = true;
  thread = looping;
  world = 0;
}
unfolding loop iterate receive
busy_runs = refl

loop-stops_example :
    let end = loop 5 program busy in
    (queue.contents end.queue ≡ message external 7 2 ∷ [])
    × (end.stopped ≡ true)
    × (end.world ≡ 0)
    × (end.replies ≡ failed (foreign 3) ∷ value true ∷ pending ∷ [])
unfolding is_internal world_after replies_after effect_of respond
loop-stops_example =
    loop-stops program 5 busy (message external 0 0 ∷ []) (message external 7 2 ∷ [])
      (message internal 1 1) refl refl (refl, tt) refl refl (omega arith)

-- Two calls and no stop.
abbrev open_task : EventTask ℕ ℕ queue
open_task = record busy {
  queue = record { queue = message external 0 0 ∷ message external 7 1 ∷ [] };
}

-- The first call throws and the second is counted and accepted.
loop-serves_example :
    (queue.contents (loop 2 program open_task).queue ≡ [])
    × ((loop 2 program open_task).world ≡ 1)
    × ((loop 2 program open_task).replies ≡ failed (foreign 3) ∷ value true ∷ pending ∷ [])
unfolding respond served_world served_replies
loop-serves_example =
    loop-serves program 2 open_task (message external 0 0 ∷ message external 7 1 ∷ []) refl refl
      (refl, (refl, tt)) (omega arith)

one_call :
    Steps program (new_task {q = queue} 0) (iterate program (rpc_event (request 7) (new_task 0)).1)
unfolding new_task rpc_event
one_call = later (later here (rpcs (request 7))) (turns refl refl)

Steps-IsTracked_example :
    IsTracked (iterate program (rpc_event (request 7) (new_task {q = queue} 0)).1)
Steps-IsTracked_example = Steps-IsTracked 0 one_call

gone : EventTask ℕ ℕ queue
gone = record fresh { stopped = true; thread = finished }

-- A task that a client stops; before the thread comes to it another client stops it too.
abbrev first_stop : Content ℕ
first_stop = record { attribute = internal; request = new_request_empty [] 1; response = some 0 }

abbrev stopping : EventTask ℕ ℕ queue
stopping = record fresh { queue = record { queue = first_stop ∷ [] }; replies = pending ∷ [] }

stopping_reached : Steps program (new_task {q = queue} 0) stopping
unfolding new_task stop send new_deque
stopping_reached = later here (stops refl)

stop_race_blocks_example :
    let second = post internal true (new_request_empty [] 1) stopping in
    wait_for_response second.0 wait_forever (iterate program second.1).replies ≡ blocked
unfolding post is_internal new_request_empty
stop_race_blocks_example =
    stop_race_blocks program 0 internal (new_request_empty [] 1) [] [] first_stop stopping_reached
      refl refl (later here (turns refl refl))

-- Two calls, the first of which throws, and the rounds at which a third is answered.
abbrev two_calls : EventTask ℕ ℕ queue
two_calls = (rpc_event (request 7) (rpc_event (request 0) (new_task 0)).1).1

two_calls_reached : Steps program (new_task {q = queue} 0) two_calls
two_calls_reached = later (later here (rpcs (request 0))) (rpcs (request 7))

rpc_answered_example :
    let (sender, t) = rpc_event (request 0) two_calls in
    (wait_for_response sender 50 (loop 3 program t).replies ≡ raised (foreign 3))
    × ((loop 3 program t).world ≡ 1)
unfolding served_world new_task rpc_event send new_deque
rpc_answered_example =
    rpc_answered program 0 3 50 (request 0) two_calls
      (message external 0 0 ∷ message external 7 1 ∷ []) two_calls_reached refl refl
      (refl, (refl, tt))

-- After two rounds its time is over.
late :
    let (sender, t) = rpc_event (request 0) two_calls in
    wait_for_response sender 50 (loop 2 program t).replies ≡ answered false
unfolding rpc_event loop iterate receive wait_for_response new_task send new_deque
late = refl

-- Another call behind these two, a turn of the thread, and a stop by another client.
abbrev prompt_call : EventTask ℕ ℕ queue
prompt_call = (post external true (request 7) open_task).1

abbrev prompt_later : EventTask ℕ ℕ queue
prompt_later = (post internal true (new_request_empty [] 1) (iterate program prompt_call)).1

prompt_run : Steps program prompt_call prompt_later
unfolding post iterate receive send stop new_sender sender_send
prompt_run = later (later here (turns refl refl)) (stops refl)

call_prompt_example :
    (wait_for_response
        (post external true (request 7) open_task).0
        wait_forever
        prompt_later.replies
      ≢ blocked)
    ⊎ ((turns_in prompt_run ≤ 2)
        × (prompt_later.thread ≡ looping)
        × (prompt_later.stopped ≡ false)
        × (queue.contents prompt_later.queue ≢ []))
unfolding is_internal
call_prompt_example =
    call_prompt external (request 7) open_task (message external 0 0 ∷ message external 7 1 ∷ [])
      refl (refl, (refl, tt)) refl refl prompt_run
