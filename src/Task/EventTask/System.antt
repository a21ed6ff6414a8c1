-- ===== src/Task/EventTask/System.antt =====
-- The task with its clients as a step relation: any client may call any method at any time, and the
-- thread of the task makes one iteration at a time. A handler that posts to its own task is a
-- client's step beside the iteration.
use cpp_framework.Prelude.{◌≡◌, true, false, some, []}
use cpp_framework.Message.Interface.{IMessageQueue}
use cpp_framework.Task.Request.{Request}
use cpp_framework.Task.EventTask.{
  Content, Program, EventTask, looping, finished, joined, iterate, finish,
}
use cpp_framework.Task.EventTask.Api.{Sender, start, stop, send_event, rpc_event}

module _ {C W : Type 0} {q : IMessageQueue (Content C)} where
  -- The constructor: an empty queue, and the thread running.
  unfoldable pub new_task : W → EventTask C W q
  new_task w = record {
    queue = q.empty;
    replies = [];
    stopped = false;
    thread = looping;
    world = w;
  }

  pub data Step (p : Program C W) (t : EventTask C W q) : EventTask C W q → Type 0 where
    starts : Step p t (start p t).1
    stops : {s : Sender} {t' : EventTask C W q} → stop p t ≡ some (s, t') → Step p t t'
    sends : (request : Request C) → Step p t (send_event request t)
    rpcs : (request : Request C) → Step p t (rpc_event request t).1
    turns : t.thread ≡ looping → t.stopped ≡ false → Step p t (iterate p t)
    ends :
        {t' : EventTask C W q}
        → t.thread ≡ looping
        → t.stopped ≡ true
        → finish p t ≡ some t'
        → Step p t t'
    joins : t.thread ≡ finished → Step p t (record t { thread = joined })

  pub data Steps (p : Program C W) (t : EventTask C W q) : EventTask C W q → Type 0 where
    here : Steps p t t
    later : {u v : EventTask C W q} → Steps p t u → Step p u v → Steps p t v
