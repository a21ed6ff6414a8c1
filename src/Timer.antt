-- ===== src/Timer.antt =====
-- include/Timer.hpp and lib/Timer/Timer.cpp: a timer with its thread. The calls of clients and the
-- moves of the thread are actions, in any order; a handler is the number of its function.
pub mod Ticks
use cpp_framework.Prelude.{
  ℕ, ◌+◌, ◌≡◌, Bool, true, false, Option, none, some, List, [], ◌∷◌, ◌++◌, if◌then◌else◌, length,
}

-- What the timer's thread has come to: none to be joined, about to copy the handlers, asleep, in
-- the calls of its handlers, or at its end.
pub data Thread : Type 0 where
  absent copying : Thread
  sleeping calling : List ℕ → Thread
  ended : Thread

pub record Timer : Type 0 where
  pub restart : Bool
  pub active : Bool
  pub thread : Thread
  pub event_handlers : List ℕ

unfoldable pub new_timer : Timer
new_timer = record { restart = false; active = false; thread = absent; event_handlers = [] }

unfoldable pub auto_restart : Bool → Timer → Timer
auto_restart val t = record t { restart = val }

unfoldable pub add_listener : ℕ → Timer → Timer
add_listener f t = record t { event_handlers = t.event_handlers ++ f ∷ [] }

-- `if (thread_.joinable()) thread_.join();`. A join that waits is `none`.
abbrev pub joined : Thread → Option Thread
joined absent = some absent
joined copying = none
joined (sleeping hs) = none
joined (calling hs) = none
joined ended = some absent

-- `start`, as far as a join lets it come: a call that waits has not changed anything yet.
unfoldable pub start : Timer → Timer
start t =
    if t.active
    then t
    else elim (joined t.thread) [ none ↦ t | some _ ↦ record t { active = true; thread = copying } ]

unfoldable pub stop : Timer → Timer
stop t = if t.active then record t { active = false } else t

-- `wait_for_stop`, which the destructor calls too: its result, or `none` while the join waits.
unfoldable pub wait_for_stop : Timer → Option Timer
unfolding stop
wait_for_stop t = elim (joined (stop t).thread) [
  | none ↦ none
  | some thread ↦ some (record (stop t) { thread = thread })
]

-- The next move of the thread; the calls of its handlers are one move.
unfoldable pub move_thread : Timer → Timer
move_thread t = elim t.thread [
  | absent ↦ t
  | copying ↦ record t { thread = sleeping t.event_handlers }
  | sleeping hs ↦ record t { thread = if t.active then calling hs else ended }
  | calling hs ↦ record t { thread = if t.restart then sleeping hs else ended }
  | ended ↦ t
]

pub data Action : Type 0 where
  starts stops moves : Action
  sets_restart : Bool → Action
  adds : ℕ → Action

unfoldable pub act : Action → Timer → Timer
unfolding start stop move_thread auto_restart add_listener
act starts = start
act stops = stop
act moves = move_thread
act (sets_restart b) = auto_restart b
act (adds f) = add_listener f

-- How often an action calls all the handlers: once if the thread is in those calls and moves.
unfoldable pub ticks_of : Action → Timer → ℕ
ticks_of moves t = elim t.thread [ calling hs ↦ 1 | _ ↦ 0 ]
ticks_of starts t = 0
ticks_of stops t = 0
ticks_of (sets_restart b) t = 0
ticks_of (adds f) t = 0

unfoldable pub run : List Action → Timer → Timer
unfolding act
run [] t = t
run (a ∷ rest) t = run rest (act a t)

unfoldable pub ticks : List Action → Timer → ℕ
unfolding ticks_of act
ticks [] t = 0
ticks (a ∷ rest) t = ticks_of a t + ticks rest (act a t)
