-- ===== src/Timer/Ticks.antt =====
-- How often a timer calls its handlers.
use cpp_framework.Prelude.{
  ℕ, suc, ◌+◌, ◌-◌, ◌≤◌, ◌≡◌, ◌⊎◌, inl, refl, true, false, some, List, [], ◌∷◌, arith,
}
use cpp_framework.Timer.{
  Timer, Thread, absent, copying, sleeping, calling, ended, new_timer, start, stop, wait_for_stop,
  move_thread, auto_restart, add_listener, Action, starts, stops, moves, sets_restart, adds, act,
  ticks_of, run, ticks,
}

-- Neither a stop nor a change of the restart.
abbrev pub IsPlain : Action → Type 0
IsPlain starts = Unit
IsPlain stops = ⊥
IsPlain moves = Unit
IsPlain (sets_restart b) = ⊥
IsPlain (adds f) = Unit

-- No start.
abbrev pub IsIdle : Action → Type 0
IsIdle starts = ⊥
IsIdle stops = Unit
IsIdle moves = Unit
IsIdle (sets_restart b) = Unit
IsIdle (adds f) = Unit

abbrev pub All : (Action → Type 0) → List Action → Type 0
All P [] = Unit
All P (a ∷ rest) = P a × All P rest

-- The calls that a timer that does not restart has before it, until it is stopped.
room : Thread → ℕ
room absent = 1
room copying = 1
room (sleeping hs) = 1
room (calling hs) = 1
room ended = 0

-- Without a restart, and active from its first start on.
IsOneShot : Timer → Type 0
IsOneShot t = (t.restart ≡ false) × ((t.thread ≡ absent) ⊎ (t.active ≡ true))

act-IsOneShot :
    (a : Action) (t : Timer)
    → IsPlain a
    → IsOneShot t
    → IsOneShot (act a t) × (ticks_of a t + room (act a t).thread ≤ room t.thread)
unfolding act start stop move_thread auto_restart add_listener ticks_of room IsOneShot
act-IsOneShot starts t p inv = ground (arith, inv)
act-IsOneShot moves t p inv = ground (arith, inv)
act-IsOneShot (adds f) t p inv = ground (arith, inv)
act-IsOneShot stops t p inv = elim p [ ]
act-IsOneShot (sets_restart b) t p inv = elim p [ ]

ticks-room :
    (rest : List Action) (t : Timer) → All IsPlain rest → IsOneShot t → ticks rest t ≤ room t.thread
unfolding ticks
ticks-room [] t p inv = omega arith
ticks-room (a ∷ rest) t p inv =
    let (inv', le) = act-IsOneShot a t p.0 inv in omega (arith, ticks-room rest (act a t) p.1 inv')

-- A timer that does not restart calls its handlers at most once, however often it is started, as
-- long as nobody calls stop().
pub one_shot_once : (rest : List Action) → All IsPlain rest → ticks rest new_timer ≤ 1
unfolding new_timer room IsOneShot
one_shot_once rest p = ticks-room rest new_timer p (refl, inl refl)

-- The calls that a stopped timer has before it, and the moves of its thread.
last : Thread → ℕ
last absent = 0
last copying = 0
last (sleeping hs) = 0
last (calling hs) = 1
last ended = 0

moves_left : Thread → ℕ
moves_left absent = 0
moves_left copying = 2
moves_left (sleeping hs) = 1
moves_left (calling hs) = 2
moves_left ended = 0

unfoldable pub count_moves : List Action → ℕ
count_moves [] = 0
count_moves (moves ∷ rest) = suc (count_moves rest)
count_moves (starts ∷ rest) = count_moves rest
count_moves (stops ∷ rest) = count_moves rest
count_moves (sets_restart b ∷ rest) = count_moves rest
count_moves (adds f ∷ rest) = count_moves rest

count_moves-cons :
    (a : Action) (rest : List Action)
    → count_moves (a ∷ rest) ≡ count_moves (a ∷ []) + count_moves rest
unfolding count_moves
count_moves-cons a rest = ground arith

act-stopped :
    (a : Action) (t : Timer)
    → IsIdle a
    → t.active ≡ false
    → ((act a t).active ≡ false)
      × (ticks_of a t + last (act a t).thread ≤ last t.thread)
      × (moves_left (act a t).thread ≤ moves_left t.thread - count_moves (a ∷ []))
unfolding act stop move_thread auto_restart add_listener ticks_of last moves_left count_moves
act-stopped starts t p h = elim p [ ]
act-stopped stops t p h = ground (arith, h)
act-stopped moves t p h = ground (arith, h)
act-stopped (sets_restart b) t p h = ground (arith, h)
act-stopped (adds f) t p h = ground (arith, h)

stopped-run :
    (rest : List Action) (t : Timer)
    → All IsIdle rest
    → t.active ≡ false
    → (ticks rest t ≤ last t.thread)
      × ((run rest t).active ≡ false)
      × (moves_left (run rest t).thread ≤ moves_left t.thread - count_moves rest)
unfolding ticks run count_moves
stopped-run [] t p h = (omega arith, h, omega arith)
stopped-run (a ∷ rest) t p h =
    let (h', le, left) = act-stopped a t p.0 h in
    let (le', h'', left') = stopped-run rest (act a t) p.1 h' in
    (omega arith, h'', omega (arith, count_moves-cons a rest))

at_most : (x : Thread) → (last x ≤ 1) × (moves_left x ≤ 2)
unfolding last moves_left
at_most x = ground arith

stop-inactive : (t : Timer) → (stop t).active ≡ false
unfolding stop
stop-inactive t = ground arith

-- After stop(), and until the next start, the handlers are called at most once more, whatever is
-- called and however the thread moves.
stop_last_tick : (rest : List Action) (t : Timer) → All IsIdle rest → ticks rest (stop t) ≤ 1
stop_last_tick rest t p =
    let (le, _, _) = stopped-run rest (stop t) p (stop-inactive t) in
    omega (arith, le, (at_most (stop t).thread).0)

wait_for_stop-done :
    (t : Timer)
    → t.active ≡ false
    → moves_left t.thread ≡ 0
    → wait_for_stop t ≡ some (record t { thread = absent })
unfolding wait_for_stop stop moves_left
wait_for_stop-done t h d = ground (arith, h, d)

-- After stop(), over any calls but a start and any moves of the thread, of which there are at least
-- two: the handlers are called at most once more, and then wait_for_stop returns, with no thread
-- left to join.
pub stop_ends :
    (rest : List Action) (t : Timer)
    → All IsIdle rest
    → 2 ≤ count_moves rest
    → (ticks rest (stop t) ≤ 1)
      × (wait_for_stop (run rest (stop t)) ≡ some (record (run rest (stop t)) { thread = absent }))
stop_ends rest t p enough =
    let (_, inactive, left) = stopped-run rest (stop t) p (stop-inactive t) in
    let end = run rest (stop t) in
    let done : moves_left end.thread ≡ 0 = omega (arith, left, (at_most (stop t).thread).1) in
    (stop_last_tick rest t p, wait_for_stop-done end inactive done)
