-- ===== src/Tests/Timers.antt =====
-- A timer with one handler, started twice and stopped.
use cpp_framework.Prelude.{◌≡◌, ◌≤◌, refl, true, some, arith, List, [], ◌∷◌}
use cpp_framework.Timer.{
  Timer, new_timer, Action, starts, stops, moves, adds, sets_restart, ticks, run, stop,
  wait_for_stop, sleeping, absent, act, ticks_of, start, move_thread, add_listener,
}
use cpp_framework.Timer.Ticks.{one_shot_once, stop_ends, count_moves}

-- The second start, after the only call of the handler, does nothing.
abbrev started_twice : List Action
started_twice = adds 4 ∷ starts ∷ moves ∷ moves ∷ moves ∷ starts ∷ moves ∷ moves ∷ moves ∷ []

one_call : ticks started_twice new_timer ≡ 1
unfolding ticks ticks_of act new_timer start move_thread add_listener
one_call = refl

-- With a stop between, the second start calls it again.
two_calls :
    ticks
      (adds 4 ∷ starts ∷ moves ∷ moves ∷ moves ∷ stops ∷ starts ∷ moves ∷ moves ∷ moves ∷ [])
      new_timer
    ≡ 2
unfolding ticks ticks_of act new_timer start stop move_thread add_listener
two_calls = refl

abbrev ticking : Timer
ticking = record {
  restart = true;
  active = true;
  thread = sleeping (4 ∷ []);
  event_handlers = 4 ∷ [];
}

one_shot_once_example : ticks started_twice new_timer ≤ 1
one_shot_once_example =
    one_shot_once started_twice (tt, (tt, (tt, (tt, (tt, (tt, (tt, (tt, (tt, tt)))))))))

-- Stopped while it ticks, asked to restart, and moved on.
abbrev after_stop : List Action
after_stop = sets_restart true ∷ moves ∷ adds 5 ∷ moves ∷ []

stop_ends_example :
    (ticks after_stop (stop ticking) ≤ 1)
    × (wait_for_stop (run after_stop (stop ticking))
        ≡ some (record (run after_stop (stop ticking)) { thread = absent }))
unfolding count_moves
stop_ends_example = stop_ends after_stop ticking (tt, (tt, (tt, (tt, tt)))) (omega arith)
