-- ===== src/Tests/Flags.antt =====
-- The event flag.
use cpp_framework.Prelude.{ℕ, ◌≡◌, ◌↔◌, refl, true, false, [], ◌∷◌, ℕ_discrete}
use cpp_framework.Sync.EventFlag.{EventFlag, and_mode, or_mode, matches, set, new_flag, timed_wait}
use cpp_framework.Prelude.Bits.{bit, any_has}
use cpp_framework.Sync.EventFlag.Match.{set_all}
use cpp_framework.Sync.EventFlag.Ends.{match_ends}
use cpp_framework.Sync.EventFlag.Waiters.{
  System, idle, ready, asleep, Reach, start, later, calls, sleeps, no_lost_wakeup, update,
}

abbrev three : EventFlag
three = record { pattern = 3 }

-- `timed_wait` of `tests/SyncTest/EventFlagTest.cpp`: 0x11 in the mode AND after 0x01.
timed_out : timed_wait (set 1 new_flag) 0x11 and_mode ≡ false
unfolding timed_wait set new_flag
timed_out = refl

abbrev waiting : System
waiting = record {
  flag = record { pattern = 0 };
  waiters = update (update (λ i. idle) 0 (ready 1 or_mode)) 0 (asleep 1 or_mode);
  notifying = 0;
}

waiting_reach : Reach waiting
unfolding new_flag matches ℕ_discrete
waiting_reach = later (later start (calls 0 1 or_mode refl)) (sleeps 0 1 or_mode refl refl)

no_lost_wakeup_example : matches waiting.flag 1 or_mode ≡ false
unfolding ℕ_discrete
no_lost_wakeup_example = no_lost_wakeup 0 1 or_mode waiting_reach refl refl

-- Bits 0 and 2 are set, and a thread waits for bits 2 and 3.
match_ends_example :
    ((matches (set_all (4 ∷ 1 ∷ []) new_flag) 12 or_mode ≡ true)
      ↔ ((i : ℕ) × (bit i 12 ≡ true) × (any_has i (4 ∷ 1 ∷ []) ≡ true)))
    × ((matches (set_all (4 ∷ 1 ∷ []) new_flag) 12 and_mode ≡ true)
        ↔ ((i : ℕ) → bit i 12 ≡ any_has i (4 ∷ 1 ∷ [])))
match_ends_example = match_ends 12 (4 ∷ 1 ∷ [])
