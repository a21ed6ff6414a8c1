-- ===== src/Message/Posix/Deadline.antt =====
-- The deadline of `timed_receive`.
use cpp_framework.Prelude.{ℕ, ◌+◌, ◌*◌, ◌<◌, ◌≡◌, arith}
use cpp_framework.Message.Posix.System.{Timespec}
use cpp_framework.Message.Posix.{to_abs_timespec}

-- A time in nanoseconds.
abbrev pub nanoseconds : Timespec → ℕ
nanoseconds ts = ts.tv_sec * 1000000000 + ts.tv_nsec

-- The deadline is the reading of the clock and the milliseconds, to the nanosecond, and it is
-- normalised: less than a second of nanoseconds.
pub to_abs_timespec_exact :
    (ms : ℕ) (now : Timespec)
    → (nanoseconds (to_abs_timespec ms now) ≡ nanoseconds now + ms * 1000000)
      × ((to_abs_timespec ms now).tv_nsec < 1000000000)
unfolding to_abs_timespec
to_abs_timespec_exact ms now = omega arith
