-- ===== src/Sync/EventFlag.antt =====
-- include/Sync/EventFlag.hpp and lib/Sync/EventFlag.cpp: a 64-bit pattern on which threads wait.
pub mod Match
pub mod Waiters
pub mod Ends
use cpp_framework.Prelude.{ℕ, ◌<◌, ◌^◌, Bool, true, false, not, ◌==◌}
use Prim.Native.Nat.{bit_and, bit_or}

pub data MatchMode : Type 0 where
  and_mode or_mode : MatchMode

-- A `Flag` is a `uint64_t`: a number below 2 ^ 64, which `|` does not leave.
pub record EventFlag : Type 0 where
  pub pattern : ℕ

unfoldable pub new_flag : EventFlag
new_flag = record { pattern = 0 }

-- `match`: equality in the mode AND, a common bit in the mode OR.
unfoldable pub matches : EventFlag → ℕ → MatchMode → Bool
matches f pattern and_mode = pattern == f.pattern
matches f pattern or_mode = not (bit_and pattern f.pattern == 0)

-- The critical section of `set`.
unfoldable pub set : ℕ → EventFlag → EventFlag
set pattern f = record { pattern = bit_or f.pattern pattern }

unfoldable pub get : EventFlag → ℕ
get f = f.pattern

-- What `timed_wait` returns: the predicate, at the moment at which `wait_for` ends.
unfoldable pub timed_wait : EventFlag → ℕ → MatchMode → Bool
unfolding matches
timed_wait f pattern mode = matches f pattern mode
