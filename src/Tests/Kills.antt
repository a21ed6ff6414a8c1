-- ===== src/Tests/Kills.antt =====
-- A child that kill() waits for before the thread does.
use cpp_framework.Prelude.{◌≢◌, refl, true, false, none, some}
use cpp_framework.SubProcess.Process.Lifetime.{running, reaped, collecting, fulfilled}
use cpp_framework.SubProcess.Process.Lifetime.Killing.{
  Killing, starting, over, terminate, Steps, here, later, exits, misses, stores, terminates, reaps,
  reaped_code_lost,
}

-- The child has answered SIGTERM with an exit of its own, and kill() has waited for it.
abbrev taken : Killing
taken = record {
  child = reaped;
  collecting = collecting;
  killer = over;
  has_exited = true;
  strays = 0;
}

reaped_code_lost_example : fulfilled none ≢ fulfilled (some 3)
reaped_code_lost_example =
    reaped_code_lost {k = taken} 3 refl refl
      (later (later here (misses refl refl)) (stores none refl))

-- How it comes to that, from a running child that exits with 3.
taken_reached :
    Steps
      (record {
        child = running;
        collecting = collecting;
        killer = starting;
        has_exited = false;
        strays = 0;
      })
      taken
unfolding terminate
taken_reached =
    later (later (later here (terminates refl refl)) (exits (some 3) refl))
      (reaps (some 3) refl refl)
