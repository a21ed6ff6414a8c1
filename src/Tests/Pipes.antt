-- ===== src/Tests/Pipes.antt =====
-- Pipes of two bytes: a child that fills one with errors, and one that writes to both.
use cpp_framework.Prelude.{
  ◌*◌, ◌+◌, ◌≤◌, ◌≡◌, ◌≢◌, ◌⊎◌, refl, true, false, List, [], ◌∷◌, length, arith,
}
use cpp_framework.SubProcess.Process.Pipes.{
  Write, out, err, reading_stdout, collected, Run, launched, Step, Steps, here, later, writes_out,
  writes_err, exits, reads_out, ends_out, reads_err, ends_err, waits,
}
use cpp_framework.SubProcess.Process.Pipes.Collected.{collected_exact}
use cpp_framework.SubProcess.Process.Pipes.Ended.{collection_ends, stderr_hangs}

abbrev noisy : List Write
noisy = err 1 ∷ err 2 ∷ err 3 ∷ []

abbrev stuck : Run
stuck = record {
  writes = err 3 ∷ [];
  exited = false;
  stdout_pipe = [];
  stderr_pipe = 1 ∷ 2 ∷ [];
  collector = reading_stdout;
  standard_output = [];
  standard_error = [];
}

noisy_run : Steps 2 (launched noisy) 2 stuck
unfolding launched
noisy_run =
    later (later here (writes_err 1 (err 2 ∷ err 3 ∷ []) refl (omega arith)))
      (writes_err 2 (err 3 ∷ []) refl (omega arith))

stderr_hangs_example :
    (2 ≤ 2 * length noisy + 4) × (stuck.collector ≡ reading_stdout) × (stuck.writes ≢ [])
stderr_hangs_example = stderr_hangs noisy (omega arith) noisy_run

-- One byte to each stream, and the run to its end.
abbrev quiet : List Write
quiet = out 7 ∷ err 1 ∷ []

abbrev ended : Run
ended = record {
  writes = [];
  exited = true;
  stdout_pipe = [];
  stderr_pipe = [];
  collector = collected;
  standard_output = 7 ∷ [];
  standard_error = 1 ∷ [];
}

halfway : (r : Run) × Steps 2 (launched quiet) 2 r
unfolding launched
halfway = (
  _,
  later (later here (writes_out 7 (err 1 ∷ []) refl (omega arith)))
      (reads_out 7 [] [] refl refl (omega arith)),
)

quiet_run : Steps 2 (launched quiet) 8 ended
unfolding halfway
quiet_run =
    later
      (later
        (later
          (later (later (later halfway.1 (writes_err 1 [] refl (omega arith))) (exits refl refl))
            (ends_out refl refl refl))
          (reads_err 1 [] [] refl refl (omega arith)))
        (ends_err refl refl refl))
      (waits refl refl)

collected_exact_example : (ended.standard_output ≡ 7 ∷ []) × (ended.standard_error ≡ 1 ∷ [])
collected_exact_example = collected_exact quiet quiet_run refl

collection_ends_example :
    (2 ≤ 2 * length quiet + 4)
    × ((halfway.0.collector ≡ collected) ⊎ ((s : Run) × Step 2 halfway.0 s))
collection_ends_example = collection_ends quiet (omega arith) (omega arith) halfway.1
