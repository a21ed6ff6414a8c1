-- ===== src/Tests/Processes.antt =====
-- Starting, collecting, killing and moving processes.
use cpp_framework.Prelude.{ℕ, ◌*◌, ◌≡◌, refl, true, false, some, List, [], ◌∷◌, text, arith}
use cpp_framework.Error.Outcome.{returned, world_of}
use cpp_framework.SubProcess.StartInfo.{
  StartInfo, new_start_info, get_command_line, set_arguments, append_arguments, command,
}
use cpp_framework.SubProcess.StartInfo.Words.{words, words-command_line}
use cpp_framework.SubProcess.Process.{
  Answers, ends, no_pipe, in_child, in_parent, start_async, piped, closed, forked, parent,
}
use cpp_framework.SubProcess.Process.Result.{Reports, start}
use cpp_framework.SubProcess.Process.Handle.{Process, Watch, Call, kill, IsKilled}
use cpp_framework.SubProcess.Process.Descriptors.{opens, closes, start_closes_all}
use cpp_framework.SubProcess.Process.Ending.{kill_ends}
use cpp_framework.SubProcess.Spawner.{spawn, exit_with, exits_with}

abbrev echo : StartInfo
echo = record (new_start_info (text "echo")) {
  redirect_standard_output = true;
  redirect_standard_error = true;
}

-- The second pipe fails, or the fork does, or all is well.
abbrev no_second_pipe : Answers
no_second_pipe = record {
  stdout_pipe = ends 3 4;
  stderr_pipe = no_pipe 24;
  fork = in_parent 50;
  dup2_stdout = true;
  dup2_stderr = true;
}

abbrev all_well : Answers
all_well = record {
  stdout_pipe = ends 3 4;
  stderr_pipe = ends 5 6;
  fork = in_parent 50;
  dup2_stdout = true;
  dup2_stderr = true;
}

abbrev two_lines : Reports
two_lines = record {
  stdout_reads = text "one" ∷ text "two" ∷ [] ∷ [];
  stderr_reads = [];
  exit_status = some 0;
  usage = record {
    ru_utime = record { tv_sec = 1; tv_usec = 5 };
    ru_stime = record { tv_sec = 0; tv_usec = 7 };
  };
  now = 9;
}

hands_over :
    start_async echo all_well []
    ≡ returned
        (parent 50 (some 3) (some 5))
        (piped 3 4 ∷ piped 5 6 ∷ forked ∷ closed 4 ∷ closed 6 ∷ [])
unfolding start_async new_start_info
hands_over = refl

closes_first_pipe :
    world_of (start_async echo no_second_pipe []) ≡ piped 3 4 ∷ closed 3 ∷ closed 4 ∷ []
unfolding start_async new_start_info
closes_first_pipe = refl

start_closes_all_example :
    let end = world_of (start echo no_second_pipe 0 two_lines []) in opens 4 end ≡ closes 4 end
start_closes_all_example = start_closes_all echo no_second_pipe 0 two_lines 4 refl refl

-- A clock that goes ten milliseconds a round, and a child that never ends.
abbrev stubborn : Watch
stubborn = record { start = 0; now = λ k. 10 * k; reaped = λ k. false; exited_meanwhile = false }

kill_ends_example :
    (r : Process × List Call) × (kill 51 stubborn
        (record { start_info = echo; id = some 50; has_exited = false })
      ≡ some r)
    × IsKilled 50 r
kill_ends_example = kill_ends echo 50 stubborn (λ k. omega arith) (omega arith)

abbrev running_child : ℕ → Process
running_child pid = record { start_info = echo; id = some pid; has_exited = false }

words-command_line_example :
    words (get_command_line (set_arguments (text "-n" ∷ text "hello" ∷ []) echo))
    ≡ text "echo" ∷ text "-n" ∷ text "hello" ∷ []
unfolding command new_start_info
words-command_line_example =
    words-command_line echo (text "-n" ∷ text "hello" ∷ []) (refl, (refl, (refl, (refl, tt))))
      ((refl, (refl, tt)), ((refl, (refl, (refl, (refl, (refl, tt))))), tt))

-- An argument with a blank comes apart.
apart :
    words (get_command_line (set_arguments (text "a b" ∷ []) echo))
    ≡ text "echo" ∷ text "a" ∷ text "b" ∷ []
unfolding words get_command_line set_arguments append_arguments new_start_info
apart = refl

-- `_exit` keeps eight bits of what the function returns.
spawned_status : spawn {T = ℕ} {W = ℕ} (λ n w. returned n w) 300 in_child 0 ≡ (exits_with 44, 0)
unfolding spawn exit_with
spawned_status = refl
