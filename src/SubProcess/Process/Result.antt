-- ===== src/SubProcess/Process/Result.antt =====
-- lib/SubProcess/Process.cpp and include/SubProcess/ProcessResult.hpp: what the collecting thread
-- reads from the pipes and from `wait4`, whose answers are arguments.
use cpp_framework.Prelude.{ℕ, ◌+◌, ◌*◌, Bool, true, Option, none, some, List, [], ◌∷◌, ◌++◌, Text}
use cpp_framework.Error.Outcome.{M, returned, ◌>>=◌, ◌>>◌}
use cpp_framework.SubProcess.Process.{Trace, close_fd, Answers, start_async, child, parent}
use cpp_framework.SubProcess.StartInfo.{StartInfo}

pub record Timeval : Type 0 where
  pub tv_sec : ℕ
  pub tv_usec : ℕ

pub record Rusage : Type 0 where
  pub ru_utime : Timeval
  pub ru_stime : Timeval

-- The exit code is -1, here `none`, unless the process exited by itself.
pub record ProcessResult : Type 0 where
  pub exit_code : Option ℕ
  pub has_exited : Bool
  pub usage : Rusage
  pub start_time : ℕ
  pub exit_time : ℕ
  pub standard_output : Text
  pub standard_error : Text

-- What `read()` answers, call by call, on each read end, and what `wait4` reports: the code of a
-- process that exited by itself, or `none`, and its usage.
pub record Reports : Type 0 where
  pub stdout_reads : List Text
  pub stderr_reads : List Text
  pub exit_status : Option ℕ
  pub usage : Rusage
  pub now : ℕ

-- The loop of `read_pipe`: it goes on until `read` gives no bytes.
read_chunks : List Text → Text
read_chunks [] = []
read_chunks ([] ∷ chunks) = []
read_chunks ((c ∷ cs) ∷ chunks) = (c ∷ cs) ++ read_chunks chunks

unfoldable pub read_pipe : Option ℕ → List Text → Text
unfolding read_chunks
read_pipe none chunks = []
read_pipe (some fd) chunks = read_chunks chunks

unfoldable pub collect_result : ℕ → Option ℕ → Option ℕ → Reports → M Trace ProcessResult
unfolding read_pipe
collect_result start_time stdout_fd stderr_fd os = do
  close_fd stdout_fd
  close_fd stderr_fd
  returned (record {
    exit_code = os.exit_status;
    has_exited = true;
    usage = os.usage;
    start_time = start_time;
    exit_time = os.now;
    standard_output = read_pipe stdout_fd os.stdout_reads;
    standard_error = read_pipe stderr_fd os.stderr_reads;
  })

to_us : Timeval → ℕ
to_us tv = tv.tv_sec * 1000000 + tv.tv_usec

unfoldable pub total_processor_time : ProcessResult → ℕ
unfolding to_us
total_processor_time r = to_us r.usage.ru_utime + to_us r.usage.ru_stime

unfoldable pub user_processor_time : ProcessResult → ℕ
unfolding to_us
user_processor_time r = to_us r.usage.ru_utime

-- `start`: in the parent, `start_async` and the result that its future gives in the end.
unfoldable pub start : StartInfo → Answers → ℕ → Reports → M Trace (Option ProcessResult)
unfolding start_async collect_result
start info os start_time reports = do
  started ← start_async info os
  elim started [
    | child ↦ λ w. returned none w
    | parent pid out err ↦ do
      result ← collect_result start_time out err reports
      returned (some result)
  ]
