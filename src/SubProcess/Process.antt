-- ===== src/SubProcess/Process.antt =====
-- include/SubProcess/Process.hpp and lib/SubProcess/Process.cpp: the start of a process with its
-- pipes, in the parent and in the child. The answers of the system calls are arguments, the calls
-- that were made are events, oldest first. The file descriptor -1 is `none`.
pub mod Result
pub mod Handle
pub mod Ending
pub mod Descriptors
pub mod Pipes
pub mod Lifetime
use cpp_framework.Prelude.{
  ℕ, ◌-◌, ◌%◌, Bool, true, false, Option, none, some, List, [], ◌∷◌, ◌++◌, Text, text,
  if◌then◌else◌,
}
use cpp_framework.Error.{new_system_exception, system_error}
use cpp_framework.Error.Outcome.{
  M, Outcome, returned, thrown, framework, pure, and_then, ◌>>=◌, ◌>>◌,
}
use cpp_framework.SubProcess.StartInfo.{StartInfo}
use cpp_framework.SubProcess.Launcher.{Exec, launch_command}

pub data Event : Type 0 where
  piped : ℕ → ℕ → Event
  closed : ℕ → Event
  forked : Event
  redirected : ℕ → ℕ → Event
  executed : Exec → Event
  exited_with : ℕ → Event

-- What `pipe()` answers: an errno, or the read end and the write end.
pub data PipeAnswer : Type 0 where
  no_pipe : ℕ → PipeAnswer
  ends : ℕ → ℕ → PipeAnswer

-- What `fork()` answers: an errno, 0, or the identity of the child.
pub data ForkAnswer : Type 0 where
  no_fork : ℕ → ForkAnswer
  in_child : ForkAnswer
  in_parent : ℕ → ForkAnswer

pub record Answers : Type 0 where
  pub stdout_pipe : PipeAnswer
  pub stderr_pipe : PipeAnswer
  pub fork : ForkAnswer
  pub dup2_stdout : Bool
  pub dup2_stderr : Bool

-- The two ends of a pipe, the read end first, or -1 twice.
abbrev pub Pipe : Type 0
Pipe = Option (ℕ × ℕ)

abbrev pub Trace : Type 0
Trace = List Event

abbrev pub tell : Event → M Trace (Unit {0})
tell e w = returned tt (w ++ e ∷ [])

abbrev pub fail : {A : Type 0} → Text → ℕ → M Trace A
fail message errno w =
    thrown (framework (new_system_exception message errno system_error).exception) w

abbrev pub close_fd : Option ℕ → M Trace (Unit {0})
close_fd none w = returned tt w
close_fd (some fd) w = tell (closed fd) w

abbrev pub read_end : Pipe → Option ℕ
read_end none = none
read_end (some (r, x)) = some r

abbrev pub write_end : Pipe → Option ℕ
write_end none = none
write_end (some (r, x)) = some x

-- `if (pipe[0] != -1) { close(pipe[0]); close(pipe[1]); }`.
abbrev pub close_pipe : Pipe → M Trace (Unit {0})
close_pipe none w = returned tt w
close_pipe (some (r, x)) w = (tell (closed r) >> tell (closed x)) w

-- The pipe for standard output, if it is redirected.
unfoldable pub open_stdout : Bool → PipeAnswer → M Trace Pipe
open_stdout false answer w = returned none w
open_stdout true (no_pipe errno) w = fail (text "pipe() failed for stdout") errno w
open_stdout true (ends r x) w = returned (some (r, x)) (w ++ piped r x ∷ [])

-- The pipe for standard error; where it fails, that for standard output is closed.
unfoldable pub open_stderr : Bool → PipeAnswer → Pipe → M Trace Pipe
open_stderr false answer out w = returned none w
open_stderr true (no_pipe errno) out w =
    (close_pipe out >> fail (text "pipe() failed for stderr") errno) w
open_stderr true (ends r x) out w = returned (some (r, x)) (w ++ piped r x ∷ [])

-- `dup2(fd, target)` and the close behind it; false if `dup2` failed.
unfoldable pub redirect : Option ℕ → ℕ → Bool → M Trace Bool
redirect none target ok w = returned true w
redirect (some fd) target false w = returned false w
redirect (some fd) target true w = returned true (w ++ redirected fd target ∷ closed fd ∷ [])

-- The two redirections of `child_process`: false at the first that fails.
unfoldable pub redirect_both : Answers → Option ℕ → Option ℕ → M Trace Bool
unfolding redirect
redirect_both os stdout_fd stderr_fd w =
    and_then (redirect stdout_fd 1 os.dup2_stdout w)
      (λ ok. if ok then redirect stderr_fd 2 os.dup2_stderr else pure false)

-- `child_process`, which returns only on a failure, a negative number: this is its magnitude.
-- `kProcessFailed` is -255, and a launcher whose exec call failed returns -1.
unfoldable pub child_process : StartInfo → Answers → Option ℕ → Option ℕ → M Trace ℕ
unfolding redirect_both
child_process info os stdout_fd stderr_fd w =
    and_then (redirect_both os stdout_fd stderr_fd w)
      (λ ok. if ok then (λ v. returned 1 (v ++ executed (launch_command info) ∷ [])) else pure 255)

-- What `start_async` comes to: the child and its exit, or the parent with the identity of the
-- child and the read ends, which the collecting thread takes over.
pub data Started : Type 0 where
  child : Started
  parent : ℕ → Option ℕ → Option ℕ → Started

-- The three branches behind `fork()`. A status is what `_exit` keeps of a negative number.
unfoldable pub after_fork : StartInfo → Answers → Pipe → Pipe → ForkAnswer → M Trace Started
unfolding child_process
after_fork info os out err (no_fork errno) =
    close_pipe out >> close_pipe err >> fail (text "fork() failed") errno
after_fork info os out err in_child = do
  tell forked
  close_fd (read_end out)
  close_fd (read_end err)
  n ← child_process info os (write_end out) (write_end err)
  tell (exited_with ((256 - n % 256) % 256))
  pure child
after_fork info os out err (in_parent pid) = do
  tell forked
  close_fd (write_end out)
  close_fd (write_end err)
  pure (parent pid (read_end out) (read_end err))

unfoldable pub start_async : StartInfo → Answers → M Trace Started
unfolding open_stdout open_stderr after_fork
start_async info os = do
  out ← open_stdout info.redirect_standard_output os.stdout_pipe
  err ← open_stderr info.redirect_standard_error os.stderr_pipe out
  after_fork info os out err os.fork
