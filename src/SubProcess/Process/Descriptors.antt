-- ===== src/SubProcess/Process/Descriptors.antt =====
-- Which file descriptors the start of a process opens and closes.
use cpp_framework.Prelude.{ℕ, ◌+◌, ◌≡◌, true, Option, none, some, [], ◌∷◌, ite, ℕ_discrete, arith}
use cpp_framework.Error.Outcome.{Outcome, returned, thrown, world_of}
use cpp_framework.SubProcess.Process.Result.{Reports, start, collect_result}
use cpp_framework.SubProcess.StartInfo.{StartInfo}
use cpp_framework.SubProcess.Process.{
  piped, closed, forked, redirected, executed, exited_with, Answers, Trace, Started, child, parent,
  open_stdout, open_stderr, redirect, redirect_both, child_process, after_fork, start_async,
}

-- How often a descriptor was opened, and closed.
unfoldable pub opens : ℕ → Trace → ℕ
opens fd [] = 0
opens fd (piped r x ∷ t) = ite (ℕ_discrete r fd) 1 0 + ite (ℕ_discrete x fd) 1 0 + opens fd t
opens fd (closed r ∷ t) = opens fd t
opens fd (forked ∷ t) = opens fd t
opens fd (redirected r x ∷ t) = opens fd t
opens fd (executed e ∷ t) = opens fd t
opens fd (exited_with n ∷ t) = opens fd t

unfoldable pub closes : ℕ → Trace → ℕ
closes fd [] = 0
closes fd (piped r x ∷ t) = closes fd t
closes fd (closed r ∷ t) = ite (ℕ_discrete r fd) 1 0 + closes fd t
closes fd (forked ∷ t) = closes fd t
closes fd (redirected r x ∷ t) = closes fd t
closes fd (executed e ∷ t) = closes fd t
closes fd (exited_with n ∷ t) = closes fd t

abbrev pub held : ℕ → Option ℕ → ℕ
held fd none = 0
held fd (some r) = ite (ℕ_discrete r fd) 1 0

-- What is still to be closed: the read ends that the parent hands over.
abbrev pub left_open : ℕ → Started → ℕ
left_open fd child = 0
left_open fd (parent pid out err) = held fd out + held fd err

abbrev pub IsBalanced : ℕ → Outcome Trace Started → Type 0
IsBalanced fd (returned s t) = opens fd t ≡ closes fd t + left_open fd s
IsBalanced fd (thrown f t) = opens fd t ≡ closes fd t

-- Whatever the pipes and the fork answer, on every path through start_async each descriptor that
-- was opened has been closed as often, but for the read ends that the parent hands to the thread
-- that collects the result, which are still to be closed once; in the child this holds if its
-- redirections succeed.
pub start_async-IsBalanced :
    (info : StartInfo) (os : Answers) (fd : ℕ)
    → os.dup2_stdout ≡ true
    → os.dup2_stderr ≡ true
    → IsBalanced fd (start_async info os [])
unfolding start_async open_stdout open_stderr after_fork child_process redirect_both redirect opens
    closes
start_async-IsBalanced info os fd h k = ground arith

-- start() leaves no descriptor open: whatever the pipes, the fork, the reads and the wait answer,
-- and whether it returns or throws, each descriptor that was opened has been closed as often, if
-- the redirections of the child succeed.
pub start_closes_all :
    (info : StartInfo) (os : Answers) (time : ℕ) (reports : Reports) (fd : ℕ)
    → os.dup2_stdout ≡ true
    → os.dup2_stderr ≡ true
    → let end = world_of (start info os time reports []) in opens fd end ≡ closes fd end
unfolding start collect_result start_async open_stdout open_stderr after_fork child_process
    redirect_both redirect opens closes
start_closes_all info os time reports fd h k = ground arith
