-- ===== src/SubProcess/Process/Pipes/Ended.antt =====
-- When a run ends, and when it never does.
use cpp_framework.Prelude.{
  ℕ, ◌+◌, ◌*◌, ◌<◌, ◌≤◌, ◌≡◌, ◌≢◌, refl, ap, ◌∙◌, ◌⊎◌, inl, inr, List, [], ◌∷◌, ◌++◌, Text, length,
  arith, length-append, if◌then◌else◌, Bool-cases,
}
use cpp_framework.SubProcess.Process.Pipes.{
  Write, out, err, errs, Collector, reading_stdout, reading_stderr, waiting, collected, Run,
  launched, Step, writes_out, writes_err, exits, reads_out, ends_out, reads_err, ends_err, waits,
  Steps, here, later,
}
use cpp_framework.SubProcess.Process.Pipes.Collected.{
  IsKept, Step-IsKept, Steps-IsKept, IsSettled-at,
}

abbrev ahead : Collector → ℕ
ahead reading_stdout = 3
ahead reading_stderr = 2
ahead waiting = 1
ahead collected = 0

-- The steps that are left at most: a byte that is to be written may be written and read.
abbrev left : Run → ℕ
left r =
    2 * length r.writes
    + length r.stdout_pipe
    + length r.stderr_pipe
    + (if r.exited then 0 else 1)
    + ahead r.collector

Step-left : {capacity : ℕ} {r s : Run} → Step capacity r s → left s < left r
Step-left {r = r} (writes_out c ws e room) =
    rw e (omega (arith, length-append r.stdout_pipe (c ∷ [])))
Step-left {r = r} (writes_err c ws e room) =
    rw e (omega (arith, length-append r.stderr_pipe (c ∷ [])))
Step-left (exits e f) = rw f (omega arith)
Step-left (reads_out c chunk rest at e small) = rw e (omega (arith, length-append (c ∷ chunk) rest))
Step-left (ends_out at e x) = rw at (omega arith)
Step-left (reads_err c chunk rest at e small) = rw e (omega (arith, length-append (c ∷ chunk) rest))
Step-left (ends_err at e x) = rw at (omega arith)
Step-left (waits at x) = rw at (omega arith)

Steps-left : {capacity : ℕ} {r : Run} {n : ℕ} {s : Run} → Steps capacity r n s → n + left s ≤ left r
Steps-left here = omega arith
Steps-left (later run step) = omega (arith, Steps-left run, Step-left step)

launched_bounded :
    {capacity : ℕ} (ws : List Write) {n : ℕ} {r : Run}
    → Steps capacity (launched ws) n r
    → n ≤ 2 * length ws + 4
unfolding launched
launched_bounded ws run = omega (arith, Steps-left run)

-- A move of the child while it has bytes to write, of the collector, or the exit.
can_write :
    {capacity : ℕ} {r : Run} (ws : List Write) (w : Write) (rest : List Write)
    → IsKept capacity ws r
    → r.writes ≡ w ∷ rest
    → length r.stdout_pipe < capacity
    → length (errs ws) ≤ capacity
    → r.standard_error ≡ []
    → (s : Run) × Step capacity r s
can_write ws (out c) rest k e room fits clean = (_, writes_out c rest e room)
can_write {capacity = capacity} {r = r} ws (err c) rest k e room fits clean =
    (_, writes_err c rest e free)
  where
    free : length r.stderr_pipe < capacity
    free =
        let all : errs ws ≡ r.stderr_pipe ++ c ∷ errs rest = k.err_kept ∙ rw (clean, e) refl in
        omega (arith, ap length all, length-append r.stderr_pipe (c ∷ errs rest))

module _ {capacity : ℕ} (ws : List Write) (roomy : 0 < capacity)
    (fits : length (errs ws) ≤ capacity) where
  move_first :
      {r : Run} (pending : List Write) (pipe : Text)
      → IsKept capacity ws r
      → r.collector ≡ reading_stdout
      → r.writes ≡ pending
      → r.stdout_pipe ≡ pipe
      → (s : Run) × Step capacity r s
  move_first pending (c ∷ rest) k at e f = (_, reads_out c [] rest at f (omega arith))
  move_first {r = r} [] [] k at e f = elim (Bool-cases r.exited) [
    | inl gone ↦ (_, ends_out at f gone)
    | inr running ↦ (_, exits e running)
  ]
  move_first (w ∷ rest) [] k at e f = can_write ws w rest k e (rw f roomy) fits (IsSettled-at k at)

  move_second :
      {r : Run} (pipe : Text)
      → IsKept capacity ws r
      → r.collector ≡ reading_stderr
      → r.stderr_pipe ≡ pipe
      → (s : Run) × Step capacity r s
  move_second [] k at e = (_, ends_err at e (IsSettled-at k at).0)
  move_second (c ∷ rest) k at e = (_, reads_err c [] rest at e (omega arith))

  can_move :
      {r : Run} (x : Collector)
      → IsKept capacity ws r
      → r.collector ≡ x
      → (r.collector ≡ collected) ⊎ ((s : Run) × Step capacity r s)
  can_move {r = r} reading_stdout k at = inr (move_first r.writes r.stdout_pipe k at refl refl)
  can_move {r = r} reading_stderr k at = inr (move_second r.stderr_pipe k at refl)
  can_move waiting k at = inr (_, waits at (IsSettled-at k at).0)
  can_move collected k at = inl at

-- If what the child writes to standard error fits the pipe, the collection ends: of a child that is
-- to write n bytes no run has more than 2 n + 4 steps, and until the result is collected there is
-- always a next one.
pub collection_ends :
    {capacity : ℕ} (ws : List Write) {n : ℕ} {r : Run}
    → 0 < capacity
    → length (errs ws) ≤ capacity
    → Steps capacity (launched ws) n r
    → (n ≤ 2 * length ws + 4) × ((r.collector ≡ collected) ⊎ ((s : Run) × Step capacity r s))
collection_ends ws {r = r} roomy fits run =
    (launched_bounded ws run, can_move ws roomy fits r.collector (Steps-IsKept ws run) refl)

-- A collector in its first loop, beside a child that has more to write.
IsBlocked : Run → Type 0
IsBlocked r = (r.collector ≡ reading_stdout) × (r.writes ≢ [])

has_more :
    {capacity : ℕ} {ws : List Write} {r : Run}
    → capacity < length (errs ws)
    → IsKept capacity ws r
    → r.collector ≡ reading_stdout
    → r.writes ≢ []
has_more {ws = ws} {r = r} long k at over =
    let all : errs ws ≡ r.stderr_pipe ++ [] = k.err_kept ∙ rw (IsSettled-at k at, over) refl in
    omega (arith, k.bounded, ap length all, length-append r.stderr_pipe [])

Step-IsBlocked :
    {capacity : ℕ} {ws : List Write} {r s : Run}
    → capacity < length (errs ws)
    → IsKept capacity ws r
    → Step capacity r s
    → IsBlocked r
    → IsBlocked s
unfolding IsBlocked
Step-IsBlocked long k (writes_out c ws e room) (at, more) =
    (at, has_more long (Step-IsKept (writes_out c ws e room) k) at)
Step-IsBlocked long k (writes_err c ws e room) (at, more) =
    (at, has_more long (Step-IsKept (writes_err c ws e room) k) at)
Step-IsBlocked long k (exits e f) (at, more) = absurd (more e)
Step-IsBlocked long k (reads_out c chunk rest _ e small) (at, more) = (at, more)
Step-IsBlocked long k (ends_out _ e x) (at, more) = absurd (more (k.done x))
Step-IsBlocked long k (reads_err c chunk rest elsewhere e small) (at, more) =
    absurd (ground (arith, at, elsewhere))
Step-IsBlocked long k (ends_err elsewhere e x) (at, more) = absurd (more (k.done x))
Step-IsBlocked long k (waits elsewhere x) (at, more) = absurd (more (k.done x))

Steps-IsBlocked :
    {capacity : ℕ} (ws : List Write) {n : ℕ} {r : Run}
    → capacity < length (errs ws)
    → Steps capacity (launched ws) n r
    → IsBlocked r
unfolding IsBlocked launched
Steps-IsBlocked {capacity = capacity} ws long here =
    (refl, has_more long (Steps-IsKept {capacity = capacity} ws here) refl)
Steps-IsBlocked ws long (later run step) =
    Step-IsBlocked long (Steps-IsKept ws run) step (Steps-IsBlocked ws long run)

-- If a child writes more to standard error than the pipe holds, no run ever leaves the first loop,
-- which waits for the end of standard output, and the child keeps bytes to write: of n bytes, all
-- moves are over after 2 n + 4 steps, and nothing is collected.
pub stderr_hangs :
    {capacity : ℕ} (ws : List Write) {n : ℕ} {r : Run}
    → capacity < length (errs ws)
    → Steps capacity (launched ws) n r
    → (n ≤ 2 * length ws + 4) × (r.collector ≡ reading_stdout) × (r.writes ≢ [])
unfolding IsBlocked
stderr_hangs ws long run =
    let (at, more) = Steps-IsBlocked ws long run in (launched_bounded ws run, at, more)
