-- ===== src/SubProcess/Process/Pipes/Collected.antt =====
-- What a run keeps: no byte is lost between the child, the pipes and the result.
use mathlib.Core.List.{append_assoc, append-nil}
use cpp_framework.Prelude.{
  ℕ, ◌≤◌, ◌≡◌, ◌≢◌, refl, sym, ap, subst, ◌∙◌, Bool, true, List, [], ◌∷◌, ◌++◌, Text, length, arith,
  length-append,
}
use cpp_framework.SubProcess.Process.Pipes.{
  Write, outs, errs, Collector, reading_stdout, reading_stderr, waiting, collected, Run, launched,
  Step, writes_out, writes_err, exits, reads_out, ends_out, reads_err, ends_err, waits, Steps, here,
  later,
}

-- What is settled when the collector has come so far.
abbrev pub IsSettled : Collector → Bool → Text → Text → Text → Type 0
IsSettled reading_stdout exited out_pipe err_pipe standard_error = standard_error ≡ []
IsSettled reading_stderr exited out_pipe err_pipe standard_error = (exited ≡ true) × (out_pipe ≡ [])
IsSettled waiting exited out_pipe err_pipe standard_error =
    (exited ≡ true) × (out_pipe ≡ []) × (err_pipe ≡ [])
IsSettled collected exited out_pipe err_pipe standard_error =
    (exited ≡ true) × (out_pipe ≡ []) × (err_pipe ≡ [])

pub record IsKept (capacity : ℕ) (ws : List Write) (r : Run) : Type 0 where
  pub out_kept : outs ws ≡ r.standard_output ++ (r.stdout_pipe ++ outs r.writes)
  pub err_kept : errs ws ≡ r.standard_error ++ (r.stderr_pipe ++ errs r.writes)
  pub bounded : length r.stderr_pipe ≤ capacity
  pub done : r.exited ≡ true → r.writes ≡ []
  pub settled : IsSettled r.collector r.exited r.stdout_pipe r.stderr_pipe r.standard_error

-- A byte that moves from the child into a pipe, and a chunk from a pipe into the result.
moved_in : (a b : Text) (c : ℕ) (rest : Text) → a ++ (b ++ c ∷ rest) ≡ a ++ ((b ++ c ∷ []) ++ rest)
moved_in a b c rest = ap (λ t. a ++ t) (sym (append_assoc b (c ∷ []) rest))

moved_out :
    (a pipe chunk rest left : Text)
    → pipe ≡ chunk ++ rest
    → a ++ (pipe ++ left) ≡ (a ++ chunk) ++ (rest ++ left)
moved_out a pipe chunk rest left e =
    ap (λ t. a ++ (t ++ left)) e
    ∙ ap (λ t. a ++ t) (append_assoc chunk rest left)
    ∙ sym (append_assoc a chunk (rest ++ left))

-- As long as the child has bytes to write, the first pipe is being read.
pub reading_first :
    {capacity : ℕ} {ws : List Write} {r : Run}
    → IsKept capacity ws r
    → r.writes ≢ []
    → (r.collector ≡ reading_stdout) × (r.standard_error ≡ [])
reading_first {r = r} k more = at_first r.collector k.settled
  where
    at_first :
        (x : Collector)
        → IsSettled x r.exited r.stdout_pipe r.stderr_pipe r.standard_error
        → (x ≡ reading_stdout) × (r.standard_error ≡ [])
    at_first reading_stdout s = (refl, s)
    at_first reading_stderr s = absurd (more (k.done s.0))
    at_first waiting s = absurd (more (k.done s.0))
    at_first collected s = absurd (more (k.done s.0))

pub IsSettled-at :
    {capacity : ℕ} {ws : List Write} {r : Run} {x : Collector}
    → IsKept capacity ws r
    → r.collector ≡ x
    → IsSettled x r.exited r.stdout_pipe r.stderr_pipe r.standard_error
IsSettled-at {r = r} k at =
    subst (λ x. IsSettled x r.exited r.stdout_pipe r.stderr_pipe r.standard_error) at k.settled

IsSettled-exited :
    (x : Collector) (e : Bool) (o p s : Text) → IsSettled x e o p s → IsSettled x true o p s
IsSettled-exited reading_stdout e o p s h = h
IsSettled-exited reading_stderr e o p s h = (refl, h.1)
IsSettled-exited waiting e o p s h = (refl, h.1, h.2)
IsSettled-exited collected e o p s h = (refl, h.1, h.2)

pub Step-IsKept :
    {capacity : ℕ} {ws : List Write} {r s : Run}
    → Step capacity r s
    → IsKept capacity ws r
    → IsKept capacity ws s
Step-IsKept {r = r} (writes_out c ws e room) k =
    let (at, clean) = reading_first k (λ f. cc) in
    record {
      out_kept = k.out_kept ∙ rw e (moved_in r.standard_output r.stdout_pipe c (outs ws));
      err_kept = k.err_kept ∙ rw e refl;
      bounded = k.bounded;
      done = λ x. let f = k.done x in absurd cc;
      settled = rw at clean;
    }
Step-IsKept {r = r} (writes_err c ws e room) k =
    let (at, clean) = reading_first k (λ f. cc) in
    record {
      out_kept = k.out_kept ∙ rw e refl;
      err_kept = k.err_kept ∙ rw e (moved_in r.standard_error r.stderr_pipe c (errs ws));
      bounded = omega (arith, room, length-append r.stderr_pipe (c ∷ []));
      done = λ x. let f = k.done x in absurd cc;
      settled = rw at clean;
    }
Step-IsKept {r = r} (exits e f) k = record {
  out_kept = k.out_kept;
  err_kept = k.err_kept;
  bounded = k.bounded;
  done = λ x. e;
  settled = IsSettled-exited r.collector _ _ _ _ k.settled;
}
Step-IsKept {r = r} (reads_out c chunk rest at e small) k = record {
  out_kept =
      k.out_kept ∙ moved_out r.standard_output r.stdout_pipe (c ∷ chunk) rest (outs r.writes) e;
  err_kept = k.err_kept;
  bounded = k.bounded;
  done = k.done;
  settled = rw at (IsSettled-at k at);
}
Step-IsKept {r = r} (ends_out at e x) k = record {
  out_kept = k.out_kept;
  err_kept = k.err_kept;
  bounded = k.bounded;
  done = k.done;
  settled = (x, e);
}
Step-IsKept {r = r} (reads_err c chunk rest at e small) k = record {
  out_kept = k.out_kept;
  err_kept =
      k.err_kept ∙ moved_out r.standard_error r.stderr_pipe (c ∷ chunk) rest (errs r.writes) e;
  bounded = omega (arith, k.bounded, ap length e, length-append (c ∷ chunk) rest);
  done = k.done;
  settled = rw at (IsSettled-at k at);
}
Step-IsKept {r = r} (ends_err at e x) k = record {
  out_kept = k.out_kept;
  err_kept = k.err_kept;
  bounded = k.bounded;
  done = k.done;
  settled = let (gone, empty) = IsSettled-at k at in (gone, empty, e);
}
Step-IsKept {r = r} (waits at x) k = record {
  out_kept = k.out_kept;
  err_kept = k.err_kept;
  bounded = k.bounded;
  done = k.done;
  settled = IsSettled-at k at;
}

launched-IsKept : (capacity : ℕ) (ws : List Write) → IsKept capacity ws (launched ws)
unfolding launched
launched-IsKept capacity ws = record {
  out_kept = refl;
  err_kept = refl;
  bounded = omega arith;
  done = λ x. cc;
  settled = refl;
}

pub Steps-IsKept :
    {capacity : ℕ} (ws : List Write) {n : ℕ} {r : Run}
    → Steps capacity (launched ws) n r
    → IsKept capacity ws r
Steps-IsKept {capacity = capacity} ws here = launched-IsKept capacity ws
Steps-IsKept ws (later run step) = Step-IsKept step (Steps-IsKept ws run)

-- Whatever the pipes hold and however the child and the reads interleave, a result that is collected
-- has as its two texts exactly what the child wrote to the two streams, in order.
pub collected_exact :
    {capacity : ℕ} (ws : List Write) {n : ℕ} {r : Run}
    → Steps capacity (launched ws) n r
    → r.collector ≡ collected
    → (r.standard_output ≡ outs ws) × (r.standard_error ≡ errs ws)
collected_exact ws {r = r} run at =
    let k = Steps-IsKept ws run in
    let (gone, no_out, no_err) = IsSettled-at k at in
    let over = k.done gone in
    (
      sym (k.out_kept ∙ rw (no_out, over) (append-nil r.standard_output)),
      sym (k.err_kept ∙ rw (no_err, over) (append-nil r.standard_error)),
    )
