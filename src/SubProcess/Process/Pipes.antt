-- ===== src/SubProcess/Process/Pipes.antt =====
-- lib/SubProcess/Process.cpp, collect_result beside the child: one after the other, its two
-- read_pipe loops empty the pipes that the child writes to.
pub mod Collected
pub mod Ended
use cpp_framework.Prelude.{
  ℕ, suc, ◌<◌, ◌≤◌, ◌≡◌, Bool, true, false, List, [], ◌∷◌, ◌++◌, Text, length,
}

-- What the child writes, byte by byte.
pub data Write : Type 0 where
  out err : ℕ → Write

abbrev pub outs : List Write → Text
outs [] = []
outs (out c ∷ ws) = c ∷ outs ws
outs (err c ∷ ws) = outs ws

abbrev pub errs : List Write → Text
errs [] = []
errs (out c ∷ ws) = errs ws
errs (err c ∷ ws) = c ∷ errs ws

-- Where collect_result stands: in the loop of the first read_pipe, in that of the second, before
-- wait4, or behind it.
pub data Collector : Type 0 where
  reading_stdout reading_stderr waiting collected : Collector

-- `writes` is what the child has still to write; an exit closes its write ends.
pub record Run : Type 0 where
  pub writes : List Write
  pub exited : Bool
  pub stdout_pipe : Text
  pub stderr_pipe : Text
  pub collector : Collector
  pub standard_output : Text
  pub standard_error : Text

-- A run with both streams redirected, of a child that is to write this.
unfoldable pub launched : List Write → Run
launched ws = record {
  writes = ws;
  exited = false;
  stdout_pipe = [];
  stderr_pipe = [];
  collector = reading_stdout;
  standard_output = [];
  standard_error = [];
}

-- The steps of collect_result and, over pipes of this capacity, of the child: a write to a full
-- pipe blocks; a read takes at least one byte and at most the 4096 of the buffer, blocks on an
-- empty pipe, and gives none once the pipe is empty and its write end closed.
pub data Step (capacity : ℕ) (r : Run) : Run → Type 0 where
  writes_out :
      (c : ℕ) (ws : List Write)
      → r.writes ≡ out c ∷ ws
      → length r.stdout_pipe < capacity
      → Step capacity r (record r { writes = ws; stdout_pipe = r.stdout_pipe ++ c ∷ [] })
  writes_err :
      (c : ℕ) (ws : List Write)
      → r.writes ≡ err c ∷ ws
      → length r.stderr_pipe < capacity
      → Step capacity r (record r { writes = ws; stderr_pipe = r.stderr_pipe ++ c ∷ [] })
  exits : r.writes ≡ [] → r.exited ≡ false → Step capacity r (record r { exited = true })
  reads_out :
      (c : ℕ) (chunk rest : Text)
      → r.collector ≡ reading_stdout
      → r.stdout_pipe ≡ (c ∷ chunk) ++ rest
      → length (c ∷ chunk) ≤ 4096
      → Step capacity r
          (record r { stdout_pipe = rest; standard_output = r.standard_output ++ c ∷ chunk })
  ends_out :
      r.collector ≡ reading_stdout
      → r.stdout_pipe ≡ []
      → r.exited ≡ true
      → Step capacity r (record r { collector = reading_stderr })
  reads_err :
      (c : ℕ) (chunk rest : Text)
      → r.collector ≡ reading_stderr
      → r.stderr_pipe ≡ (c ∷ chunk) ++ rest
      → length (c ∷ chunk) ≤ 4096
      → Step capacity r
          (record r { stderr_pipe = rest; standard_error = r.standard_error ++ c ∷ chunk })
  ends_err :
      r.collector ≡ reading_stderr
      → r.stderr_pipe ≡ []
      → r.exited ≡ true
      → Step capacity r (record r { collector = waiting })
  waits :
      r.collector ≡ waiting → r.exited ≡ true → Step capacity r (record r { collector = collected })

-- A run of this many steps.
pub data Steps (capacity : ℕ) (r : Run) : ℕ → Run → Type 0 where
  here : Steps capacity r 0 r
  later :
      {n : ℕ} {s t : Run} → Steps capacity r n s → Step capacity s t → Steps capacity r (suc n) t
