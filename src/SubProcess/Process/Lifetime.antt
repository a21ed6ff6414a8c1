-- ===== src/SubProcess/Process/Lifetime.antt =====
-- lib/SubProcess/Process.cpp: the handles of a child beside the detached thread that start_async
-- leaves behind. The thread has captured the address of the handle that it was started from.
pub mod Moved
pub mod Kept
pub mod Killing
use cpp_framework.Prelude.{
  ℕ, zero, suc, ◌+◌, ◌≡◌, ◌≢◌, Bool, true, false, Option, none, some, List, [], ◌∷◌, ◌++◌, set,
  get_elem?, not, ◌&&◌, arith,
}
use cpp_framework.SubProcess.StartInfo.{StartInfo}
use cpp_framework.SubProcess.Process.Handle.{
  Process, new_process, set_id, set_exited, move, assign_move, destroy, Call, signalled, waited,
  Signal,
}

-- A child that runs, that has ended and was not waited for, or whose identity is free again. It
-- ends with an exit code, or with `none` if a signal ends it.
pub data Child : Type 0 where
  running reaped : Child
  zombie : Option ℕ → Child

-- The thread: in collect_result, with the exit code of its result before the store to
-- `has_exited_`, or over. The code -1 is `none`, also where wait4 fails.
pub data Collecting : Type 0 where
  collecting : Collecting
  storing fulfilled : Option ℕ → Collecting

-- `handles` are the objects by their addresses, `none` where one was destroyed; `calls` is what a
-- destructor has still to do. `strays` counts the signals sent to an identity that is free, and
-- `dead_stores` the stores to an object that was destroyed.
pub record Life : Type 0 where
  pub handles : List (Option Process)
  pub child : Child
  pub collecting : Collecting
  pub calls : List Call
  pub strays : ℕ
  pub dead_stores : ℕ

-- Behind start_async on the handle at address 0.
unfoldable pub started : StartInfo → ℕ → Life
started info pid = record {
  handles = some (set_id pid (new_process info)) ∷ [];
  child = running;
  collecting = collecting;
  calls = [];
  strays = 0;
  dead_stores = 0;
}

-- The store to `has_exited_` through the address that the thread has captured.
unfoldable pub store : Option Process → Life → Life
store none l = record l { dead_stores = suc l.dead_stores }
store (some p) l = record l { handles = set l.handles 0 (some (set_exited p)) }

-- A signal that ends the child, unless there is none any more.
unfoldable pub signal : Child → Life → Life
signal running l = record l { child = zombie none }
signal (zombie c) l = l
signal reaped l = record l { strays = suc l.strays }

-- Move assignment of the object at address `j` to the one at `i`.
unfoldable pub assign_handle : ℕ → ℕ → Process → Process → Life → Life
unfolding assign_move
assign_handle i j p o l =
    let (to, from) = assign_move p o in
    record l { handles = set (set l.handles i (some to)) j (some from) }

-- The thread, a move construction or assignment, a destructor call by call, and the child. `code` is what the
-- child exits with by itself.
pub data Step (code : Option ℕ) (l : Life) : Life → Type 0 where
  exits : l.child ≡ running → Step code l (record l { child = zombie code })
  collects :
      (c : Option ℕ)
      → l.collecting ≡ collecting
      → l.child ≡ zombie c
      → Step code l (record l { child = reaped; collecting = storing c })
  misses :
      l.collecting ≡ collecting
      → l.child ≡ reaped
      → Step code l (record l { collecting = storing none })
  stores :
      (c : Option ℕ) (o : Option Process)
      → l.collecting ≡ storing c
      → get_elem? l.handles 0 ≡ some o
      → Step code l (store o (record l { collecting = fulfilled c }))
  moves :
      (i : ℕ) (p : Process)
      → get_elem? l.handles i ≡ some (some p)
      → Step code l
          (record l { handles = set l.handles i (some (move p).1) ++ some (move p).0 ∷ [] })
  assigns :
      (i j : ℕ) (p o : Process)
      → i ≢ j
      → get_elem? l.handles i ≡ some (some p)
      → get_elem? l.handles j ≡ some (some o)
      → Step code l (assign_handle i j p o l)
  destroys :
      (i : ℕ) (p : Process)
      → get_elem? l.handles i ≡ some (some p)
      → l.calls ≡ []
      → Step code l (record l { handles = set l.handles i none; calls = destroy p })
  signals :
      (pid : ℕ) (s : Signal) (rest : List Call)
      → l.calls ≡ signalled pid s ∷ rest
      → Step code l (signal l.child (record l { calls = rest }))
  waits :
      (pid : ℕ) (rest : List Call)
      → l.calls ≡ waited pid ∷ rest
      → l.child ≢ running
      → Step code l (record l { calls = rest; child = reaped })

pub data Steps (code : Option ℕ) (l : Life) : Life → Type 0 where
  here : Steps code l l
  later : {m n : Life} → Steps code l m → Step code m n → Steps code l n

abbrev pub is_zero : ℕ → Bool
is_zero zero = true
is_zero (suc n) = false

-- Nothing is assigned to the object at address 0.
abbrev pub spares_first : {code : Option ℕ} {l m : Life} → Step code l m → Bool
spares_first (assigns i j p o d e f) = not (is_zero i)
spares_first (exits e) = true
spares_first (collects c e f) = true
spares_first (misses e f) = true
spares_first (stores c o e f) = true
spares_first (moves i p e) = true
spares_first (destroys i p e f) = true
spares_first (signals pid s rest e) = true
spares_first (waits pid rest e f) = true

-- In no step of a run.
abbrev pub spared_first : {code : Option ℕ} {l m : Life} → Steps code l m → Bool
spared_first here = true
spared_first (later run step) = spared_first run && spares_first step

pub spared_last :
    {code : Option ℕ} {l m n : Life} (run : Steps code l m) (step : Step code m n)
    → spared_first (later run step) ≡ true
    → (spared_first run ≡ true) × (spares_first step ≡ true)
spared_last run step k = ground (arith, k)
