-- ===== src/SubProcess/Process/Lifetime/Killing.antt =====
-- lib/SubProcess/Process.cpp: kill() beside the detached thread. Both wait for the child, and the
-- one that comes first gets its exit code.
use cpp_framework.Prelude.{
  ℕ, suc, ◌≡◌, ◌≢◌, refl, ◌⊎◌, inl, Bool, true, false, Option, none, some, arith,
}
use cpp_framework.SubProcess.Process.Lifetime.{
  Child, running, zombie, reaped, Collecting, collecting, storing, fulfilled,
}

-- kill() before its first signal, in its polling loop, behind the deadline, before the last
-- waitpid, or over.
pub data Killer : Type 0 where
  starting polling forcing reaping over : Killer

-- `strays` counts the signals sent to an identity that is free.
pub record Killing : Type 0 where
  pub child : Child
  pub collecting : Collecting
  pub killer : Killer
  pub has_exited : Bool
  pub strays : ℕ

-- SIGTERM, which the child may answer by an end of its own, and SIGKILL.
unfoldable pub terminate : Child → Killing → Killing
terminate running k = k
terminate (zombie c) k = k
terminate reaped k = record k { strays = suc k.strays }

unfoldable pub force : Child → Killing → Killing
force running k = record k { child = zombie none }
force (zombie c) k = k
force reaped k = record k { strays = suc k.strays }

pub data Step (k : Killing) : Killing → Type 0 where
  -- The child and the thread.
  exits : (c : Option ℕ) → k.child ≡ running → Step k (record k { child = zombie c })
  collects :
      (c : Option ℕ)
      → k.collecting ≡ collecting
      → k.child ≡ zombie c
      → Step k (record k { child = reaped; collecting = storing c })
  misses :
      k.collecting ≡ collecting → k.child ≡ reaped → Step k (record k { collecting = storing none })
  stores :
      (c : Option ℕ)
      → k.collecting ≡ storing c
      → Step k (record k { collecting = fulfilled c; has_exited = true })
  -- kill().
  skips : k.killer ≡ starting → k.has_exited ≡ true → Step k (record k { killer = over })
  terminates :
      k.killer ≡ starting
      → k.has_exited ≡ false
      → Step k (terminate k.child (record k { killer = polling }))
  reaps :
      (c : Option ℕ)
      → k.killer ≡ polling
      → k.child ≡ zombie c
      → Step k (record k { child = reaped; has_exited = true; killer = over })
  gives_up : k.killer ≡ polling → Step k (record k { killer = forcing })
  is_late : k.killer ≡ forcing → k.has_exited ≡ true → Step k (record k { killer = over })
  forces :
      k.killer ≡ forcing
      → k.has_exited ≡ false
      → Step k (force k.child (record k { killer = reaping }))
  waits :
      k.killer ≡ reaping
      → k.child ≢ running
      → Step k (record k { child = reaped; has_exited = true; killer = over })

pub data Steps (k : Killing) : Killing → Type 0 where
  here : Steps k k
  later : {l m : Killing} → Steps k l → Step l m → Steps k m

-- The child was waited for by kill(), and the thread has no code.
abbrev IsTaken : Killing → Type 0
IsTaken k =
    (k.child ≡ reaped)
    × ((k.collecting ≡ collecting)
        ⊎ ((k.collecting ≡ storing none) ⊎ (k.collecting ≡ fulfilled none)))

Step-IsTaken : {k l : Killing} → Step k l → IsTaken k → IsTaken l
unfolding terminate force
Step-IsTaken {k} (exits c e) t = ground (arith, e, t)
Step-IsTaken {k} (collects c e f) t = ground (arith, f, t)
Step-IsTaken {k} (misses e f) t = ground (arith, f, t)
Step-IsTaken {k} (stores c e) t = ground (arith, e, t)
Step-IsTaken {k} (skips e f) t = t
Step-IsTaken {k} (terminates e f) t = ground (arith, t)
Step-IsTaken {k} (reaps c e f) t = ground (arith, f, t)
Step-IsTaken {k} (gives_up e) t = t
Step-IsTaken {k} (is_late e f) t = t
Step-IsTaken {k} (forces e f) t = ground (arith, t)
Step-IsTaken {k} (waits e f) t = (refl, t.1)

Steps-IsTaken : {k l : Killing} → Steps k l → IsTaken k → IsTaken l
Steps-IsTaken here t = t
Steps-IsTaken (later run step) t = Step-IsTaken step (Steps-IsTaken run t)

-- If kill() waits for the child before the thread does, the result never has an exit code but -1,
-- whatever the child exited with.
pub reaped_code_lost :
    {k l : Killing} (code : ℕ)
    → k.child ≡ reaped
    → k.collecting ≡ collecting
    → Steps k l
    → l.collecting ≢ fulfilled (some code)
reaped_code_lost code gone busy run =
    let taken = Steps-IsTaken run (gone, inl busy) in λ e. ground (arith, taken, e)
