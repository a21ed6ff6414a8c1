-- ===== src/SubProcess/Process/Lifetime/Kept.antt =====
-- A handle that stays where it was started.
use cpp_framework.Prelude.{
  ℕ, zero, suc, ◌≡◌, refl, subst, true, Option, none, some, List, [], ◌∷◌, ◌++◌, set, get_elem?,
  arith,
}
use cpp_framework.SubProcess.StartInfo.{StartInfo}
use cpp_framework.SubProcess.Process.Handle.{
  Process, set_exited, move, assign_move, destroy, end_child,
}
use cpp_framework.SubProcess.Process.Lifetime.{
  Life, Child, running, zombie, reaped, Collecting, collecting, storing, fulfilled, started, store,
  signal, Step, exits, collects, misses, stores, moves, assigns, destroys, signals, waits, Steps,
  here, later, assign_handle, spares_first, spared_first, spared_last,
}

-- The object at address 0, if it is still there, knows that the child has ended.
abbrev IsAware : List (Option Process) → Type 0
IsAware [] = Unit
IsAware (none ∷ os) = Unit
IsAware (some p ∷ os) = p.has_exited ≡ true

abbrev IsNoted : Collecting → List (Option Process) → Type 0
IsNoted collecting hs = Unit
IsNoted (storing c) hs = Unit
IsNoted (fulfilled c) hs = IsAware hs

aware_first :
    (hs : List (Option Process)) (p : Process)
    → get_elem? hs 0 ≡ some (some p)
    → IsAware hs
    → p.has_exited ≡ true
aware_first [] p e a = absurd cc
aware_first (none ∷ os) p e a = absurd cc
aware_first (some o ∷ os) p e a =
    let same : some o ≡ some p = ground (arith, e) in subst (λ x. IsAware (x ∷ os)) same a

stored-IsAware :
    (hs : List (Option Process)) (p : Process) → IsAware (set hs 0 (some (set_exited p)))
unfolding set_exited
stored-IsAware [] p = tt
stored-IsAware (o ∷ os) p = refl

gone-IsAware : (hs : List (Option Process)) → get_elem? hs 0 ≡ some none → IsAware hs
gone-IsAware [] e = tt
gone-IsAware (none ∷ os) e = tt
gone-IsAware (some p ∷ os) e = absurd cc

store-IsAware :
    (o : Option Process) (l : Life) → get_elem? l.handles 0 ≡ some o → IsAware (store o l).handles
unfolding store
store-IsAware none l e = gone-IsAware l.handles e
store-IsAware (some p) l e = stored-IsAware l.handles p

moves-IsAware :
    (hs : List (Option Process)) (i : ℕ) (p : Process)
    → get_elem? hs i ≡ some (some p)
    → IsAware hs
    → IsAware (set hs i (some (move p).1) ++ some (move p).0 ∷ [])
unfolding move
moves-IsAware [] i p e a = absurd cc
moves-IsAware (o ∷ os) zero p e a = aware_first (o ∷ os) p e a
moves-IsAware (none ∷ os) (suc i) p e a = tt
moves-IsAware (some o ∷ os) (suc i) p e a = a

assigns-IsAware :
    (l : Life) (i j : ℕ) (p o : Process)
    → get_elem? l.handles j ≡ some (some o)
    → IsAware l.handles
    → IsAware (assign_handle (suc i) j p o l).handles
unfolding assign_handle assign_move
assigns-IsAware l i j p o e a = by_handles l.handles j e a
  where
    by_handles :
        (hs : List (Option Process)) (j : ℕ)
        → get_elem? hs j ≡ some (some o)
        → IsAware hs
        → IsAware (set (set hs (suc i) (some (assign_move p o).0)) j (some (assign_move p o).1))
    by_handles [] j e a = tt
    by_handles (h ∷ hs) zero e a = aware_first (h ∷ hs) o e a
    by_handles (none ∷ hs) (suc j) e a = tt
    by_handles (some h ∷ hs) (suc j) e a = a

assigns-collecting :
    (l : Life) (i j : ℕ) (p o : Process) → (assign_handle i j p o l).collecting ≡ l.collecting
unfolding assign_handle
assigns-collecting l i j p o = refl

destroys-IsAware : (hs : List (Option Process)) (i : ℕ) → IsAware hs → IsAware (set hs i none)
destroys-IsAware [] i a = tt
destroys-IsAware (o ∷ os) zero a = tt
destroys-IsAware (none ∷ os) (suc i) a = tt
destroys-IsAware (some o ∷ os) (suc i) a = a

-- The lists of handles change alike whatever the thread has come to.
noted :
    (c : Collecting) (hs ks : List (Option Process))
    → (IsAware hs → IsAware ks)
    → IsNoted c hs
    → IsNoted c ks
noted collecting hs ks f n = tt
noted (storing c) hs ks f n = tt
noted (fulfilled c) hs ks f n = f n

signal-IsNoted :
    (c : Child) (l : Life)
    → IsNoted l.collecting l.handles
    → IsNoted (signal c l).collecting (signal c l).handles
unfolding signal
signal-IsNoted running l n = n
signal-IsNoted (zombie c) l n = n
signal-IsNoted reaped l n = n

store-collecting : (o : Option Process) (l : Life) → (store o l).collecting ≡ l.collecting
unfolding store
store-collecting none l = refl
store-collecting (some p) l = refl

Step-IsNoted :
    {code : Option ℕ} {l m : Life} (step : Step code l m)
    → spares_first step ≡ true
    → IsNoted l.collecting l.handles
    → IsNoted m.collecting m.handles
Step-IsNoted (exits e) k n = n
Step-IsNoted (collects c e f) k n = tt
Step-IsNoted (misses e f) k n = tt
Step-IsNoted {l = l} (stores c o e at) k n =
    let now : Life = record l { collecting = fulfilled c } in
    rw (store-collecting o now) (store-IsAware o now at)
Step-IsNoted {l = l} (moves i p at) k n =
    noted l.collecting l.handles _ (moves-IsAware l.handles i p at) n
Step-IsNoted {l = l} (assigns zero j p o d e f) k n = absurd cc
Step-IsNoted {l = l} (assigns (suc i) j p o d e f) k n =
    rw (assigns-collecting l (suc i) j p o)
      (noted l.collecting l.handles _ (assigns-IsAware l i j p o f) n)
Step-IsNoted {l = l} (destroys i p at e) k n =
    noted l.collecting l.handles _ (destroys-IsAware l.handles i) n
Step-IsNoted {l = l} (signals pid s rest e) k n =
    signal-IsNoted l.child (record l { calls = rest }) n
Step-IsNoted (waits pid rest e f) k n = n

Steps-IsNoted :
    {code : Option ℕ} (info : StartInfo) (pid : ℕ) {l : Life}
    (run : Steps code (started info pid) l)
    → spared_first run ≡ true
    → IsNoted l.collecting l.handles
unfolding started
Steps-IsNoted info pid here k = tt
Steps-IsNoted info pid (later run step) k =
    let (before, now) = spared_last run step k in
    Step-IsNoted step now (Steps-IsNoted info pid run before)

over_quiet : (p : Process) → p.has_exited ≡ true → destroy p ≡ []
unfolding destroy end_child
over_quiet p e = ground (arith, e)

-- Once the result is there, the destructor of the object that start_async was called on makes no
-- call, whatever was moved, destroyed and collected before, if nothing was assigned to that object.
pub kept_handle_quiet :
    {code : Option ℕ} (info : StartInfo) (pid : ℕ) {l : Life} (c : Option ℕ) (p : Process)
    (run : Steps code (started info pid) l)
    → spared_first run ≡ true
    → l.collecting ≡ fulfilled c
    → get_elem? l.handles 0 ≡ some (some p)
    → destroy p ≡ []
kept_handle_quiet info pid {l} c p run spared over at =
    let aware = subst (λ x. IsNoted x l.handles) over (Steps-IsNoted info pid run spared) in
    over_quiet p (aware_first l.handles p at aware)
