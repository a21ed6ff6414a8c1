-- ===== src/Tests/Lifetimes.antt =====
-- A child with the identity 7 that exits with 0 and is collected, with its handle moved or kept.
use cpp_framework.Prelude.{◌≡◌, refl, none, some, [], ◌∷◌, text, arith}
use cpp_framework.SubProcess.StartInfo.{StartInfo, new_start_info}
use cpp_framework.SubProcess.Process.Handle.{
  Process, new_process, set_id, move, destroy, end_child, waited, sigkill,
}
use cpp_framework.SubProcess.Process.Lifetime.{
  Life, started, store, signal, Steps, here, later, exits, collects, stores, moves, assigns,
  destroys, signals,
}
use cpp_framework.SubProcess.Process.Lifetime.Moved.{moved_away}

abbrev info : StartInfo
info = new_start_info (text "true")

abbrev handle : Process
handle = set_id 7 (new_process info)

collected_elsewhere : (l : Life) × Steps (some 0) (moved_away info 7) l
unfolding moved_away started move set_id new_process
collected_elsewhere = (
  _,
  later (later (later here (exits refl)) (collects (some 0) refl refl))
      (stores (some 0) (some (record handle { id = none })) refl refl),
)

-- The handle is moved once more, and assigned back to the object that it was moved from.
assigned_back : (l : Life) × Steps (some 0) (moved_away info 7) l
unfolding collected_elsewhere moved_away started move set_id new_process store
assigned_back = (
  _,
  later (later collected_elsewhere.1 (moves 1 handle refl))
      (assigns 1 2 (record handle { id = none }) handle (λ e. ground (arith, e)) refl refl),
)

-- The signal of that destructor goes to an identity that is free.
stray : (l : Life) × Steps (some 0) (moved_away info 7) l × (l.strays ≡ 1)
unfolding collected_elsewhere moved_away started move set_id new_process store destroy end_child
    signal
stray = (
  _,
  later (later collected_elsewhere.1 (destroys 1 handle refl refl))
      (signals 7 sigkill (waited 7 ∷ []) refl),
  refl,
)

collected_here : (l : Life) × Steps (some 0) (started info 7) l
unfolding started set_id new_process
collected_here = (
  _,
  later (later (later here (exits refl)) (collects (some 0) refl refl))
      (stores (some 0) (some handle) refl refl),
)
