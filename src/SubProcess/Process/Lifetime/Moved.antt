-- ===== src/SubProcess/Process/Lifetime/Moved.antt =====
-- What the destructor of a handle does, once the thread has its result.
use cpp_framework.Prelude.{ℕ, ◌≡◌, ◌⊎◌, false, Option, none, some, List, [], ◌∷◌, All}
use cpp_framework.SubProcess.StartInfo.{StartInfo}
use cpp_framework.SubProcess.Process.Handle.{Process, new_process, set_id, move}
use cpp_framework.SubProcess.Process.Lifetime.{Life, started}

-- The object that the thread knows has no child, and no other object with one has its flag set.
abbrev IsIdle : Option Process → Type 0
IsIdle none = Unit
IsIdle (some p) = p.id ≡ none

abbrev IsUnaware : Option Process → Type 0
IsUnaware none = Unit
IsUnaware (some p) = (p.id ≡ none) ⊎ (p.has_exited ≡ false)

abbrev IsMovedIn : List (Option Process) → Type 0
IsMovedIn [] = Unit
IsMovedIn (o ∷ os) = IsIdle o × All IsUnaware os

-- Behind start_async and one move of the handle.
unfoldable pub moved_away : StartInfo → ℕ → Life
unfolding started move set_id new_process
moved_away info pid =
    let (to, from) = move (set_id pid (new_process info)) in
    record (started info pid) { handles = some from ∷ some to ∷ [] }
