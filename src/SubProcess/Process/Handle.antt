-- ===== src/SubProcess/Process/Handle.antt =====
-- lib/SubProcess/Process.cpp: the handle of a started process, which is moved, killed and
-- destroyed. The answers of `waitpid` and of the clock are arguments.
use cpp_framework.Prelude.{
  ℕ, zero, suc, ◌+◌, ◌≡◌, refl, Bool, true, false, Option, none, some, List, [], ◌∷◌, if◌then◌else◌,
  ltb, ap, ◌⊎◌, inl, inr, Bool-cases,
}
use cpp_framework.SubProcess.StartInfo.{StartInfo}

-- The identity -1 is `none`; the others are positive.
pub record Process : Type 0 where
  pub start_info : StartInfo
  pub id : Option ℕ
  pub has_exited : Bool

pub data Signal : Type 0 where
  sigterm sigkill : Signal

-- The calls that a handle makes.
pub data Call : Type 0 where
  signalled : ℕ → Signal → Call
  waited : ℕ → Call

unfoldable pub new_process : StartInfo → Process
new_process info = record { start_info = info; id = none; has_exited = false }

-- The parent's part of `start_async` on the handle, and the end of the collecting thread.
unfoldable pub set_id : ℕ → Process → Process
set_id pid p = record p { id = some pid }

unfoldable pub set_exited : Process → Process
set_exited p = record p { has_exited = true }

-- The move constructor: the new handle, and what is left of the old one.
unfoldable pub move : Process → Process × Process
move other = (other, record other { id = none })

-- Move assignment to another handle.
unfoldable pub assign_move : Process → Process → Process × Process
assign_move p other = (
  record { start_info = other.start_info; id = other.id; has_exited = other.has_exited },
  record other { id = none },
)

unfoldable pub end_child : Option ℕ → Bool → List Call
end_child none exited = []
end_child (some pid) true = []
end_child (some pid) false = signalled pid sigkill ∷ waited pid ∷ []

-- The calls of the destructor.
unfoldable pub destroy : Process → List Call
unfolding end_child
destroy p = end_child p.id p.has_exited

-- The answers to `kill`: the readings of the clock, one a round, whether `waitpid` with WNOHANG
-- answers the child's identity in a round, and `has_exited_` as read behind the loop.
pub record Watch : Type 0 where
  pub start : ℕ
  pub now : ℕ → ℕ
  pub reaped : ℕ → Bool
  pub exited_meanwhile : Bool

-- The loop of `kill` from a round on: whether it reaped the child before the deadline. `none` is
-- a loop that does not end in this many rounds.
unfoldable pub wait_for_end : ℕ → Watch → ℕ → Option Bool
wait_for_end zero os round = none
wait_for_end (suc fuel) os round =
    let rest = wait_for_end fuel os (suc round) in
    if ltb (os.now round) (os.start + 500)
    then (if os.reaped round then some true else rest)
    else some false

-- What `kill` does behind its loop.
after_wait : ℕ → Watch → Bool → Process → Process × List Call
after_wait pid os true p = (record p { has_exited = true }, [])
after_wait pid os false p =
    if os.exited_meanwhile
    then (record p { has_exited = true }, [])
    else (record p { has_exited = true }, signalled pid sigkill ∷ waited pid ∷ [])

-- The same, for a loop that may have run out of rounds.
pub after_loop : ℕ → Watch → Process → Option Bool → Option (Process × List Call)
unfolding after_wait
after_loop pid os p none = none
after_loop pid os p (some reaped) =
    let (q, calls) = after_wait pid os reaped p in some (q, signalled pid sigterm ∷ calls)

kill_child : ℕ → Watch → Option ℕ → Process → Option (Process × List Call)
unfolding wait_for_end after_loop
kill_child fuel os none p = some (p, [])
kill_child fuel os (some pid) p = after_loop pid os p (wait_for_end fuel os 0)

-- `kill`, with at most this many rounds of its loop.
unfoldable pub kill : ℕ → Watch → Process → Option (Process × List Call)
unfolding kill_child
kill fuel os p = if p.has_exited then some (p, []) else kill_child fuel os p.id p

-- What `kill` on a running child comes to.
abbrev pub IsKilled : ℕ → Process × List Call → Type 0
IsKilled pid (q, calls) =
    (q.has_exited ≡ true)
    × (destroy q ≡ [])
    × ((calls ≡ signalled pid sigterm ∷ [])
        ⊎ (calls ≡ signalled pid sigterm ∷ signalled pid sigkill ∷ waited pid ∷ []))

after_wait-IsKilled :
    (pid : ℕ) (os : Watch) (reaped : Bool) (p : Process)
    → p.id ≡ some pid
    → let (q, calls) = after_wait pid os reaped p in IsKilled pid (q, signalled pid sigterm ∷ calls)
unfolding after_wait destroy end_child
after_wait-IsKilled pid os true p e = (refl, rw e refl, inl refl)
after_wait-IsKilled pid os false p e = elim (Bool-cases os.exited_meanwhile) [
  | inl h ↦ rw h (refl, rw e refl, inl refl)
  | inr h ↦ rw h (refl, rw e refl, inr refl)
]

pub kill-IsKilled :
    (fuel pid : ℕ) (os : Watch) (info : StartInfo) (b : Bool)
    → wait_for_end fuel os 0 ≡ some b
    → (r : Process × List Call) × (kill fuel os
          (record { start_info = info; id = some pid; has_exited = false })
        ≡ some r)
      × IsKilled pid r
unfolding kill after_loop
kill-IsKilled fuel pid os info b e =
    let p : Process = record { start_info = info; id = some pid; has_exited = false } in
    let (q, calls) = after_wait pid os b p in
    (
      (q, signalled pid sigterm ∷ calls),
      ap (after_loop pid os p) e,
      after_wait-IsKilled pid os b p refl,
    )
