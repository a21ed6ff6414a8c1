-- ===== src/Task/EventTask/Queue.antt =====
-- How often a reply's index stands in the queue, and whether the reply is still pending.
use cpp_framework.Prelude.{
  ℕ, zero, suc, ◌+◌, ◌-◌, ◌≤◌, ◌≡◌, refl, Option, none, some, List, [], ◌∷◌, ◌++◌, length,
  length-set, set, get_elem?, ◌==◌, if◌then◌else◌, arith, Bool,
}
use cpp_framework.Error.Outcome.{Fault}
use cpp_framework.Task.EventTask.{Content, Reply, pending, value, failed, respond}

abbrev pub carries : ℕ → Option ℕ → ℕ
carries i none = 0
carries i (some j) = if j == i then 1 else 0

abbrev pub occurs : {C : Type 0} → ℕ → List (Content C) → ℕ
occurs i [] = 0
occurs i (c ∷ cs) = carries i c.response + occurs i cs

abbrev pub is_pending : Option Reply → ℕ
is_pending none = 0
is_pending (some pending) = 1
is_pending (some (value b)) = 0
is_pending (some (failed f)) = 0

abbrev pub pending_at : ℕ → List Reply → ℕ
pending_at i replies = is_pending (get_elem? replies i)

pub data IsAnswer : Reply → Type 0 where
  by_value : (b : Bool) → IsAnswer (value b)
  by_fault : (f : Fault) → IsAnswer (failed f)

pub occurs-append :
    {C : Type 0} (i : ℕ) (xs : List (Content C)) (c : Content C)
    → occurs i (xs ++ c ∷ []) ≡ occurs i xs + carries i c.response
occurs-append i [] c = omega arith
occurs-append i (x ∷ xs) c = omega (arith, occurs-append i xs c)

pub pending_at-append :
    (i : ℕ) (rs : List Reply)
    → pending_at i (rs ++ pending ∷ []) ≡ pending_at i rs + carries i (some (length rs))
pending_at-append zero [] = refl
pending_at-append (suc i) [] = ground arith
pending_at-append zero (r ∷ rs) = ground arith
pending_at-append (suc i) (r ∷ rs) = ground (arith, pending_at-append i rs)

pub is_pending-le : (o : Option Reply) → is_pending o ≤ 1
is_pending-le none = omega arith
is_pending-le (some pending) = omega arith
is_pending-le (some (value b)) = omega arith
is_pending-le (some (failed f)) = omega arith

pending_at-set :
    (i j : ℕ) (r : Reply) (rs : List Reply)
    → IsAnswer r
    → pending_at i (set rs j r) ≡ pending_at i rs - carries i (some j)
pending_at-set i j r [] a = omega arith
pending_at-set zero zero r (x ∷ rs) (by_value b) = ground (arith, is_pending-le (some x))
pending_at-set zero zero r (x ∷ rs) (by_fault f) = ground (arith, is_pending-le (some x))
pending_at-set (suc i) zero r (x ∷ rs) a = ground arith
pending_at-set zero (suc j) r (x ∷ rs) a = ground arith
pending_at-set (suc i) (suc j) r (x ∷ rs) a = ground (arith, pending_at-set i j r rs a)

pub pending_at-respond :
    (i : ℕ) (o : Option ℕ) (r : Reply) (rs : List Reply)
    → IsAnswer r
    → pending_at i (respond o r rs) ≡ pending_at i rs - carries i o
unfolding respond
pending_at-respond i none r rs a = omega arith
pending_at-respond i (some j) r rs a = pending_at-set i j r rs a

pub length-respond :
    (o : Option ℕ) (r : Reply) (rs : List Reply) → length (respond o r rs) ≡ length rs
unfolding respond
length-respond none r rs = refl
length-respond (some i) r rs = length-set rs i r
