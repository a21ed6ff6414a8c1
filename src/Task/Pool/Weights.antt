-- ===== src/Task/Pool/Weights.antt =====
-- How many workers are at each place, and how a notification changes that.
use cpp_framework.Prelude.{ℕ, zero, suc, ◌≡◌, refl, List, [], ◌∷◌, map, total, arith, replicate}
use cpp_framework.Task.Pool.{Worker, entering, unready, asleep, deciding, running, exited, wake}

abbrev pub is_unready : Worker → ℕ
is_unready unready = 1
is_unready entering = 0
is_unready asleep = 0
is_unready (deciding t) = 0
is_unready (running t) = 0
is_unready exited = 0

abbrev pub is_running : Worker → ℕ
is_running (running t) = 1
is_running entering = 0
is_running unready = 0
is_running asleep = 0
is_running (deciding t) = 0
is_running exited = 0

-- Waiting for the condition variable, or about to.
abbrev pub is_waiting : Worker → ℕ
is_waiting unready = 1
is_waiting asleep = 1
is_waiting entering = 0
is_waiting (deciding t) = 0
is_waiting (running t) = 0
is_waiting exited = 0

abbrev pub is_exited : Worker → ℕ
is_exited exited = 1
is_exited entering = 0
is_exited unready = 0
is_exited asleep = 0
is_exited (deciding t) = 0
is_exited (running t) = 0

module _ (w v : Worker → ℕ) (same : (x : Worker) → w (wake x) ≡ v x) where
  pub total-wake : (xs : List Worker) → total w (map wake xs) ≡ total v xs
  total-wake [] = refl
  total-wake (x ∷ xs) = omega (arith, same x, total-wake xs)

pub total-wake_unready : (xs : List Worker) → total is_unready (map wake xs) ≡ total is_unready xs
total-wake_unready = total-wake is_unready is_unready λ x. ground arith

pub total-wake_running : (xs : List Worker) → total is_running (map wake xs) ≡ total is_running xs
total-wake_running = total-wake is_running is_running λ x. ground arith

-- After a notification nobody waits but the worker that still holds the mutex.
pub total-wake_waiting : (xs : List Worker) → total is_waiting (map wake xs) ≡ total is_unready xs
total-wake_waiting = total-wake is_waiting is_unready λ x. ground arith

pub total-wake_exited : (xs : List Worker) → total is_exited (map wake xs) ≡ total is_exited xs
total-wake_exited = total-wake is_exited is_exited λ x. ground arith

pub total-replicate : (w : Worker → ℕ) (n : ℕ) → w entering ≡ 0 → total w (replicate n entering) ≡ 0
total-replicate w zero h = refl
total-replicate w (suc n) h = omega (arith, total-replicate w n h)
