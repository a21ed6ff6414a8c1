-- ===== src/Prelude/Bits/Digits.antt =====
-- The bits of a native number, one by one.
use Prim.Native.Nat.{ℕ, zero, suc, ◌/◌, ◌%◌, ◌≤◌, bit_and, bit_or, bit_xor}
use mathlib.Core.Path.{◌≡◌}
use mathlib.Core.Logic.{◌≢◌}
use mathlib.Core.Bool.{Bool, true, false, not, ◌&&◌, ◌||◌}
use mathlib.Core.List.{List, [], ◌∷◌}
use native.Mathlib.Decide.{ℕ_discrete}
use cpp_framework.Prelude.Tests.{◌==◌, if◌then◌else◌}
use native.Mathlib.Omega.{arith}
use cpp_framework.Prelude.Bits.Step.{bit_and_step, bit_or_step, bit_xor_step}

-- Bit `i` of a number.
abbrev pub bit : ℕ → ℕ → Bool
bit zero x = x % 2 == 1
bit (suc i) x = bit i (x / 2)

pub bit-and : (i x y : ℕ) → bit i (bit_and x y) ≡ bit i x && bit i y
bit-and zero x y = ground (arith, bit_and_step x y)
bit-and (suc i) x y =
    let half : bit_and x y / 2 ≡ bit_and (x / 2) (y / 2) = omega (arith, bit_and_step x y) in
    rw half (bit-and i (x / 2) (y / 2))

pub bit-or : (i x y : ℕ) → bit i (bit_or x y) ≡ bit i x || bit i y
bit-or zero x y = ground (arith, bit_or_step x y)
bit-or (suc i) x y =
    let half : bit_or x y / 2 ≡ bit_or (x / 2) (y / 2) = omega (arith, bit_or_step x y) in
    rw half (bit-or i (x / 2) (y / 2))

pub bit-xor : (i x y : ℕ) → bit i (bit_xor x y) ≡ (if bit i x then not (bit i y) else bit i y)
bit-xor zero x y = ground (arith, bit_xor_step x y)
bit-xor (suc i) x y =
    let half : bit_xor x y / 2 ≡ bit_xor (x / 2) (y / 2) = omega (arith, bit_xor_step x y) in
    rw half (bit-xor i (x / 2) (y / 2))

pub bit-zero : (i : ℕ) → bit i 0 ≡ false
bit-zero zero = ground arith
bit-zero (suc i) = let half : 0 / 2 ≡ 0 = omega arith in rw half (bit-zero i)

-- A number that is not 0 has a bit.
pub some_bit : (fuel x : ℕ) → x ≤ fuel → x ≢ 0 → (i : ℕ) × (bit i x ≡ true)
some_bit zero x h n = absurd (n (omega arith))
some_bit (suc fuel) x h n = elim (ℕ_discrete (x % 2) 1) [
  | yes odd ↦ (0, ground (arith, odd))
  | no even ↦
      let (i, e) = some_bit fuel (x / 2) (omega arith) (λ z. n (omega (arith, z, even))) in
      (suc i, e)
]

-- Numbers with the same bits are equal.
pub same_bits : (fuel x y : ℕ) → x ≤ fuel → y ≤ fuel → ((i : ℕ) → bit i x ≡ bit i y) → x ≡ y
same_bits zero x y h k e = omega arith
same_bits (suc fuel) x y h k e =
    let half = same_bits fuel (x / 2) (y / 2) (omega arith) (omega arith) (λ i. e (suc i)) in
    ground (arith, e 0, half)

-- Whether some number of a list has bit `i`.
abbrev pub any_has : ℕ → List ℕ → Bool
any_has i [] = false
any_has i (x ∷ xs) = bit i x || any_has i xs
