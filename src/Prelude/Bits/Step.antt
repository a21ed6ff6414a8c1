-- ===== src/Prelude/Bits/Step.antt =====
-- One equation for the lowest digit of `|` and of `&`, from the recursion that they stand for.
use Prim.Native.Nat.{
  ℕ, zero, suc, ◌+◌, ◌-◌, ◌*◌, ◌/◌, ◌%◌, ◌≤◌, min, max, digits, bitwise, bit_and, bit_or,
  bit_and-bitwise, bit_or-bitwise, bit_xor, bit_xor-bitwise, differ, ◌<◌,
}
use mathlib.Core.Path.{◌≡◌, refl, ◌∙◌}
use native.Mathlib.Omega.{arith}

module _ (on_zero : ℕ → ℕ) (digit : ℕ → ℕ → ℕ) where
  -- A round more than the first number needs changes nothing.
  digits-suc :
      (rounds x y : ℕ)
      → x ≤ rounds
      → digits on_zero digit (suc rounds) x y ≡ digits on_zero digit rounds x y
  digits-suc zero x y h = let e : x ≡ 0 = omega arith in rw e
  digits-suc (suc rounds) zero y h = refl
  digits-suc (suc rounds) (suc x) y h = rw (digits-suc rounds (suc x / 2) (y / 2) (omega arith))

  digits_spare :
      (spare rounds x y : ℕ)
      → rounds ≡ spare + x
      → digits on_zero digit rounds x y ≡ digits on_zero digit x x y
  digits_spare zero rounds x y e = let same : rounds ≡ x = omega arith in rw same
  digits_spare (suc spare) rounds x y e =
      let more : rounds ≡ suc (spare + x) = omega arith in
      rw more (digits-suc (spare + x) x y (omega arith) ∙ digits_spare spare (spare + x) x y refl)

  low_digit :
      (x y : ℕ)
      → bitwise on_zero digit (suc x) y
        ≡ digit (suc x % 2) (y % 2) + 2 * bitwise on_zero digit (suc x / 2) (y / 2)
  low_digit x y = omega (arith, digits_spare (x - suc x / 2) x (suc x / 2) (y / 2) (omega arith))

pub bit_and_step : (x y : ℕ) → bit_and x y ≡ min (x % 2) (y % 2) + 2 * bit_and (x / 2) (y / 2)
bit_and_step zero y = omega (arith, bit_and-bitwise 0 y, bit_and-bitwise 0 (y / 2))
bit_and_step (suc x) y = omega (
  arith,
  low_digit (λ _. 0) min x y,
  bit_and-bitwise (suc x) y,
  bit_and-bitwise (suc x / 2) (y / 2),
)

pub bit_or_step : (x y : ℕ) → bit_or x y ≡ max (x % 2) (y % 2) + 2 * bit_or (x / 2) (y / 2)
bit_or_step zero y = omega (arith, bit_or-bitwise 0 y, bit_or-bitwise 0 (y / 2))
bit_or_step (suc x) y = omega (
  arith,
  low_digit (λ t. t) max x y,
  bit_or-bitwise (suc x) y,
  bit_or-bitwise (suc x / 2) (y / 2),
)

differ_low : (a b : ℕ) → a < 2 → b < 2 → differ a b ≡ (a + b) % 2
differ_low zero b ha hb = omega arith
differ_low (suc zero) zero ha hb = refl
differ_low (suc zero) (suc zero) ha hb = refl
differ_low (suc zero) (suc (suc b)) ha hb = absurd (omega arith)
differ_low (suc (suc a)) b ha hb = absurd (omega arith)

pub bit_xor_step : (x y : ℕ) → bit_xor x y ≡ (x % 2 + y % 2) % 2 + 2 * bit_xor (x / 2) (y / 2)
bit_xor_step zero y = omega (arith, bit_xor-bitwise 0 y, bit_xor-bitwise 0 (y / 2))
bit_xor_step (suc x) y = omega (
  arith,
  low_digit (λ t. t) differ x y,
  bit_xor-bitwise (suc x) y,
  bit_xor-bitwise (suc x / 2) (y / 2),
  differ_low (suc x % 2) (y % 2) (omega arith) (omega arith),
)
