-- ===== src/Prelude/Bits/Laws.antt =====
-- Laws of `|` and `&` at every width, by strong induction from `a / 2` to `a`.
use Prim.Native.Nat.{ℕ, zero, suc, ◌+◌, ◌/◌, ◌%◌, ◌^◌, ◌≤◌, ◌<◌, max, bit_and, bit_or}
use native.Mathlib.Nat.{pow-suc}
use mathlib.Core.Path.{◌≡◌, refl, ap}
use native.Mathlib.Omega.{arith}
use cpp_framework.Prelude.Bits.Step.{bit_or_step, bit_and_step}

-- Each law by recursion on a bound of its first argument.
or_zero_below : (n x : ℕ) → x ≤ n → bit_or x 0 ≡ x
or_zero_below n zero h = refl
or_zero_below zero (suc x) h = absurd (omega arith)
or_zero_below (suc n) (suc x) h =
    omega (arith, bit_or_step (suc x) 0, or_zero_below n (suc x / 2) (omega arith))

pub bit_or-zero : (x : ℕ) → bit_or x 0 ≡ x
bit_or-zero x = or_zero_below x x (omega arith)

zero_or_below : (n y : ℕ) → y ≤ n → bit_or 0 y ≡ y
zero_or_below n zero h = refl
zero_or_below zero (suc y) h = absurd (omega arith)
zero_or_below (suc n) (suc y) h =
    omega (arith, bit_or_step 0 (suc y), zero_or_below n (suc y / 2) (omega arith))

pub zero-bit_or : (y : ℕ) → bit_or 0 y ≡ y
zero-bit_or y = zero_or_below y y (omega arith)

pub bit_or_half : (x y : ℕ) → bit_or x y / 2 ≡ bit_or (x / 2) (y / 2)
bit_or_half x y = omega (arith, bit_or_step x y)

pub bit_or_low : (x y : ℕ) → bit_or x y % 2 ≡ max (x % 2) (y % 2)
bit_or_low x y = omega (arith, bit_or_step x y)

absorb_below : (n x y : ℕ) → x ≤ n → bit_or (bit_or x y) x ≡ bit_or x y
absorb_below n zero y h = bit_or-zero (bit_or 0 y)
absorb_below zero (suc x) y h = absurd (omega arith)
absorb_below (suc n) (suc x) y h = omega (
  arith,
  bit_or_step (bit_or (suc x) y) (suc x),
  bit_or_step (suc x) y,
  ap (λ (t : ℕ). bit_or t (suc x / 2)) (bit_or_half (suc x) y),
  bit_or_low (suc x) y,
  absorb_below n (suc x / 2) (y / 2) (omega arith),
)

-- Or-ing a second time adds nothing.
pub bit_or_absorb : (x y : ℕ) → bit_or (bit_or x y) x ≡ bit_or x y
bit_or_absorb x y = absorb_below x x y (omega arith)

zero_and_below : (n y : ℕ) → y ≤ n → bit_and 0 y ≡ 0
zero_and_below n zero h = refl
zero_and_below zero (suc y) h = absurd (omega arith)
zero_and_below (suc n) (suc y) h =
    omega (arith, bit_and_step 0 (suc y), zero_and_below n (suc y / 2) (omega arith))

pub zero-bit_and : (y : ℕ) → bit_and 0 y ≡ 0
zero-bit_and y = zero_and_below y y (omega arith)

and_or_below : (n p x y : ℕ) → p ≤ n → bit_and p (bit_or x y) ≡ 0 → bit_and p x ≡ 0
and_or_below n zero x y h e = zero-bit_and x
and_or_below zero (suc p) x y h e = absurd (omega arith)
and_or_below (suc n) (suc p) x y h e = omega (
  arith,
  bit_and_step (suc p) (bit_or x y),
  bit_and_step (suc p) x,
  bit_or_low x y,
  and_or_below n (suc p / 2) (x / 2) (y / 2) (omega arith) (
      omega (
        arith,
        bit_and_step (suc p) (bit_or x y),
        ap (λ (t : ℕ). bit_and (suc p / 2) t) (bit_or_half x y),
      )),
)

-- A pattern that meets no bit of `x | y` meets none of `x`.
pub bit_and-bit_or_zero : (p x y : ℕ) → bit_and p (bit_or x y) ≡ 0 → bit_and p x ≡ 0
bit_and-bit_or_zero p x y e = and_or_below p p x y (omega arith) e

idem_below : (n p : ℕ) → p ≤ n → bit_or p p ≡ p
idem_below zero p h = let e : p ≡ 0 = omega arith in rw e
idem_below (suc n) p h = omega (arith, bit_or_step p p, idem_below n (p / 2) (omega arith))

pub bit_or_idem : (p : ℕ) → bit_or p p ≡ p
bit_or_idem p = idem_below p p (omega arith)

subset_below : (n p x q : ℕ) → p ≤ n → x ≤ n → bit_or p (bit_or x q) ≡ p → bit_or p x ≡ p
subset_below zero p x q hp hx e =
    let a : p ≡ 0 = omega arith in let b : x ≡ 0 = omega arith in rw (a, b)
subset_below (suc n) p x q hp hx e = omega (
  arith,
  bit_or_step p (bit_or x q),
  bit_or_step p x,
  bit_or_low x q,
  subset_below n (p / 2) (x / 2) (q / 2) (omega arith) (omega arith) (
      omega
        (arith, bit_or_step p (bit_or x q), ap (λ (t : ℕ). bit_or (p / 2) t) (bit_or_half x q))),
)

-- If `x | q` is within `p`, so is `x`.
pub bit_or_subset : (p x q : ℕ) → bit_or p (bit_or x q) ≡ p → bit_or p x ≡ p
bit_or_subset p x q e = subset_below (p + x) p x q (omega arith) (omega arith) e

-- `|` stays within a width.
pub bit_or-lt_pow : (k x y : ℕ) → x < 2 ^ k → y < 2 ^ k → bit_or x y < 2 ^ k
bit_or-lt_pow zero x y hx hy =
    let a : x ≡ 0 = omega arith in let b : y ≡ 0 = omega arith in rw (a, b) (omega arith)
bit_or-lt_pow (suc k) x y hx hy = omega (
  arith,
  bit_or_step x y,
  pow-suc 2 k,
  bit_or-lt_pow k (x / 2) (y / 2) (omega (arith, pow-suc 2 k)) (omega (arith, pow-suc 2 k)),
)

pub pow-pos : (n : ℕ) → 0 < 2 ^ n
pow-pos zero = omega arith
pow-pos (suc n) = omega (arith, pow-suc 2 n, pow-pos n)
