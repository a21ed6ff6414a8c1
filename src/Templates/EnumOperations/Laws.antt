-- ===== src/Templates/EnumOperations/Laws.antt =====
-- The operators bit by bit, which determines them, and the idioms of flags that follow.
use native.Mathlib.Nat.{
  pow-suc, pow-succ', pow-le-pow_right, mod-lt, mod-eq_of_lt, div-add-mod, mul-add-mod_self_left,
}
use cpp_framework.Prelude.{
  ℕ, zero, suc, ◌+◌, ◌-◌, ◌*◌, ◌/◌, ◌%◌, ◌^◌, ◌<◌, ◌≤◌, ◌≡◌, not, ◌&&◌, ◌||◌, arith, if◌then◌else◌,
  ap, ◌∙◌,
}
use cpp_framework.Prelude.Bits.{pow-pos, bit, bit-and, bit-or, bit-xor}
use cpp_framework.Templates.EnumOperations.{
  to_enum, to_underlying, complement, bitwise_and, bitwise_or, bitwise_xor, bitwise_not,
}

-- A remainder by twice a number, lowest digit first.
mod-double : (m x : ℕ) → 0 < m → x % (2 * m) ≡ x % 2 + 2 * (x / 2 % m)
mod-double m x h =
    let low = x % 2 + 2 * (x / 2 % m) in
    let bound : low < 2 * m = omega (arith, mod-lt (x / 2) h) in
    let split : x ≡ 2 * m * (x / 2 / m) + low = omega (arith, div-add-mod (x / 2) m) in
    ap (λ t. t % (2 * m)) split ∙ mul-add-mod_self_left (2 * m) (x / 2 / m) low ∙ mod-eq_of_lt bound

pub mod-pow_suc : (w x : ℕ) → x % 2 ^ suc w ≡ x % 2 + 2 * (x / 2 % 2 ^ w)
mod-pow_suc w x = ap (λ t. x % t) (pow-succ' 2 w) ∙ mod-double (2 ^ w) x (pow-pos w)

-- A bit below the width survives the conversion, and the complement flips each bit of its width.
bit-mod : (i w x : ℕ) → i < w → bit i (x % 2 ^ w) ≡ bit i x
bit-mod i zero x h = absurd (omega arith)
bit-mod zero (suc w) x h = ground (arith, mod-pow_suc w x)
bit-mod (suc i) (suc w) x h =
    let half : x % 2 ^ suc w / 2 ≡ x / 2 % 2 ^ w = omega (arith, mod-pow_suc w x) in
    rw half (bit-mod i w (x / 2) (omega arith))

bit-complement : (i p x : ℕ) → i < p → x < 2 ^ p → bit i (2 ^ p - 1 - x) ≡ not (bit i x)
bit-complement i zero x h f = absurd (omega arith)
bit-complement zero (suc p) x h f = ground (arith, pow-suc 2 p)
bit-complement (suc i) (suc p) x h f =
    let half : (2 ^ suc p - 1 - x) / 2 ≡ 2 ^ p - 1 - x / 2 = omega (arith, pow-suc 2 p) in
    rw half (bit-complement i p (x / 2) (omega arith) (omega (arith, pow-suc 2 p)))

-- The operators on values of `w` bits, on which C++ computes with `p` bits: each bit of a result is
-- the conjunction, the disjunction, the inequality or the negation of the bits of the operands, and
-- no result has a bit beyond the width.
pub operators_bitwise :
    (w p i a b : ℕ)
    → w ≤ p
    → i < w
    → a < 2 ^ w
    → (bit i (bitwise_and w a b) ≡ bit i a && bit i b)
      × (bit i (bitwise_or w a b) ≡ bit i a || bit i b)
      × (bit i (bitwise_xor w a b) ≡ (if bit i a then not (bit i b) else bit i b))
      × (bit i (bitwise_not w p a) ≡ not (bit i a))
      × (bitwise_and w a b < 2 ^ w)
      × (bitwise_or w a b < 2 ^ w)
      × (bitwise_xor w a b < 2 ^ w)
      × (bitwise_not w p a < 2 ^ w)
unfolding bitwise_and bitwise_or bitwise_xor bitwise_not to_enum to_underlying complement
operators_bitwise w p i a b wide h fits =
    let pos = pow-pos w in
    let more : 2 ^ w ≤ 2 ^ p = pow-le-pow_right (omega arith) wide in
    (
      bit-mod i w _ h ∙ bit-and i a b,
      bit-mod i w _ h ∙ bit-or i a b,
      bit-mod i w _ h ∙ bit-xor i a b,
      bit-mod i w _ h ∙ bit-complement i p a (omega arith) (omega arith),
      mod-lt _ pos,
      mod-lt _ pos,
      mod-lt _ pos,
      mod-lt _ pos,
    )
