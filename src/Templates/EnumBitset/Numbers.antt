-- ===== src/Templates/EnumBitset/Numbers.antt =====
-- Sets of bits against numbers: the values of std::bitset, and the operators of the set against the
-- bit operators of include/Templates/EnumOperations.hpp.
use Prim.Native.Nat.{bit_and, bit_or, bit_xor, min, max}
use native.Mathlib.Nat.{pow-suc, mod-eq_of_lt, pow-le-pow_right}
use cpp_framework.Prelude.{
  ℕ, zero, suc, ◌+◌, ◌-◌, ◌*◌, ◌/◌, ◌%◌, ◌^◌, ◌<◌, ◌≤◌, ◌≡◌, refl, sym, ◌∙◌, ap, ◌==◌, Bool, true,
  false, ◌&&◌, ◌||◌, not, [], ◌∷◌, length, arith, if◌then◌else◌,
}
use cpp_framework.Prelude.Bits.{bit_and_step, bit_or_step, bit_xor_step}
use cpp_framework.Templates.EnumBitset.{
  Bits, of_number, to_underlying, zip_bits, and_assign, or_assign, xor_assign, flip_all,
}
use cpp_framework.Templates.EnumBitset.Laws.{to_underlying-of_number}
use cpp_framework.Templates.EnumOperations.{
  to_enum, complement, bitwise_and, bitwise_or, bitwise_xor, bitwise_not,
}
use cpp_framework.Templates.EnumOperations
use cpp_framework.Templates.EnumOperations.Laws.{mod-pow_suc}

to_underlying-lt : (bits : Bits) → to_underlying bits < 2 ^ length bits
unfolding to_underlying
to_underlying-lt [] = omega arith
to_underlying-lt (true ∷ bits) = omega (arith, to_underlying-lt bits, pow-suc 2 (length bits))
to_underlying-lt (false ∷ bits) = omega (arith, to_underlying-lt bits, pow-suc 2 (length bits))

length-of_number : (n v : ℕ) → length (of_number n v) ≡ n
unfolding of_number
length-of_number zero v = refl
length-of_number (suc n) v = ap suc (length-of_number n (v / 2))

of_number-to_underlying : (bits : Bits) → of_number (length bits) (to_underlying bits) ≡ bits
unfolding of_number to_underlying
of_number-to_underlying [] = refl
of_number-to_underlying (true ∷ bits) =
    let half : (1 + 2 * to_underlying bits) / 2 ≡ to_underlying bits = omega arith in
    let low : ((1 + 2 * to_underlying bits) % 2 == 1) ≡ true = ground arith in
    rw (half, low, of_number-to_underlying bits) refl
of_number-to_underlying (false ∷ bits) =
    let half : (0 + 2 * to_underlying bits) / 2 ≡ to_underlying bits = omega arith in
    let low : ((0 + 2 * to_underlying bits) % 2 == 1) ≡ false = ground arith in
    rw (half, low, of_number-to_underlying bits) refl

-- The sets of `n` bits and the numbers below 2 ^ n are the same: the two conversions of std::bitset
-- are inverse to each other, and stay within the width.
bitset_round :
    (n v : ℕ) (bits : Bits)
    → v < 2 ^ n
    → (to_underlying (of_number n v) ≡ v)
      × (length (of_number n v) ≡ n)
      × (of_number (length bits) (to_underlying bits) ≡ bits)
      × (to_underlying bits < 2 ^ length bits)
bitset_round n v bits h = (
  to_underlying-of_number n v h,
  length-of_number n v,
  of_number-to_underlying bits,
  to_underlying-lt bits,
)

low : (b : Bool) (m : ℕ) → ((if b then 1 else 0) + 2 * m) % 2 ≡ (if b then 1 else 0)
low true m = omega arith
low false m = omega arith

high : (b : Bool) (m : ℕ) → ((if b then 1 else 0) + 2 * m) / 2 ≡ m
high true m = omega arith
high false m = omega arith

module _ (f : Bool → Bool → Bool) (g : ℕ → ℕ → ℕ) (digit : ℕ → ℕ → ℕ)
    (step : (x y : ℕ) → g x y ≡ digit (x % 2) (y % 2) + 2 * g (x / 2) (y / 2)) (at_zero : g 0 0 ≡ 0)
    (agrees : (b c : Bool)
      → (if f b c then 1 else 0) ≡ digit (if b then 1 else 0) (if c then 1 else 0)) where
  zip_bits-number :
      (xs ys : Bits)
      → length xs ≡ length ys
      → to_underlying (zip_bits f xs ys) ≡ g (to_underlying xs) (to_underlying ys)
  unfolding to_underlying zip_bits
  zip_bits-number [] [] e = sym at_zero
  zip_bits-number [] (y ∷ ys) e = absurd (omega (arith, e))
  zip_bits-number (x ∷ xs) [] e = absurd (omega (arith, e))
  zip_bits-number (x ∷ xs) (y ∷ ys) e =
      rw
        (
          zip_bits-number xs ys (omega (arith, e)),
          agrees x y,
          step (to_underlying (x ∷ xs)) (to_underlying (y ∷ ys)),
          low x (to_underlying xs),
          low y (to_underlying ys),
          high x (to_underlying xs),
          high y (to_underlying ys),
        )
        refl

-- The remainder of a complement by a narrower width is the complement within it.
complement-mod : (n p x : ℕ) → n ≤ p → x < 2 ^ n → (2 ^ p - 1 - x) % 2 ^ n ≡ 2 ^ n - 1 - x
complement-mod zero p x wide h = omega arith
complement-mod (suc n) zero x wide h = absurd (omega arith)
complement-mod (suc n) (suc p) x wide h =
    let bound : x < 2 ^ suc p = omega (arith, pow-le-pow_right {n = 2} (omega arith) wide) in
    let half : (2 ^ suc p - 1 - x) / 2 ≡ 2 ^ p - 1 - x / 2 = omega (arith, pow-suc 2 p) in
    let rest = complement-mod n p (x / 2) (omega arith) (omega (arith, pow-suc 2 n)) in
    let digits = mod-pow_suc n (2 ^ suc p - 1 - x) in
    let upper : (2 ^ suc p - 1 - x) / 2 % 2 ^ n ≡ 2 ^ n - 1 - x / 2 =
      ap (λ t. t % 2 ^ n) half ∙ rest in
    omega (arith, digits, upper, pow-suc 2 p, pow-suc 2 n)

to_underlying-not :
    (bits : Bits) → to_underlying (flip_all bits) ≡ 2 ^ length bits - 1 - to_underlying bits
unfolding to_underlying flip_all
to_underlying-not [] = refl
to_underlying-not (true ∷ bits) =
    omega (arith, to_underlying-not bits, to_underlying-lt bits, pow-suc 2 (length bits))
to_underlying-not (false ∷ bits) =
    omega (arith, to_underlying-not bits, to_underlying-lt bits, pow-suc 2 (length bits))

length-zip_bits :
    (f : Bool → Bool → Bool) (xs ys : Bits)
    → length xs ≡ length ys
    → length (zip_bits f xs ys) ≡ length xs
unfolding zip_bits
length-zip_bits f [] ys e = refl
length-zip_bits f (x ∷ xs) [] e = absurd (omega (arith, e))
length-zip_bits f (x ∷ xs) (y ∷ ys) e = ap suc (length-zip_bits f xs ys (omega (arith, e)))

-- What a bit by bit operation of the set stands for is what the operator of the enumeration gives.
fits :
    (f : Bool → Bool → Bool) (xs ys : Bits) (v : ℕ)
    → length xs ≡ length ys
    → to_underlying (zip_bits f xs ys) ≡ v
    → v ≡ v % 2 ^ length xs
fits f xs ys v e h =
    let short = length-zip_bits f xs ys e in
    sym
      (mod-eq_of_lt (omega (arith, h, ap (λ t. 2 ^ t) short, to_underlying-lt (zip_bits f xs ys))))

and-number :
    (xs ys : Bits)
    → length xs ≡ length ys
    → to_underlying (and_assign xs ys) ≡ bit_and (to_underlying xs) (to_underlying ys)
unfolding and_assign
and-number = zip_bits-number (λ b c. b && c) bit_and min bit_and_step refl agrees
  where
    agrees :
        (b c : Bool) → (if b && c then 1 else 0) ≡ min (if b then 1 else 0) (if c then 1 else 0)
    agrees true true = refl
    agrees true false = refl
    agrees false true = refl
    agrees false false = refl

or-number :
    (xs ys : Bits)
    → length xs ≡ length ys
    → to_underlying (or_assign xs ys) ≡ bit_or (to_underlying xs) (to_underlying ys)
unfolding or_assign
or-number = zip_bits-number (λ b c. b || c) bit_or max bit_or_step refl agrees
  where
    agrees :
        (b c : Bool) → (if b || c then 1 else 0) ≡ max (if b then 1 else 0) (if c then 1 else 0)
    agrees true true = refl
    agrees true false = refl
    agrees false true = refl
    agrees false false = refl

xor-number :
    (xs ys : Bits)
    → length xs ≡ length ys
    → to_underlying (xor_assign xs ys) ≡ bit_xor (to_underlying xs) (to_underlying ys)
unfolding xor_assign
xor-number =
    zip_bits-number (λ b c. if b then not c else c) bit_xor (λ a b. (a + b) % 2) bit_xor_step refl
      agrees
  where
    agrees :
        (b c : Bool)
        → (if (if b then not c else c) then 1 else 0)
          ≡ ((if b then 1 else 0) + (if c then 1 else 0)) % 2
    agrees true true = refl
    agrees true false = refl
    agrees false true = refl
    agrees false false = refl

-- `&=`, `|=` and `^=` of two sets of one width, and flip of one, are the operators `&`, `|`, `^` and
-- `~` of the enumeration on the values that the sets stand for, at that width, whatever the width
-- `p` the complement is computed in.
pub operators_agree :
    (p : ℕ) (xs ys : Bits)
    → length xs ≡ length ys
    → length xs ≤ p
    → (to_underlying (and_assign xs ys)
        ≡ bitwise_and (length xs) (to_underlying xs) (to_underlying ys))
      × (to_underlying (or_assign xs ys)
          ≡ bitwise_or (length xs) (to_underlying xs) (to_underlying ys))
      × (to_underlying (xor_assign xs ys)
          ≡ bitwise_xor (length xs) (to_underlying xs) (to_underlying ys))
      × (to_underlying (flip_all xs) ≡ bitwise_not (length xs) p (to_underlying xs))
unfolding bitwise_and bitwise_or bitwise_xor bitwise_not to_enum complement
    EnumOperations.to_underlying and_assign or_assign xor_assign
operators_agree p xs ys e wide = (
  and-number xs ys e ∙ fits (λ b c. b && c) xs ys _ e (and-number xs ys e),
  or-number xs ys e ∙ fits (λ b c. b || c) xs ys _ e (or-number xs ys e),
  xor-number xs ys e ∙ fits (λ b c. if b then not c else c) xs ys _ e (xor-number xs ys e),
  to_underlying-not xs
      ∙ sym (complement-mod (length xs) p (to_underlying xs) wide (to_underlying-lt xs)),
)
