-- ===== src/Templates/EnumBitset/Laws.antt =====
-- What the operations on one value of the enumeration do to the bits.
use cpp_framework.Prelude.{
  ℕ, zero, suc, ◌+◌, ◌*◌, ◌/◌, ◌%◌, ◌^◌, ◌<◌, ◌≤◌, ◌≡◌, ◌==◌, refl, ap, ◌∙◌, ◌||◌, Bool, false, not,
  Option, none, some, List, [], ◌∷◌, length, get_elem?, if◌then◌else◌, arith,
}
use native.Mathlib.Nat.{pow-suc}
use Prim.Native.Nat.{bit_or}
use cpp_framework.Prelude.Bits.{pow-pos, bit_or-lt_pow, bit, bit-or, bit-zero, any_has}
use cpp_framework.Error.Outcome.{Outcome, returned, thrown}
use cpp_framework.Templates.EnumBitset.{
  Bits, of_number, to_underlying, trailing_zeros, to_bit_position, change, at_value, in_range, set,
  reset, flip, test, or_all, or_from, of_values,
}

-- The value with `i` zero bits below the odd number `2 * k + 1`: every value but 0 is one.
unfoldable pub value_at : ℕ → ℕ → ℕ
value_at zero k = 2 * k + 1
value_at (suc i) k = 2 * value_at i k

trailing_zeros-value_at : (fuel i k : ℕ) → i < fuel → trailing_zeros fuel (value_at i k) ≡ i
unfolding trailing_zeros value_at
trailing_zeros-value_at zero i k h = absurd (omega arith)
trailing_zeros-value_at (suc fuel) zero k h = ground arith
trailing_zeros-value_at (suc fuel) (suc i) k h =
    let half : 2 * value_at i k / 2 ≡ value_at i k = omega arith in
    let even : 2 * value_at i k % 2 ≡ 0 = omega arith in
    rw (even, half, trailing_zeros-value_at fuel i k (omega arith)) refl

value_at-pos : (i k : ℕ) → 0 < value_at i k
unfolding value_at
value_at-pos zero k = omega arith
value_at-pos (suc i) k = omega (arith, value_at-pos i k)

-- A set built from a value that fits its width stands for that value.
pub to_underlying-of_number : (n v : ℕ) → v < 2 ^ n → to_underlying (of_number n v) ≡ v
unfolding to_underlying of_number
to_underlying-of_number zero v h = omega arith
to_underlying-of_number (suc n) v h =
    let rest = to_underlying-of_number n (v / 2) (omega (arith, pow-suc 2 n)) in
    ground (arith, rest)

at_value-position :
    (f : Bool → Bool) (i k : ℕ) (bits : Bits)
    → i < 64
    → at_value f (value_at i k) bits ≡ in_range bits (change f i bits)
unfolding at_value to_bit_position
at_value-position f i k bits h =
    let pos = value_at-pos i k in
    let nonzero : (value_at i k == 0) ≡ false = ground (arith, pos) in
    rw (nonzero, trailing_zeros-value_at 64 i k h) refl

test-position :
    (i k : ℕ) (bits : Bits) (b : Bool)
    → i < 64
    → get_elem? bits i ≡ some b
    → test (value_at i k) bits ≡ returned b bits
unfolding test to_bit_position
test-position i k bits b h e =
    let pos = value_at-pos i k in
    let nonzero : (value_at i k == 0) ≡ false = ground (arith, pos) in
    rw (nonzero, trailing_zeros-value_at 64 i k h, e) refl

change_in :
    (f : Bool → Bool) (i : ℕ) (bits : Bits)
    → i < length bits
    → (bs : Bits) × (change f i bits ≡ some bs)
unfolding change
change_in f i [] h = absurd (omega arith)
change_in f zero (c ∷ bits) h = (f c ∷ bits, refl)
change_in f (suc i) (c ∷ bits) h =
    let (bs, d) = change_in f i bits (omega arith) in (c ∷ bs, rw d refl)

-- A change at a position that is there, and what it leaves at another or at the same.
change_at :
    (f : Bool → Bool) (i j : ℕ) (bits : Bits) (b : Bool)
    → i < length bits
    → get_elem? bits j ≡ some b
    → (bs : Bits) × (change f i bits ≡ some bs)
      × (get_elem? bs j ≡ some (if i == j then f b else b))
unfolding change
change_at f i j [] b h e = absurd (omega arith)
change_at f zero zero (c ∷ bits) b h e = (f c ∷ bits, refl, cc)
change_at f zero (suc j) (c ∷ bits) b h e = (f c ∷ bits, refl, ground (arith, e))
change_at f (suc i) zero (c ∷ bits) b h e =
    let (bs, d) = change_in f i bits (omega arith) in (c ∷ bs, rw d refl, ground (arith, e))
change_at f (suc i) (suc j) (c ∷ bits) b h e =
    let (bs, d, g) = change_at f i j bits b (omega arith) e in
    let same : (suc i == suc j) ≡ (i == j) = ground arith in (c ∷ bs, rw d refl, rw same g)

-- What a test of `e` finds in what an operation leaves.
abbrev pub test_after : ℕ → Outcome Bits (Unit {0}) → Outcome Bits Bool
test_after e (returned _ bits) = test e bits
test_after e (thrown f bits) = thrown f bits

abbrev pub verdict : Outcome Bits Bool → Option Bool
verdict (returned b bits) = some b
verdict (thrown f bits) = none

-- set, reset and flip of a value, whose lowest bit is bit `i`, act on that bit alone, whatever its
-- other bits: a later test of a value with the lowest bit `j` finds the new bit if `j` is `i`, and
-- else the bit that was there.
pub test-changed :
    (i j k l : ℕ) (bits : Bits) (b v : Bool)
    → i < length bits
    → length bits ≤ 64
    → get_elem? bits j ≡ some b
    → j < length bits
    → (verdict (test_after (value_at j l) (set (value_at i k) v bits))
        ≡ some (if i == j then v else b))
      × (verdict (test_after (value_at j l) (reset (value_at i k) bits))
          ≡ some (if i == j then false else b))
      × (verdict (test_after (value_at j l) (flip (value_at i k) bits))
          ≡ some (if i == j then not b else b))
unfolding set reset flip
test-changed i j k l bits b v h w e m = (one (λ _. v), one (λ _. false), one not)
  where
    one :
        (f : Bool → Bool)
        → verdict (test_after (value_at j l) (at_value f (value_at i k) bits))
          ≡ some (if i == j then f b else b)
    one f =
        let (bs, d, g) = change_at f i j bits b h e in
        rw (at_value-position f i k bits (omega arith), d)
          (rw (test-position j l bs (if i == j then f b else b) (omega arith) g) refl)

abbrev pub AllBelow : ℕ → List ℕ → Type 0
AllBelow m [] = Unit
AllBelow m (v ∷ vs) = (v < m) × AllBelow m vs

or_from-below : (n r : ℕ) (vs : List ℕ) → r < 2 ^ n → AllBelow (2 ^ n) vs → or_from r vs < 2 ^ n
unfolding or_from
or_from-below n r [] p h = p
or_from-below n r (v ∷ vs) p h = or_from-below n (bit_or r v) vs (bit_or-lt_pow n r v p h.0) h.1

get_elem?-of_number : (n v i : ℕ) → i < n → get_elem? (of_number n v) i ≡ some (bit i v)
unfolding of_number
get_elem?-of_number zero v i h = absurd (omega arith)
get_elem?-of_number (suc n) v zero h = refl
get_elem?-of_number (suc n) v (suc i) h = get_elem?-of_number n (v / 2) i (omega arith)

bit-or_from : (i r : ℕ) (vs : List ℕ) → bit i (or_from r vs) ≡ bit i r || any_has i vs
unfolding or_from
bit-or_from i r [] = ground arith
bit-or_from i r (v ∷ vs) = ground (arith, bit-or_from i (bit_or r v) vs, bit-or i r v)

-- A set of `n` bits built from values that each fit its width has exactly the bits that some of the
-- values have, and stands for the values or-ed together: no bit is lost by the width.
pub of_values_bits :
    (n i : ℕ) (vs : List ℕ)
    → AllBelow (2 ^ n) vs
    → i < n
    → (get_elem? (of_values n vs) i ≡ some (any_has i vs))
      × (to_underlying (of_values n vs) ≡ or_all vs)
unfolding of_values or_all
of_values_bits n i vs below h = (
  get_elem?-of_number n (or_all vs) i h ∙ ap some (ground (arith, bit-or_from i 0 vs, bit-zero i)),
  to_underlying-of_number n (or_all vs) (or_from-below n 0 vs (pow-pos n) below),
)
