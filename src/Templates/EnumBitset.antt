-- ===== src/Templates/EnumBitset.antt =====
-- include/Templates/EnumBitset.hpp: a set of `MaxBits` bits, lowest first, addressed by values of an
-- enumeration, which are numbers of at most 64 bits.
pub mod Laws
pub mod Numbers
use Prim.Native.Nat.{bit_or}
use cpp_framework.Prelude.{
  ℕ, zero, suc, ◌+◌, ◌*◌, ◌/◌, ◌%◌, ◌==◌, Bool, true, false, not, ◌&&◌, ◌||◌, Option, none, some,
  List, [], ◌∷◌, map, length, get_elem?, if◌then◌else◌, Text, text, ◌++◌,
}
use cpp_framework.Error.Outcome.{M, Outcome, returned, thrown, std_out_of_range}

abbrev pub Bits : Type 0
Bits = List Bool

-- `std::bitset<n>(value)` and `to_ullong`.
unfoldable pub of_number : ℕ → ℕ → Bits
of_number zero v = []
of_number (suc n) v = (v % 2 == 1) ∷ of_number n (v / 2)

unfoldable pub to_underlying : Bits → ℕ
to_underlying [] = 0
to_underlying (b ∷ bits) = (if b then 1 else 0) + 2 * to_underlying bits

-- The loop of `or_all`, from the result so far.
unfoldable pub or_from : ℕ → List ℕ → ℕ
or_from result [] = result
or_from result (value ∷ init) = or_from (bit_or result value) init

unfoldable pub or_all : List ℕ → ℕ
unfolding or_from
or_all init = or_from 0 init

unfoldable pub new_bitset : ℕ → Bits
unfolding of_number
new_bitset max_bits = of_number max_bits 0

-- The constructors from values and from one value.
unfoldable pub of_values : ℕ → List ℕ → Bits
unfolding of_number or_all
of_values max_bits init = of_number max_bits (or_all init)

-- `__builtin_ctzll`: how many zero bits a number that is not 0 has below its lowest one.
unfoldable pub trailing_zeros : ℕ → ℕ → ℕ
trailing_zeros zero v = 0
trailing_zeros (suc fuel) v =
    let rest = trailing_zeros fuel (v / 2) in if v % 2 == 1 then 0 else suc rest

unfoldable pub to_bit_position : ℕ → ℕ
unfolding trailing_zeros
to_bit_position value = trailing_zeros 64 value

-- A bit changed in place; `none` for a position behind the end.
unfoldable pub change : (Bool → Bool) → ℕ → Bits → Option Bits
change f i [] = none
change f zero (b ∷ bits) = some (f b ∷ bits)
change f (suc i) (b ∷ bits) = elim (change f i bits) [ none ↦ none | some bs ↦ some (b ∷ bs) ]

-- The operations of `std::bitset` on one bit, which throw for a position that it does not have.
abbrev pub in_range : Bits → Option Bits → Outcome Bits (Unit {0})
in_range bits none = thrown std_out_of_range bits
in_range bits (some bs) = returned tt bs

unfoldable pub at_value : (Bool → Bool) → ℕ → M Bits (Unit {0})
unfolding change to_bit_position
at_value f e bits =
    if e == 0 then returned tt bits else in_range bits (change f (to_bit_position e) bits)

unfoldable pub set : ℕ → Bool → M Bits (Unit {0})
unfolding at_value
set e value = at_value (λ _. value) e

unfoldable pub reset : ℕ → M Bits (Unit {0})
unfolding at_value
reset e = at_value (λ _. false) e

unfoldable pub flip : ℕ → M Bits (Unit {0})
unfolding at_value
flip e = at_value not e

unfoldable pub test : ℕ → M Bits Bool
unfolding to_bit_position
test e bits = if e == 0 then returned false bits else elim (get_elem? bits (to_bit_position e)) [
  | none ↦ thrown std_out_of_range bits
  | some b ↦ returned b bits
]

unfoldable pub set_all : Bits → Bits
set_all bits = map (λ _. true) bits

unfoldable pub reset_all : Bits → Bits
reset_all bits = map (λ _. false) bits

unfoldable pub flip_all : Bits → Bits
flip_all bits = map not bits

unfoldable pub count : Bits → ℕ
count [] = 0
count (b ∷ bits) = (if b then 1 else 0) + count bits

unfoldable pub all : Bits → Bool
all [] = true
all (b ∷ bits) = b && all bits

unfoldable pub any : Bits → Bool
any [] = false
any (b ∷ bits) = b || any bits

unfoldable pub no_bits : Bits → Bool
unfolding any
no_bits bits = not (any bits)

-- `&=`, `|=` and `^=` bit by bit, on sets of one width.
unfoldable pub zip_bits : (Bool → Bool → Bool) → Bits → Bits → Bits
zip_bits f [] others = []
zip_bits f (b ∷ bits) [] = []
zip_bits f (b ∷ bits) (c ∷ others) = f b c ∷ zip_bits f bits others

unfoldable pub and_assign : Bits → Bits → Bits
unfolding zip_bits
and_assign = zip_bits (λ b c. b && c)

unfoldable pub or_assign : Bits → Bits → Bits
unfolding zip_bits
or_assign = zip_bits (λ b c. b || c)

unfoldable pub xor_assign : Bits → Bits → Bits
unfolding zip_bits
xor_assign = zip_bits (λ b c. if b then not c else c)

unfoldable pub equals : Bits → Bits → Bool
equals [] [] = true
equals [] (c ∷ others) = false
equals (b ∷ bits) [] = false
equals (b ∷ bits) (c ∷ others) = (if b then c else not c) && equals bits others

unfoldable pub not_equals : Bits → Bits → Bool
unfolding equals
not_equals bits others = not (equals bits others)

-- `operator[]`, which does not check its position: outside there is no defined value.
unfoldable pub at_position : ℕ → Bits → Option Bool
at_position position bits = get_elem? bits position

-- The value of the enumeration that a set stands for.
unfoldable pub to_enum : Bits → ℕ
unfolding to_underlying
to_enum bits = to_underlying bits

-- `test` at a position.
unfoldable pub test_position : ℕ → M Bits Bool
test_position position bits = elim (get_elem? bits position) [
  | none ↦ thrown std_out_of_range bits
  | some b ↦ returned b bits
]

-- `std::bitset::to_string`: the highest bit first.
unfoldable pub to_string : Bits → Text
to_string [] = []
to_string (b ∷ bits) = to_string bits ++ (if b then text "1" else text "0")
