-- ===== src/Tests/Bitsets.antt =====
-- A set of four bits, and the value 6, which has two bits; the operators on 6 and 12.
use cpp_framework.Prelude.{◌≡◌, refl, text, ◌<◌, ◌^◌, true, false, some, [], ◌∷◌, arith, get_elem?}
use cpp_framework.Error.Outcome.{returned, thrown, std_out_of_range}
use cpp_framework.Templates.EnumBitset.{
  Bits, new_bitset, of_number, of_values, or_all, or_from, to_underlying, set, reset, flip,
  at_value, change, to_bit_position, trailing_zeros, to_string, and_assign, or_assign, xor_assign,
  flip_all,
}
use cpp_framework.Templates.EnumBitset.Laws.{
  value_at, test_after, verdict, test-changed, of_values_bits,
}
use cpp_framework.Templates.EnumBitset.Numbers.{operators_agree}
use cpp_framework.Templates.EnumOperations.{
  bitwise_and, bitwise_or, bitwise_xor, bitwise_not, to_enum, complement,
}
use cpp_framework.Prelude.Bits.{bit}
use cpp_framework.Templates.EnumOperations.Laws.{operators_bitwise}

-- `set` of 6 sets one bit, where the constructor sets both.
one_bit : set 6 true (new_bitset 4) ≡ returned tt (false ∷ true ∷ false ∷ false ∷ [])
unfolding set at_value change to_bit_position trailing_zeros new_bitset of_number
one_bit = refl

both_bits : of_values 4 (6 ∷ []) ≡ false ∷ true ∷ true ∷ false ∷ []
unfolding of_values of_number or_all or_from
both_bits = refl

too_high : set 16 true (new_bitset 4) ≡ thrown std_out_of_range (new_bitset 4)
unfolding set at_value change to_bit_position trailing_zeros new_bitset of_number
too_high = refl

abbrev some_bits : Bits
some_bits = false ∷ false ∷ true ∷ true ∷ []

test-changed_example :
    (verdict (test_after (value_at 2 0) (set (value_at 1 1) true some_bits)) ≡ some true)
    × (verdict (test_after (value_at 2 0) (reset (value_at 1 1) some_bits)) ≡ some true)
    × (verdict (test_after (value_at 2 0) (flip (value_at 1 1) some_bits)) ≡ some true)
test-changed_example =
    test-changed 1 2 1 0 some_bits true true (omega arith) (omega arith) refl (omega arith)

of_values_bits_example :
    (get_elem? (of_values 4 (6 ∷ 1 ∷ [])) 2 ≡ some true)
    × (to_underlying (of_values 4 (6 ∷ 1 ∷ [])) ≡ or_all (6 ∷ 1 ∷ []))
of_values_bits_example =
    of_values_bits 4 2 (6 ∷ 1 ∷ []) (omega arith, (omega arith, tt)) (omega arith)

abbrev other_bits : Bits
other_bits = false ∷ true ∷ true ∷ false ∷ []

-- The sets for 12 and 6.
operators_agree_example :
    (to_underlying (and_assign some_bits other_bits)
      ≡ bitwise_and 4 (to_underlying some_bits) (to_underlying other_bits))
    × (to_underlying (or_assign some_bits other_bits)
        ≡ bitwise_or 4 (to_underlying some_bits) (to_underlying other_bits))
    × (to_underlying (xor_assign some_bits other_bits)
        ≡ bitwise_xor 4 (to_underlying some_bits) (to_underlying other_bits))
    × (to_underlying (flip_all some_bits) ≡ bitwise_not 4 32 (to_underlying some_bits))
operators_agree_example = operators_agree 32 some_bits other_bits refl (omega arith)

-- Bit 2 of the operators on 6 and 12, as values of an enumeration over eight bits.
operators_bitwise_example :
    (bit 2 (bitwise_and 8 6 12) ≡ true)
    × (bit 2 (bitwise_or 8 6 12) ≡ true)
    × (bit 2 (bitwise_xor 8 6 12) ≡ false)
    × (bit 2 (bitwise_not 8 32 6) ≡ false)
    × (bitwise_and 8 6 12 < 2 ^ 8)
    × (bitwise_or 8 6 12 < 2 ^ 8)
    × (bitwise_xor 8 6 12 < 2 ^ 8)
    × (bitwise_not 8 32 6 < 2 ^ 8)
operators_bitwise_example = operators_bitwise 8 32 2 6 12 (omega arith) (omega arith) (omega arith)

not_narrowed : bitwise_not 8 32 6 ≡ 249
unfolding bitwise_not to_enum complement
not_narrowed = refl

printed : to_string (of_values 4 (6 ∷ [])) ≡ text "0110"
unfolding to_string of_values of_number or_all or_from
printed = refl
