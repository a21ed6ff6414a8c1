-- ===== src/Templates/EnumOperations.antt =====
-- include/Templates/EnumCast.hpp and include/Templates/EnumOperations.hpp: the bit operators of an
-- enumeration over an unsigned type of `w` bits, on which C++ computes with `p` bits, its own width
-- or that of `unsigned int`. A value of the enumeration is its number.
pub mod Laws
use Prim.Native.Nat.{bit_and, bit_or, bit_xor}
use cpp_framework.Prelude.{ℕ, ◌-◌, ◌%◌, ◌^◌}

-- `static_cast` to the enumeration, behind the conversion to its underlying type.
unfoldable pub to_enum : ℕ → ℕ → ℕ
to_enum w value = value % 2 ^ w

unfoldable pub to_underlying : ℕ → ℕ
to_underlying value = value

-- `~` on the type of the computation.
unfoldable pub complement : ℕ → ℕ → ℕ
complement p x = 2 ^ p - 1 - x

unfoldable pub bitwise_and : ℕ → ℕ → ℕ → ℕ
unfolding to_enum to_underlying
bitwise_and w lhs rhs = to_enum w (bit_and (to_underlying lhs) (to_underlying rhs))

unfoldable pub bitwise_or : ℕ → ℕ → ℕ → ℕ
unfolding to_enum to_underlying
bitwise_or w lhs rhs = to_enum w (bit_or (to_underlying lhs) (to_underlying rhs))

unfoldable pub bitwise_xor : ℕ → ℕ → ℕ → ℕ
unfolding to_enum to_underlying
bitwise_xor w lhs rhs = to_enum w (bit_xor (to_underlying lhs) (to_underlying rhs))

unfoldable pub bitwise_not : ℕ → ℕ → ℕ → ℕ
unfolding to_enum to_underlying complement
bitwise_not w p value = to_enum w (complement p (to_underlying value))

-- The compound assignments: the new value of `lhs`, to which they return a reference.
unfoldable pub and_assign : ℕ → ℕ → ℕ → ℕ
unfolding to_enum to_underlying
and_assign w lhs rhs = to_enum w (bit_and (to_underlying lhs) (to_underlying rhs))

unfoldable pub or_assign : ℕ → ℕ → ℕ → ℕ
unfolding to_enum to_underlying
or_assign w lhs rhs = to_enum w (bit_or (to_underlying lhs) (to_underlying rhs))

unfoldable pub xor_assign : ℕ → ℕ → ℕ → ℕ
unfolding to_enum to_underlying
xor_assign w lhs rhs = to_enum w (bit_xor (to_underlying lhs) (to_underlying rhs))
