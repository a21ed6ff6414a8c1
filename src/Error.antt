-- ===== src/Error.antt =====
-- include/Exception/Error.hpp, include/Exception/Exception.hpp, lib/Exception/Exception.cpp and
-- lib/Exception/SystemException.cpp: error codes, exceptions, and code that may throw.
pub mod Laws
pub mod Outcome
use cpp_framework.Prelude.{
  ℕ, ◌+◌, ◌/◌, ◌%◌, ◌<◌, Bool, true, false, Option, none, some, List, [], ◌∷◌, ◌++◌, Text, text,
  is_some, ite, ℕ_discrete, if◌then◌else◌, ltb, zero, suc,
}

pub data Code : Type 0 where
  unknown success out_of_range invalid_argument type_mismatch invalid_operation system_error : Code

-- `std::to_string` of a number below `fuel`, by decimal digits.
digits_of : ℕ → ℕ → Text
digits_of zero n = []
digits_of (suc fuel) n =
    let more = digits_of fuel (n / 10) in
    if ltb n 10 then (n + b'0') ∷ [] else more ++ (n % 10 + b'0') ∷ []

-- `std::to_string(static_cast<int>(code))`; only `Unknown` is negative.
unfoldable pub code_text : Code → Text
unfolding digits_of
code_text unknown = text "-1"
code_text success = digits_of 2 0
code_text out_of_range = digits_of 2 1
code_text invalid_argument = digits_of 2 2
code_text type_mismatch = digits_of 2 3
code_text invalid_operation = digits_of 2 4
code_text system_error = digits_of 2 5

-- The content of a non-empty `std::any`: the identity of its type, and the value as a number.
pub record Boxed : Type 0 where
  pub type_id : ℕ
  pub value : ℕ

-- `std::any`, which may be empty.
abbrev pub Any : Type 0
Any = Option Boxed

-- `std::any_cast<T>(&a)` for the type with identity `t`: a value, or the null pointer.
unfoldable pub any_cast : ℕ → Any → Option ℕ
any_cast t none = none
any_cast t (some b) = ite (ℕ_discrete b.type_id t) (some b.value) none

pub record Exception : Type 0 where
  pub what : Text
  pub code : Code
  pub context : Option Any

unfoldable pub build_error_message : Text → Code → Text
unfolding code_text
build_error_message message code =
    message ++ (text " (Error Code: " ++ (code_text code ++ text ")"))

-- `Exception(message, code)`.
unfoldable pub new_exception : Text → Code → Exception
unfolding build_error_message
new_exception message code = record {
  what = build_error_message message code;
  code = code;
  context = none;
}

-- `Exception(message, code, context)`.
unfoldable pub new_exception_with : Text → Code → Any → Exception
unfolding build_error_message
new_exception_with message code context = record {
  what = build_error_message message code;
  code = code;
  context = some context;
}

unfoldable pub get_code : Exception → Code
get_code e = e.code

unfoldable pub has_context : Exception → Bool
has_context e = is_some e.context

context_as : ℕ → Option Any → Option ℕ
unfolding any_cast
context_as t none = none
context_as t (some a) = any_cast t a

unfoldable pub get_context : ℕ → Exception → Option ℕ
unfolding context_as
get_context t e = context_as t e.context

pub record SystemException : Type 0 where
  pub exception : Exception
  pub errno_code : ℕ

unfoldable pub new_system_exception : Text → ℕ → Code → SystemException
unfolding new_exception
new_system_exception message errno code = record {
  exception = new_exception message code;
  errno_code = errno;
}

-- `strerror_r` on a buffer of 256 bytes, as the text that it leaves when it returns 0.
unfoldable pub errno_message : (ℕ → Option Text) → SystemException → Text
errno_message strerror e = elim (strerror e.errno_code) [ none ↦ text "Unknown error" | some m ↦ m ]
