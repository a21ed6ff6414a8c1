-- ===== src/Error/Laws.antt =====
-- Exceptions: what the message tells, and what the context gives back.
use mathlib.Core.List.{append_cancel_left}
use cpp_framework.Prelude.{
  ℕ, ◌≡◌, ◌≢◌, refl, none, some, Text, text, arith, ite, ℕ_discrete, ◌++◌, true, false,
}
use cpp_framework.Error.{
  Code, code_text, new_exception, new_exception_with, build_error_message, get_code, has_context,
  get_context, Boxed,
}

abbrev tagged : Code → Text
tagged c = text " (Error Code: " ++ (code_text c ++ text ")")

tagged-injective : (c d : Code) → tagged c ≡ tagged d → c ≡ d
unfolding code_text
tagged-injective c d h = ground arith

-- Two exceptions with the same message and different codes have different `what()`.
pub code_of_message :
    (m : Text) (c d : Code) → c ≢ d → (new_exception m c).what ≢ (new_exception m d).what
unfolding new_exception build_error_message
code_of_message m c d differ h =
    differ (tagged-injective c d (append_cancel_left m (tagged c) (tagged d) h))

-- An exception built with a context gives the stored value back at the stored type, nothing at any
-- other type and nothing from an empty `std::any`, and has a context in each case; one built
-- without has none and gives nothing. Each keeps its code.
pub context_laws :
    (m : Text) (c : Code) (t u v : ℕ)
    → let boxed : Boxed = record { type_id = u; value = v } in
      (get_context t (new_exception_with m c (some boxed)) ≡ ite (ℕ_discrete u t) (some v) none)
      × (get_context t (new_exception_with m c none) ≡ none)
      × (has_context (new_exception_with m c (some boxed)) ≡ true)
      × (has_context (new_exception_with m c none) ≡ true)
      × (get_context t (new_exception m c) ≡ none)
      × (has_context (new_exception m c) ≡ false)
      × (get_code (new_exception_with m c (some boxed)) ≡ c)
      × (get_code (new_exception m c) ≡ c)
unfolding get_context new_exception_with new_exception has_context get_code
context_laws m c t u v = (refl, refl, refl, refl, refl, refl, refl, refl)
