-- ===== src/Task/Request.antt =====
-- include/Task/EventRequest.hpp: a request with a sender, a command and an optional payload.
use cpp_framework.Prelude.{
  ℕ, ◌≡◌, ◌↔◌, refl, Bool, true, false, Option, none, some, Text, arith, is_some, if◌then◌else◌,
  ◌==◌, List, get_elem?, set,
}
use cpp_framework.Error.{Any, any_cast}

-- The command is a template parameter; `std::string` and `std::any` are as in the error types.
pub record Request (C : Type 0) : Type 0 where
  pub from : Text
  pub command : C
  pub payload : Any

module _ {C : Type 0} where
  unfoldable pub new_request : Text → C → Any → Request C
  new_request from command payload = record { from = from; command = command; payload = payload }

  -- The constructor with no payload.
  unfoldable pub new_request_empty : Text → C → Request C
  new_request_empty from command = record { from = from; command = command; payload = none }

  unfoldable pub has_payload : Request C → Bool
  has_payload r = is_some r.payload

  unfoldable pub get_payload_as : ℕ → Request C → Option ℕ
  get_payload_as t r = any_cast t r.payload

  -- The copy constructor.
  unfoldable pub copy : Request C → Request C
  unfolding has_payload
  copy other = record {
    from = other.from;
    command = other.command;
    payload = if has_payload other then other.payload else none;
  }

  -- The move constructor, as the object that it builds.
  unfoldable pub move : Request C → Request C
  move other = record { from = other.from; command = other.command; payload = other.payload }

  -- `*this = other` for two distinct objects, copying.
  unfoldable pub assign_copy : Request C → Request C → Request C
  unfolding has_payload
  assign_copy this other = record {
    from = other.from;
    command = other.command;
    payload = if has_payload other then other.payload else this.payload;
  }

  -- `*this = std::move(other)` for two distinct objects.
  unfoldable pub assign_move : Request C → Request C → Request C
  assign_move this other = record {
    from = other.from;
    command = other.command;
    payload = other.payload;
  }

  -- Assignment between the objects at two addresses of a store, with the test `this != &other`.
  unfoldable pub assign_copy_at : List (Request C) → ℕ → ℕ → List (Request C)
  unfolding assign_copy
  assign_copy_at store this other = if this == other then store else elim (get_elem? store this) [
    | none ↦ store
    | some t ↦ elim (get_elem? store other) [
      | none ↦ store
      | some o ↦ set store this (assign_copy t o)
    ]
  ]

  -- The copy and move constructors and move assignment give an equal request; copy assignment does
  -- exactly when it does not find a payload in the target and none in the source: it then leaves
  -- the target's old payload in place.
  pub assign_copy_exact :
      (this other : Request C)
      → (copy other ≡ other)
        × (move other ≡ other)
        × (assign_move this other ≡ other)
        × ((assign_copy this other ≡ other)
            ↔ ¬ ((has_payload this ≡ true) × (has_payload other ≡ false)))
  unfolding copy move assign_move assign_copy has_payload
  assign_copy_exact this other =
      (copy_lem, refl, refl, (λ e (h, k). ground arith, λ n. ground arith))
    where
      copy_lem : copy other ≡ other
      copy_lem = ground arith
