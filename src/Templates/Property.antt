-- ===== src/Templates/Property.antt =====
-- include/Templates/Property.hpp: properties over a variable (`ReferenceProperty`) and over a pair
-- of functions (`Property`). A reference is the place of a variable in a store; getters and setters
-- are code of the user.
pub mod Binding
use cpp_framework.Prelude.{ℕ, ◌==◌, if◌then◌else◌}
use cpp_framework.Error.Outcome.{M}

-- The variables of a type, by their places.
abbrev pub Store : Type 0 → Type 0
Store T = ℕ → T

-- An assignment to the variable at a place.
unfoldable pub write : {T : Type 0} → ℕ → T → Store T → Store T
write place value s other = if other == place then value else s other

-- `DefaultGetter` and `DefaultSetter`: what a read gives for the value of the variable, and what a
-- write makes of it, from its old value and the new one.
unfoldable pub default_get : {T : Type 0} → T → T
default_get value = value

unfoldable pub default_set : {T : Type 0} → T → T → T
default_set value new_value = new_value

-- `ReferenceProperty::ReadOnly`, `Writable` and `FunctionSetter`.
pub record ReadOnly : Type 0 where
  pub value : ℕ

pub record Writable : Type 0 where
  pub read_only : ReadOnly
  pub mutable_ref : ℕ

pub record FunctionSetter : Type 0 where
  pub value : ℕ

unfoldable pub new_read_only : ℕ → ReadOnly
new_read_only place = record { value = place }

unfoldable pub new_writable : ℕ → Writable
unfolding new_read_only
new_writable place = record { read_only = new_read_only place; mutable_ref = place }

-- The conversion of a property to its value.
unfoldable pub read : {T R : Type 0} → (T → R) → ReadOnly → Store T → R
read get p s = get (s p.value)

-- `operator=` from a value.
unfoldable pub assign : {T : Type 0} → (T → T → T) → Writable → T → Store T → Store T
unfolding write
assign set p value s = write p.mutable_ref (set (s p.mutable_ref) value) s

-- The implicit `operator=` from a property: both references are set anew.
unfoldable pub rebind : Writable → Writable → Writable
rebind target source = record { read_only = source.read_only; mutable_ref = source.mutable_ref }

-- `operator=` of a property that holds a function.
unfoldable pub assign_function : {F : Type 0} → FunctionSetter → F → Store F → Store F
unfolding write
assign_function p f s = write p.value f s

-- `Property<T>::ReadOnly` and `Writable`, whose functions act on a world.
pub record Getting (T W : Type 0) : Type 0 where
  pub getter : M W T

pub record Accessing (T W : Type 0) : Type 0 where
  pub getting : Getting T W
  pub setter : T → M W (Unit {0})

unfoldable pub get_value : {T W : Type 0} → Getting T W → M W T
get_value p = p.getter

unfoldable pub set_value : {T W : Type 0} → Accessing T W → T → M W (Unit {0})
set_value p value = p.setter value
