-- ===== src/Error/Outcome.antt =====
-- Code with effects on a world `W`, which returns or throws.
use cpp_framework.Prelude.{◌≡◌, refl, ◌⊎◌, inl, inr, ℕ}
use cpp_framework.Error.{Exception}

-- What is thrown: `std::out_of_range`, a `Framework::Exception`, or anything else, by a number.
pub data Fault : Type 0 where
  std_out_of_range : Fault
  framework : Exception → Fault
  foreign : ℕ → Fault

pub data Outcome (W A : Type 0) : Type 0 where
  returned : A → W → Outcome W A
  thrown : Fault → W → Outcome W A

abbrev pub M : Type 0 → Type 0 → Type 0
M W A = W → Outcome W A

module _ {W : Type 0} where
  abbrev pub pure : {A : Type 0} → A → M W A
  pure a w = returned a w

  abbrev pub throw : {A : Type 0} → Fault → M W A
  throw f w = thrown f w

  abbrev pub and_then : {A B : Type 0} → Outcome W A → (A → M W B) → Outcome W B
  and_then (returned a w) k = k a w
  and_then (thrown f w) k = thrown f w

  infixl 5 ◌>>=◌ ◌>>◌
  abbrev pub ◌>>=◌ : {A B : Type 0} → M W A → (A → M W B) → M W B
  ◌>>=◌ m k w = and_then (m w) k

  abbrev pub ◌>>◌ : {B : Type 0} → M W (Unit {0}) → M W B → M W B
  ◌>>◌ m k w = and_then (m w) (λ _. k)

  -- `try { m } catch (const std::out_of_range &) { throw e; }`.
  abbrev pub rethrow_out_of_range : {A : Type 0} → Exception → Outcome W A → Outcome W A
  rethrow_out_of_range e (returned a w) = returned a w
  rethrow_out_of_range e (thrown std_out_of_range w) = thrown (framework e) w
  rethrow_out_of_range e (thrown (framework x) w) = thrown (framework x) w
  rethrow_out_of_range e (thrown (foreign n) w) = thrown (foreign n) w

  -- The world that an outcome leaves.
  abbrev pub world_of : {A : Type 0} → Outcome W A → W
  world_of (returned a w) = w
  world_of (thrown f w) = w

  pub Outcome-cases :
      {A : Type 0} (o : Outcome W A)
      → ((a : A) × (w : W) × (o ≡ returned a w)) ⊎ ((f : Fault) × (w : W) × (o ≡ thrown f w))
  Outcome-cases (returned a w) = inl (a, w, refl)
  Outcome-cases (thrown f w) = inr (f, w, refl)
