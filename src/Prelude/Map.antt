-- ===== src/Prelude/Map.antt =====
-- `std::map` and `std::unordered_map` as association lists over a key with decidable equality.
use Prim.Native.Nat.{ℕ, ◌+◌, ◌-◌}
use mathlib.Core.Path.{◌≡◌, refl, sym, ◌∙◌}
use mathlib.Core.Logic.{◌≢◌, ite, if_pos, if_neg}
use mathlib.Core.List.{List, [], ◌∷◌}
use mathlib.Core.Option.{Option, none, some}
use native.Mathlib.Omega.{arith}
use native.Mathlib.Decide.{ℕ_discrete}
use cpp_framework.Prelude.Lists.{Text}

-- A type of keys.
pub record Key {ℓ} (K : Type ℓ) : Type ℓ where
  pub key_eq : Discrete K

abbrev pub or_else {ℓ} : {A : Type ℓ} → Option A → Option A → Option A
or_else none b = b
or_else (some a) b = some a

module _ {ℓ} {K : Type ℓ} ⦃key : Key K⦄ {V : Type ℓ} where
  unfoldable pub find : K → List (K × V) → Option V
  find k [] = none
  find k ((j, v) ∷ m) = ite (key.key_eq j k) (some v) (find k m)

  -- `emplace` and `operator[]`: an entry that is there stays.
  unfoldable pub emplace : K → V → List (K × V) → List (K × V)
  emplace k v [] = (k, v) ∷ []
  emplace k v ((j, w) ∷ m) = ite (key.key_eq j k) ((j, w) ∷ m) ((j, w) ∷ emplace k v m)

  unfoldable pub insert_or_assign : K → V → List (K × V) → List (K × V)
  insert_or_assign k v [] = (k, v) ∷ []
  insert_or_assign k v ((j, w) ∷ m) =
      ite (key.key_eq j k) ((j, v) ∷ m) ((j, w) ∷ insert_or_assign k v m)

  unfoldable pub erase : K → List (K × V) → List (K × V)
  erase k [] = []
  erase k ((j, w) ∷ m) = ite (key.key_eq j k) (erase k m) ((j, w) ∷ erase k m)

  pub find-insert_or_assign :
      (k j : K) (v : V) (m : List (K × V))
      → find j (insert_or_assign k v m) ≡ ite (key.key_eq k j) (some v) (find j m)
  unfolding find insert_or_assign
  find-insert_or_assign k j v [] = refl
  find-insert_or_assign k j v ((i, w) ∷ m) = ground (arith, find-insert_or_assign k j v m)

  -- An entry that is there stays; otherwise the new one is found at its key.
  pub find-emplace :
      (k j : K) (v : V) (m : List (K × V))
      → find j (emplace k v m) ≡ or_else (find j m) (ite (key.key_eq k j) (some v) none)
  unfolding find emplace
  find-emplace k j v [] = refl
  find-emplace k j v ((i, u) ∷ m) = ground (arith, find-emplace k j v m)

  pub find-erase :
      (k j : K) (m : List (K × V)) → find j (erase k m) ≡ ite (key.key_eq k j) none (find j m)
  unfolding find erase
  find-erase k j [] = ground arith
  find-erase k j ((i, w) ∷ m) = ground (arith, find-erase k j m)

  abbrev pub keys : List (K × V) → List K
  keys [] = []
  keys ((k, v) ∷ m) = k ∷ keys m

module _ {K : Type 0} ⦃key : Key K⦄ where
  -- How often a key stands in a list.
  unfoldable pub times : K → List K → ℕ
  times k [] = 0
  times k (j ∷ js) = ite (key.key_eq j k) 1 0 + times k js

  same_counts :
      {j n k : K} (d : Dec (j ≡ k)) (c : Dec (n ≡ k)) (t : ℕ)
      → j ≡ n
      → ite d 1 0 + t ≡ ite c (1 + (ite d 1 0 + t - 1)) (ite d 1 0 + t)
  same_counts (yes p) (yes q) t e = omega arith
  same_counts (yes p) (no q) t e = refl
  same_counts (no p) (yes q) t e = absurd (p (e ∙ q))
  same_counts (no p) (no q) t e = refl

  other_counts :
      {j n k : K} (d : Dec (j ≡ k)) (c : Dec (n ≡ k)) (t : ℕ)
      → j ≢ n
      → ite d 1 0 + ite c (1 + (t - 1)) t ≡ ite c (1 + (ite d 1 0 + t - 1)) (ite d 1 0 + t)
  other_counts (yes p) (yes q) t e = absurd (e (p ∙ sym q))
  other_counts (yes p) (no q) t e = refl
  other_counts (no p) (yes q) t e = omega arith
  other_counts (no p) (no q) t e = refl

  pub times-insert_or_assign :
      {V : Type 0} (k n : K) (v : V) (m : List (K × V))
      → times k (keys (insert_or_assign n v m))
        ≡ ite (key.key_eq n k) (1 + (times k (keys m) - 1)) (times k (keys m))
  unfolding times insert_or_assign
  times-insert_or_assign k n v [] = ground arith
  times-insert_or_assign k n v ((j, w) ∷ m) = elim (key.key_eq j n) [
    | yes e ↦
        let t = times k (keys m) in
        let head : insert_or_assign n v ((j, w) ∷ m) ≡ (j, v) ∷ m = if_pos (key.key_eq j n) e _ _ in
        rw head (same_counts (key.key_eq j k) (key.key_eq n k) t e)
    | no e ↦
        let head : insert_or_assign n v ((j, w) ∷ m) ≡ (j, w) ∷ insert_or_assign n v m =
          if_neg (key.key_eq j n) e _ _ in
        rw (head, times-insert_or_assign k n v m)
          (other_counts (key.key_eq j k) (key.key_eq n k) (times k (keys m)) e)
  ]

  pub times-erase :
      {V : Type 0} (k n : K) (m : List (K × V))
      → times k (keys (erase n m)) ≡ ite (key.key_eq n k) 0 (times k (keys m))
  unfolding times erase
  times-erase k n [] = ground arith
  times-erase k n ((j, w) ∷ m) = ground (arith, times-erase k n m)

-- Texts as keys.
abbrev pub Text-discrete : Discrete Text
Text-discrete [] [] = yes refl
Text-discrete [] (y ∷ ys) = no (λ e. cc)
Text-discrete (x ∷ xs) [] = no (λ e. cc)
Text-discrete (x ∷ xs) (y ∷ ys) =
    let rest = Text-discrete xs ys in
    elim (ℕ_discrete x y) [
      | no n ↦ no (λ e. n cc)
      | yes p ↦ elim rest [ no n ↦ no (λ e. n cc) | yes q ↦ yes cc ]
    ]

instance abbrev pub text_key : Key Text
text_key = record { key_eq = Text-discrete }
