-- ===== src/Sync/EventFlag/Ends.antt =====
-- When a wait of lib/Sync/EventFlag.cpp can end, by the bits that calls of `set` have given.
use Prim.Native.Nat.{bit_and}
use cpp_framework.Prelude.{
  ℕ, ◌+◌, ◌≡◌, ◌≢◌, ◌↔◌, sym, ap, ◌∙◌, true, false, ◌||◌, ◌==◌, not, List, [], ◌∷◌, arith,
  ℕ_discrete,
}
use cpp_framework.Prelude.Bits.{bit, any_has, bit-and, bit-or, bit-zero, some_bit, same_bits}
use cpp_framework.Sync.EventFlag.{EventFlag, new_flag, and_mode, or_mode, matches, set}
use cpp_framework.Sync.EventFlag.Match.{set_all}

bit-set_all :
    (i : ℕ) (qs : List ℕ) (f : EventFlag)
    → bit i (set_all qs f).pattern ≡ bit i f.pattern || any_has i qs
unfolding set_all set
bit-set_all i [] f = ground arith
bit-set_all i (q ∷ qs) f = ground (arith, bit-set_all i qs (set q f), bit-or i f.pattern q)

bit-any_has : (i : ℕ) (qs : List ℕ) → bit i (set_all qs new_flag).pattern ≡ any_has i qs
unfolding new_flag
bit-any_has i qs = ground (arith, bit-set_all i qs new_flag, bit-zero i)

common_bit :
    (p x : ℕ) → (not (bit_and p x == 0) ≡ true) ↔ ((i : ℕ) × (bit i p ≡ true) × (bit i x ≡ true))
common_bit p x = (there, back)
  where
    there : not (bit_and p x == 0) ≡ true → (i : ℕ) × (bit i p ≡ true) × (bit i x ≡ true)
    there h =
        let nonzero : bit_and p x ≢ 0 = λ z. absurd (ground (arith, h, z)) in
        let (i, e) = some_bit (bit_and p x) (bit_and p x) (omega arith) nonzero in
        (i, ground (arith, e, bit-and i p x), ground (arith, e, bit-and i p x))

    back : ((i : ℕ) × (bit i p ≡ true) × (bit i x ≡ true)) → not (bit_and p x == 0) ≡ true
    back (i, e, g) = elim (ℕ_discrete (bit_and p x) 0) [
      | yes z ↦
          let none_common : bit i (bit_and p x) ≡ false = ap (bit i) z ∙ bit-zero i in
          ground (arith, bit-and i p x, e, g, none_common)
      | no n ↦ ground (arith, n)
    ]

same_number : (p x : ℕ) → ((p == x) ≡ true) ↔ ((i : ℕ) → bit i p ≡ bit i x)
same_number p x = (there, back)
  where
    there : (p == x) ≡ true → (i : ℕ) → bit i p ≡ bit i x
    there h i = let same : p ≡ x = ground (arith, h) in ap (bit i) same

    back : ((i : ℕ) → bit i p ≡ bit i x) → (p == x) ≡ true
    back h = let same = same_bits (p + x) p x (omega arith) (omega arith) h in ground (arith, same)

-- After any calls of set, in any order: a wait in the mode OR can end exactly if some call has set a
-- bit of its pattern, and one in the mode AND exactly if the bits that calls have set are just those
-- of its pattern.
pub match_ends :
    (p : ℕ) (qs : List ℕ)
    → ((matches (set_all qs new_flag) p or_mode ≡ true)
        ↔ ((i : ℕ) × (bit i p ≡ true) × (any_has i qs ≡ true)))
      × ((matches (set_all qs new_flag) p and_mode ≡ true) ↔ ((i : ℕ) → bit i p ≡ any_has i qs))
unfolding matches
match_ends p qs =
    let (or_to, or_back) = common_bit p (set_all qs new_flag).pattern in
    let (and_to, and_back) = same_number p (set_all qs new_flag).pattern in
    (
      (
        λ h. let (i, e, g) = or_to h in (i, e, sym (bit-any_has i qs) ∙ g),
        λ (i, e, g). or_back (i, e, bit-any_has i qs ∙ g),
      ),
      (λ h i. and_to h i ∙ bit-any_has i qs, λ h. and_back (λ i. h i ∙ sym (bit-any_has i qs))),
    )
