-- ===== src/Sync/EventFlag/Match.antt =====
-- How a match behaves as bits are added.
use Prim.Native.Nat.{bit_or}
use cpp_framework.Prelude.{ℕ, ◌≡◌, ◌≢◌, true, false, List, [], ◌∷◌, arith, ℕ_discrete}
use cpp_framework.Prelude.Bits.{bit_and-bit_or_zero, bit_or_idem, bit_or_subset}
use cpp_framework.Sync.EventFlag.{EventFlag, and_mode, or_mode, matches, set, get}

-- A match in the mode OR stays: no later `set` takes it away.
pub or_match_stays :
    (f : EventFlag) (p q : ℕ) → matches f p or_mode ≡ true → matches (set q f) p or_mode ≡ true
unfolding matches set
or_match_stays f p q h = ground (arith, bit_and-bit_or_zero p f.pattern q)

unfoldable pub set_all : List ℕ → EventFlag → EventFlag
set_all [] f = f
set_all (q ∷ qs) f = set_all qs (set q f)

overshoot-set : (p q : ℕ) (f : EventFlag) → bit_or p f.pattern ≢ p → bit_or p (set q f).pattern ≢ p
unfolding set
overshoot-set p q f over e = over (bit_or_subset p f.pattern q e)

-- Once a bit outside the awaited pattern is set, a wait in the mode AND for that pattern can never
-- end, whatever is set later: the mode compares the whole patterns, and nothing clears a bit.
pub and_overshoot :
    (p : ℕ) (f : EventFlag) (qs : List ℕ)
    → bit_or p (get f) ≢ p
    → matches (set_all qs f) p and_mode ≡ false
unfolding set_all get matches
and_overshoot p f [] over = elim (ℕ_discrete p f.pattern) [
  | yes e ↦ absurd (over (rw (← e) (bit_or_idem p)))
  | no n ↦ ground arith
]
and_overshoot p f (q ∷ qs) over = and_overshoot p (set q f) qs (overshoot-set p q f over)
