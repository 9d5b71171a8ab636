-- ===== src/Golomb/Valid.antt =====
-- The invariant of a context's state, and that coding a value keeps it.
use mffv.Common.{
  ℕ, zero, suc, ◌+◌, ◌*◌, ◌^◌, ◌≤◌, ◌<◌, ◌≡◌, refl, ap, arith, true, false, Bool-cases, inl, inr,
  some,
}
use mffv.Common.Int.{
  ℤ, pos, negsuc, pos_part, neg_part, ◌+ℤ◌, ◌-ℤ◌, ◌*ℤ◌, ◌≤ℤ◌, ltb_ℤ, eqb_ℤ, +ℤ_parts, -ℤ_parts, abs,
}
use mffv.Util.RfcMath.{arithmetic_right_shift}
use mffv.Golomb.Context.{
  GolombRiceContextState, initial_context, validate_state, derive_k, derive_k_loop, halve,
  adjust_bias, update_state,
}
use native.Mathlib.Nat.{pow-suc}

-- Between samples: 1 ≤ count ≤ 128, -128 ≤ bias ≤ 127, -count < drift ≤ 0, and an error sum of
-- at most 2^30 for each counted sample.
pub record IsValid (s : GolombRiceContextState) : Type 0 where
  pub count_low : pos 1 ≤ℤ s.count
  pub count_high : s.count ≤ℤ pos 128
  pub bias_low : negsuc 127 ≤ℤ s.bias
  pub bias_high : s.bias ≤ℤ pos 127
  pub error_low : pos 0 ≤ℤ s.error_sum
  pub error_high :
      pos_part s.error_sum + neg_part s.count * 2 ^ 30
      ≤ neg_part s.error_sum + pos_part s.count * 2 ^ 30
  pub drift_low : neg_part s.drift + neg_part s.count < pos_part s.drift + pos_part s.count
  pub drift_high : s.drift ≤ℤ pos 0

pub initial_context-IsValid : IsValid initial_context
unfolding initial_context
initial_context-IsValid = omega arith

pub validate_state_lem : (s : GolombRiceContextState) → IsValid s → validate_state s ≡ true
unfolding validate_state
validate_state_lem s v = ground arith

-- The part of the invariant that `adjust_bias` needs.
record IsCounted (s : GolombRiceContextState) : Type 0 where
  count_low : pos 1 ≤ℤ s.count
  count_high : s.count ≤ℤ pos 128
  bias_low : negsuc 127 ≤ℤ s.bias
  bias_high : s.bias ≤ℤ pos 127
  error_low : pos 0 ≤ℤ s.error_sum
  error_high :
      pos_part s.error_sum + neg_part s.count * 2 ^ 30
      ≤ neg_part s.error_sum + pos_part s.count * 2 ^ 30

adjust_bias-IsValid : (s : GolombRiceContextState) → IsCounted s → IsValid (adjust_bias s)
unfolding adjust_bias
adjust_bias-IsValid s c = ground (
  arith,
  -ℤ_parts (pos 0) s.count,
  -ℤ_parts s.bias (pos 1),
  +ℤ_parts s.bias (pos 1),
  +ℤ_parts s.drift s.count,
  -ℤ_parts s.drift s.count,
  +ℤ_parts (pos 0 -ℤ s.count) (pos 1),
)

-- Half, rounded down.
half_parts :
    (v : ℤ)
    → let h = arithmetic_right_shift v 1 in
      (2 * pos_part h + neg_part v ≤ pos_part v + 2 * neg_part h)
      × (pos_part v + 2 * neg_part h < 2 * pos_part h + neg_part v + 2)
unfolding arithmetic_right_shift
half_parts (pos n) = omega arith
half_parts (negsuc n) = ground arith

-- The values that a width of at most 31 bits gives.
abbrev pub IsSmall : ℤ → Type 0
IsSmall v = (neg_part v ≤ pos_part v + 2 ^ 30) × (pos_part v ≤ neg_part v + 2 ^ 30)

abs_parts : (v : ℤ) → IsSmall v → (pos 0 ≤ℤ abs v) × (abs v ≤ℤ pos (2 ^ 30))
unfolding abs ◌-ℤ◌
abs_parts v h = ground arith

-- The state after a value is added, before the halving and the count.
abbrev added : GolombRiceContextState → ℤ → GolombRiceContextState
added s value = record s { error_sum = s.error_sum +ℤ abs value; drift = s.drift +ℤ value }

abbrev counted : GolombRiceContextState → GolombRiceContextState
counted s = record s { count = s.count +ℤ pos 1 }

counted-IsCounted :
    (s : GolombRiceContextState) (value : ℤ)
    → IsValid s
    → IsSmall value
    → eqb_ℤ s.count (pos 128) ≡ false
    → IsCounted (counted (added s value))
counted-IsCounted s value v small below =
    ground
      (arith, abs_parts value small, +ℤ_parts s.error_sum (abs value), +ℤ_parts s.count (pos 1))

halved-IsCounted :
    (s : GolombRiceContextState) (value : ℤ)
    → IsValid s
    → IsSmall value
    → eqb_ℤ s.count (pos 128) ≡ true
    → IsCounted (counted (halve (added s value)))
unfolding halve
halved-IsCounted s value v small full = ground (
  arith,
  abs_parts value small,
  +ℤ_parts s.error_sum (abs value),
  half_parts s.count,
  half_parts (s.error_sum +ℤ abs value),
  +ℤ_parts (arithmetic_right_shift s.count 1) (pos 1),
)

-- An update by a value of magnitude at most 2^30 keeps a context state valid: count from 1 to 128,
-- bias from -128 to 127, drift above -count and at most 0, error sum from 0 to count * 2^30.
pub update_state-IsValid :
    (s : GolombRiceContextState) (value : ℤ)
    → IsValid s
    → IsSmall value
    → IsValid (update_state s value)
unfolding update_state
update_state-IsValid s value v small = elim (Bool-cases (eqb_ℤ s.count (pos 128))) [
  | inl full ↦ rw full (adjust_bias-IsValid _ (halved-IsCounted s value v small full))
  | inr below ↦ rw below (adjust_bias-IsValid _ (counted-IsCounted s value v small below))
]

double_parts :
    (t : ℤ) → (pos_part (t *ℤ pos 2) + 2 * neg_part t ≡ neg_part (t *ℤ pos 2) + 2 * pos_part t)
unfolding ◌*ℤ◌
double_parts t = ground arith

-- The search for the parameter ends within its rounds when enough doublings reach the sum.
derive_k_loop_total :
    (error_sum : ℤ) (left k : ℕ) (threshold : ℤ)
    → pos_part error_sum + neg_part threshold * 2 ^ left
      ≤ neg_part error_sum + pos_part threshold * 2 ^ left
    → (r : ℕ) × (derive_k_loop error_sum left k threshold ≡ some r) × (r ≤ k + left)
unfolding derive_k_loop
derive_k_loop_total e zero k t h = (k, ground arith, omega arith)
derive_k_loop_total e (suc left) k t h = elim (Bool-cases (ltb_ℤ t e)) [
  | inl more ↦
      let (r, p, q) = derive_k_loop_total e left (k + 1) (t *ℤ pos 2) (
        omega (
          arith,
          pow-suc 2 left,
          ap (λ (x : ℕ). neg_part t * x) (pow-suc 2 left),
          ap (λ (x : ℕ). pos_part t * x) (pow-suc 2 left),
          ap (λ (x : ℕ). x * 2 ^ left) (double_parts t),
          h,
        )) in
      (r, rw more p, omega (arith, q))
  | inr done ↦ (k, rw done refl, omega arith)
]

-- In every valid state the choice of k succeeds, with a k below 32.
pub derive_k_total :
    (s : GolombRiceContextState) → IsValid s → (k : ℕ) × (derive_k s ≡ some k) × (k < 32)
unfolding derive_k
derive_k_total s v =
    let (k, e, b) =
      derive_k_loop_total s.error_sum 31 0 s.count (omega (arith, v.count_low, v.error_high)) in
    (k, e, omega (arith, b))
