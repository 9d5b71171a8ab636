-- ===== src/Syntax/ContextModel/Quantized.antt =====
-- `derive_context` of src/mffv1/context_model.cpp against the context of RFC 9043, 3.5: the sum of five
-- table entries.
use mffv.Common.{
  ℕ, ◌+◌, ◌-◌, ◌%◌, ◌≤◌, ◌<◌, ◌≡◌, refl, ap, ◌∙◌, arith, List, [], ◌∷◌, ltb, get_or, inl, inr, ◌⊎◌,
}
use mffv.Common.Int.{ℤ, pos, negsuc, pos_part, neg_part, ltb_ℤ, ◌+ℤ◌, ◌-ℤ◌, abs}
use mffv.Common.Status.{ok, fail, ErrorCode, make_error}
use mffv.Golomb.Context.{to_u64}
use mffv.Syntax.Stream.{QuantTableSet}
use mffv.Syntax.ContextModel.{
  NeighborSamples, ContextDecision, context_input_index, gradients, folded_from, derive_context,
}
use mffv.Syntax.ContextModel.Folding.{
  context_input_index_lem, derive_context_cases, folded_gradients,
}

-- The entry of a table for a difference, which counts modulo 256.
abbrev pub entry_at : List ℤ → ℤ → ℤ
entry_at table (pos n) = get_or table (n % 256) (pos 0)
entry_at table (negsuc n) = get_or table (255 - n % 256) (pos 0)

entry_at_lem :
    (table : List ℤ) (v : ℤ) → get_or table (context_input_index v) (pos 0) ≡ entry_at table v
entry_at_lem table v =
    ap (λ (i : ℕ). get_or table i (pos 0)) (context_input_index_lem v) ∙ reduced v
  where
    reduced : (v : ℤ) → get_or table (to_u64 v % 256) (pos 0) ≡ entry_at table v
    reduced (pos n) = ap (λ (i : ℕ). get_or table i (pos 0)) (omega arith)
    reduced (negsuc n) = ap (λ (i : ℕ). get_or table i (pos 0)) (omega arith)

-- The sum of the five entries.
abbrev pub quantized : (t₀ t₁ t₂ t₃ t₄ : List ℤ) → NeighborSamples → ℤ
quantized t₀ t₁ t₂ t₃ t₄ s =
    entry_at t₀ (s.left -ℤ s.top_left)
    +ℤ entry_at t₁ (s.top_left -ℤ s.top)
    +ℤ entry_at t₂ (s.top -ℤ s.top_right)
    +ℤ entry_at t₃ (s.far_left -ℤ s.left)
    +ℤ entry_at t₄ (s.top_top -ℤ s.top)

zero_add : (v : ℤ) → pos 0 +ℤ v ≡ v
unfolding ◌+ℤ◌
zero_add (pos n) = ground arith
zero_add (negsuc n) = ground arith

quantized_lem :
    (t₀ t₁ t₂ t₃ t₄ : List ℤ) (count : ℕ) (s : NeighborSamples)
    → folded_gradients (record { tables = t₀ ∷ t₁ ∷ t₂ ∷ t₃ ∷ t₄ ∷ []; context_count = count }) s
      ≡ quantized t₀ t₁ t₂ t₃ t₄ s
unfolding folded_from gradients
quantized_lem t₀ t₁ t₂ t₃ t₄ count s =
    rw
      (
        entry_at_lem t₀ (s.left -ℤ s.top_left),
        entry_at_lem t₁ (s.top_left -ℤ s.top),
        entry_at_lem t₂ (s.top -ℤ s.top_right),
        entry_at_lem t₃ (s.far_left -ℤ s.left),
        entry_at_lem t₄ (s.top_top -ℤ s.top),
        zero_add,
      )
      refl

abs_parts : (v : ℤ) → pos_part (abs v) ≡ pos_part v + neg_part v
unfolding abs ◌-ℤ◌
abs_parts (pos n) = ground arith
abs_parts (negsuc n) = ground arith

is_below : (v : ℤ) → ltb_ℤ v (pos 0) ≡ ltb 0 (neg_part v)
is_below (pos n) = ground arith
is_below (negsuc n) = ground arith

-- For five tables, let the sum be that of their entries, modulo 256, at left - top_left, top_left
-- - top, top - top_right, far_left - left and top_top - top: when its magnitude is below the
-- number of contexts, that magnitude is the context, and the flag says whether the sum is
-- negative, whatever the decision was before; otherwise the derivation fails as an invalid state
-- and leaves the context alone.
pub derive_context_lem :
    (t₀ t₁ t₂ t₃ t₄ : List ℤ) (count : ℕ) (s : NeighborSamples) (decision : ContextDecision)
    → let sum = quantized t₀ t₁ t₂ t₃ t₄ s in
      let derived =
        derive_context
          (record { tables = t₀ ∷ t₁ ∷ t₂ ∷ t₃ ∷ t₄ ∷ []; context_count = count })
          s
          decision in
      ((pos_part sum + neg_part sum < count)
        × (derived
            ≡ ok tt (record {
              context = pos_part sum + neg_part sum;
              invert_difference = ltb 0 (neg_part sum);
            })))
      ⊎ ((count ≤ pos_part sum + neg_part sum)
          × (kept : ContextDecision) × (derived ≡ fail (make_error ErrorCode.invalid_state) kept)
          × (kept.context ≡ decision.context))
derive_context_lem t₀ t₁ t₂ t₃ t₄ count s decision =
    let tables : QuantTableSet = record {
      tables = t₀ ∷ t₁ ∷ t₂ ∷ t₃ ∷ t₄ ∷ [];
      context_count = count;
    } in
    let sum = folded_gradients tables s in
    let same : sum ≡ quantized t₀ t₁ t₂ t₃ t₄ s = quantized_lem t₀ t₁ t₂ t₃ t₄ count s in
    rw (← same) (elim (derive_context_cases tables s decision) [
      | inl (fits, e) ↦ inl (
        omega (arith, fits, abs_parts sum),
        e ∙ (λ i. ok tt (record { context = abs_parts sum i; invert_difference = is_below sum i })),
      )
      | inr (past, kept, e, same_context) ↦
          inr (omega (arith, past, abs_parts sum), kept, e, same_context)
    ])
