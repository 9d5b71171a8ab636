-- ===== src/Syntax/ContextModel.antt =====
-- src/mffv1/context_model.cpp and context_model.hpp. The gradients are 64-bit numbers made of
-- 32-bit samples, and the sum has five 32-bit terms, so no operation overflows.
pub mod Folding
pub mod Quantized
use mffv.Common.{
  ℕ, ◌^◌, ◌-◌, List, [], ◌∷◌, Bool, true, false, bit_and, ◌==◌, if◌then◌else◌, get_or,
}
use mffv.Common.Int.{ℤ, pos, ltb_ℤ, leb_ℤ, ◌+ℤ◌, ◌-ℤ◌, pos_part}
use mffv.Common.Status.{ErrorCode, make_error, Outcome, ok, fail}
use mffv.Golomb.Context.{to_u64}
use mffv.Syntax.Stream.{QuantTableSet}

pub record NeighborSamples : Type 0 where
  pub far_left : ℤ
  pub left : ℤ
  pub top : ℤ
  pub top_left : ℤ
  pub top_right : ℤ
  pub top_top : ℤ

pub record ContextDecision : Type 0 where
  pub context : ℕ
  pub invert_difference : Bool

unfoldable pub context_input_index : ℤ → ℕ
context_input_index value = bit_and (to_u64 value) 255

unfoldable pub gradients : NeighborSamples → List ℤ
gradients s =
    (s.left -ℤ s.top_left)
    ∷ (s.top_left -ℤ s.top)
    ∷ (s.top -ℤ s.top_right)
    ∷ (s.far_left -ℤ s.left)
    ∷ (s.top_top -ℤ s.top)
    ∷ []

-- The loop over the gradients, with the tables from the same index on.
unfoldable pub folded_from : ℤ → List (List ℤ) → List ℤ → ℤ
unfolding context_input_index
folded_from folded tables [] = folded
folded_from folded [] (value ∷ values) = folded
folded_from folded (table ∷ tables) (value ∷ values) =
    folded_from (folded +ℤ get_or table (context_input_index value) (pos 0)) tables values

-- The decision is the out parameter: a failure may leave its flag changed.
unfoldable pub derive_context :
    QuantTableSet → NeighborSamples → ContextDecision → Outcome ContextDecision (Unit {0})
unfolding gradients folded_from
derive_context quant_tables samples decision =
    if quant_tables.context_count == 0
    then fail (make_error ErrorCode.invalid_state) decision
    else let folded = folded_from (pos 0) quant_tables.tables (gradients samples) in
      let invert = ltb_ℤ folded (pos 0) in
      let decided = record decision { invert_difference = invert } in
      let magnitude = if invert then pos 0 -ℤ folded else folded in
      if leb_ℤ (pos quant_tables.context_count) magnitude
      then fail (make_error ErrorCode.invalid_state) decided
      else ok tt (record decided { context = pos_part magnitude })
