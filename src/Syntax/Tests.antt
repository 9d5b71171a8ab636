-- ===== src/Syntax/Tests.antt =====
-- The theorems on the syntax elements at concrete inputs.
use mffv.Common.{
  ℕ, zero, suc, ◌+◌, ◌-◌, ◌*◌, ◌%◌, ◌^◌, ◌≤◌, ◌<◌, ◌≡◌, ◌≢◌, ◌↔◌, ◌⊎◌, refl, arith, List, [], ◌∷◌,
  ◌++◌, Bool, Bool-cases, inl, inr, true, false, ◌&&◌, ◌||◌, not, ltb, ◌==◌, get_or, replicate,
  ==_iff,
}
use mffv.Common.Int.{ℤ, pos, negsuc, eqb_ℤ, ◌+ℤ◌, ◌-ℤ◌, pos_part, neg_part, abs, eq_of_parts}
use mffv.Common.Int32.{IsInt32}
use mffv.Common.Status.{ErrorCode, make_error, ok, fail}
use mffv.Range.Transition.{default_state_transition}
use mffv.Syntax.Predictor.{reconstruct, difference}
use mffv.Syntax.Predictor.Lossless.{reconstruct-difference}
use mffv.Syntax.ColorTransform.{forward_jpeg2000_rct, inverse_jpeg2000_rct}
use mffv.Syntax.ColorTransform.Inverse.{inverse-forward}
use mffv.Syntax.Stream.{
  EntropyMode, QuantTableSet, StreamParameters, coded_plane_count, make_zero_quant_table_set,
  plane_quant_table_set_index_slot, quant_table_set_index_count, scaled_grid_position,
  slice_pixel_width, slice_pixel_x, subsampled_extent,
}
use mffv.Syntax.Stream.Compare.{stream_parameters_equivalent}
use mffv.Syntax.Stream.Equivalence.{stream_parameters_equivalent_iff}
use mffv.Syntax.Stream.Geometry.{
  grid_partition, slice_pixel_width-slice_pixel_x, subsampled_extent_lem,
}
use mffv.Syntax.Stream.Planes.{expected_plane_role-injective, plane_quant_table_set_index_slot-lt}
use mffv.Syntax.ContextModel.{
  ContextDecision, NeighborSamples, folded_from, derive_context, gradients, context_input_index,
}
use mffv.Syntax.ContextModel.Quantized.{derive_context_lem, quantized}
use mffv.Syntax.ContextModel.Folding.{
  AllMirrored, derive_context-negated, folded_gradients, negated,
}

abbrev stream : StreamParameters
stream = record {
  version = pos 3;
  micro_version = pos 4;
  entropy_mode = EntropyMode.range;
  width = 1920;
  height = 1080;
  bits_per_raw_sample = 8;
  colorspace_type = pos 0;
  chroma_planes = true;
  extra_plane = true;
  log2_h_chroma_subsample = 1;
  log2_v_chroma_subsample = 1;
  num_h_slices = 7;
  num_v_slices = 4;
  quant_table_sets = make_zero_quant_table_set ∷ [];
  initial_states = [];
  state_transition = default_state_transition;
  error_status_enabled = true;
  intra_only = false;
}

reconstruct-difference_example :
    IsInt32 (pos 250 -ℤ negsuc 4)
    × IsInt32 (negsuc 4 +ℤ difference (pos 250) (negsuc 4) 8)
    × (reconstruct (negsuc 4) (difference (pos 250) (negsuc 4) 8) 8 ≡ pos 250)
reconstruct-difference_example =
    reconstruct-difference (negsuc 4) 250 8 (omega arith) (omega arith) (omega arith) (omega arith)

grid_partition_example :
    (cell : ℕ) × (cell < 7)
    × (scaled_grid_position 1920 7 cell ≤ 1000)
    × (1000 < scaled_grid_position 1920 7 (suc cell))
    × ((other : ℕ)
        → other < 7
        → scaled_grid_position 1920 7 other ≤ 1000
        → 1000 < scaled_grid_position 1920 7 (suc other)
        → other ≡ cell)
grid_partition_example =
    grid_partition 1920 7 (omega arith) (omega arith) (omega arith) 1000 (omega arith)

slice_pixel_width-slice_pixel_x_example :
    slice_pixel_x stream 2 + slice_pixel_width stream 2 3 ≡ slice_pixel_x stream 5
slice_pixel_width-slice_pixel_x_example =
    slice_pixel_width-slice_pixel_x stream 2 3 (omega arith) (omega arith) (omega arith)
      (omega arith)

subsampled_extent_lem_example :
    (1919 ≤ subsampled_extent 1919 1 * 2 ^ 1)
    × (1919 ≤ 1000 * 2 ^ 1 → subsampled_extent 1919 1 ≤ 1000)
subsampled_extent_lem_example = subsampled_extent_lem 1919 1 1000 (omega arith) (omega arith)

stream_parameters_equivalent_iff_example :
    (stream_parameters_equivalent stream stream ≡ true) ↔ (stream ≡ stream)
stream_parameters_equivalent_iff_example = stream_parameters_equivalent_iff stream stream

expected_plane_role-injective_example : ◌≡◌ {A = ℕ} 2 2
expected_plane_role-injective_example =
    expected_plane_role-injective stream 2 2 (unfold coded_plane_count in omega arith)
      (unfold coded_plane_count in omega arith) refl

plane_quant_table_set_index_slot-lt_example :
    plane_quant_table_set_index_slot stream 3 < quant_table_set_index_count stream
plane_quant_table_set_index_slot-lt_example =
    plane_quant_table_set_index_slot-lt stream 3 (unfold coded_plane_count in omega arith)

-- A table with one step on either side of 0.
abbrev step_table : List ℤ
step_table = pos 0 ∷ pos 1 ∷ replicate 253 (pos 0) ++ (negsuc 0 ∷ [])

abbrev step_tables : QuantTableSet
step_tables = record { tables = step_table ∷ []; context_count = 2 }

abbrev no_decision : ContextDecision
no_decision = record { context = 0; invert_difference = false }

abbrev samples : NeighborSamples
samples = record {
  far_left = pos 0;
  left = pos 11;
  top = pos 10;
  top_left = pos 10;
  top_right = pos 10;
  top_top = pos 10;
}

abbrev mirrored_at : ℕ → Bool
mirrored_at n =
    n == 128
    || eqb_ℤ (get_or step_table ((256 - n) % 256) (pos 0)) (pos 0 -ℤ get_or step_table n (pos 0))

abbrev mirrored_below : ℕ → Bool
mirrored_below zero = true
mirrored_below (suc n) = mirrored_at n && mirrored_below n

mirrored_all : mirrored_below 256 ≡ true
unfolding ◌-ℤ◌
mirrored_all = refl

both_true : (p q : Bool) → (p && q) ≡ true → (p ≡ true) × (q ≡ true)
both_true p q h = (ground arith, ground arith)

still_below : (i n : ℕ) → (i == n) ≡ false → i < suc n → i < n
still_below i n e lt = ground arith

apart : (a b : ℕ) → (a == b) ≡ false → a ≢ b
apart a b e same = ground arith

mirrored_found : (bound i : ℕ) → mirrored_below bound ≡ true → i < bound → mirrored_at i ≡ true
mirrored_found zero i h lt = absurd (omega arith)
mirrored_found (suc n) i h lt =
    let (first, rest) = both_true (mirrored_at n) (mirrored_below n) h in
    elim (Bool-cases (i == n)) [
      | inl e ↦ let same = (==_iff i n).0 e in rw same first
      | inr e ↦ mirrored_found n i rest (still_below i n e lt)
    ]

step_tables-AllMirrored : AllMirrored step_tables.tables
step_tables-AllMirrored = (
  (λ i small off.
      equal_of (get_or step_table ((256 - i) % 256) (pos 0)) (pos 0 -ℤ get_or step_table i (pos 0))
        (i == 128) (mirrored_found 256 i mirrored_all small) (ground (arith, off))),
  tt,
)
  where
    equal_of : (a b : ℤ) (c : Bool) → (c || eqb_ℤ a b) ≡ true → c ≡ false → a ≡ b
    equal_of a b c h e = eq_of_parts a b (ground arith)

folded_gradients_test : folded_gradients step_tables samples ≡ pos 1
unfolding folded_from gradients context_input_index ◌+ℤ◌ ◌-ℤ◌
folded_gradients_test = refl

derive_context-negated_example :
    (found : ContextDecision) × (derive_context step_tables samples no_decision ≡ ok tt found)
    × (derive_context step_tables (negated samples) no_decision
        ≡ ok tt (record found { invert_difference = not found.invert_difference }))
derive_context-negated_example =
    derive_context-negated step_tables samples no_decision step_tables-AllMirrored
      (unfold gradients in
        unfold context_input_index in
        unfold ◌-ℤ◌ in
        (
          apart 1 128 refl,
          (apart 0 128 refl, (apart 0 128 refl, (apart 245 128 refl, (apart 0 128 refl, tt)))),
        ))
      (rw folded_gradients_test (λ e. cc)) (rw folded_gradients_test (unfold abs in omega arith))

abbrev zero_table : List ℤ
zero_table = replicate 256 (pos 0)

-- The third table alone has a step.
abbrev five_tables : QuantTableSet
five_tables = record {
  tables = zero_table ∷ zero_table ∷ step_table ∷ zero_table ∷ zero_table ∷ [];
  context_count = 2;
}

derive_context_lem_example :
    let sum = quantized zero_table zero_table step_table zero_table zero_table samples in
    let derived = derive_context five_tables samples no_decision in
    ((pos_part sum + neg_part sum < 2)
      × (derived
          ≡ ok tt (record {
            context = pos_part sum + neg_part sum;
            invert_difference = ltb 0 (neg_part sum);
          })))
    ⊎ ((2 ≤ pos_part sum + neg_part sum)
        × (kept : ContextDecision) × (derived ≡ fail (make_error ErrorCode.invalid_state) kept)
        × (kept.context ≡ no_decision.context))
derive_context_lem_example =
    derive_context_lem zero_table zero_table step_table zero_table zero_table 2 samples no_decision

inverse-forward_example :
    let code = forward_jpeg2000_rct 300 20 1000 10 false in
    inverse_jpeg2000_rct code.y code.cb code.cr 10 false ≡ record { r = 300; g = 20; b = 1000 }
inverse-forward_example =
    inverse-forward 300 20 1000 10 false (omega arith) (omega arith) (omega arith) (omega arith)
      (omega arith)
