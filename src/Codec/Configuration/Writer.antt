-- ===== src/Codec/Configuration/Writer.antt =====
-- src/codec/configuration_record_writer.cpp: write_parameters and the checks before it, over any
-- symbol writer.
use mffv.Common.{
  ℕ, ◌+◌, ◌-◌, List, [], ◌∷◌, Bool, true, false, not, ◌&&◌, ◌||◌, ltb, ◌==◌, if◌then◌else◌, length,
  drop,
}
use mffv.Common.Int.{pos, ◌-ℤ◌, pos_part, eqb_ℤ}
use mffv.Common.Status.{ErrorCode, Outcome, ◌>>◌, return, refuse}
use mffv.Range.Transition.{StateTransitionTable, default_state_transition}
use mffv.Syntax.Profile.{
  has_invalid_rgb_geometry, has_subsampling_without_chroma, is_supported_chroma_subsampling,
  is_supported_encoder_bit_depth, is_supported_syntax_colorspace,
}
use mffv.Syntax.Stream.{InitialState, InitialStateSet, QuantTableSet, StreamParameters, is_range}
use mffv.Codec.Symbols.{SymbolWriter}
use mffv.Codec.Configuration.Parser.{first_prediction}
use mffv.Codec.Configuration.Tables.{write_quant_table_set}

-- The comparison of two tables of states.
unfoldable pub equal_tables : StateTransitionTable → StateTransitionTable → Bool
equal_tables [] [] = true
equal_tables (a ∷ as') (b ∷ bs) = a == b && equal_tables as' bs
equal_tables [] (b ∷ bs) = false
equal_tables (a ∷ as') [] = false

unfoldable pub has_custom_state_transition : StreamParameters → Bool
unfolding is_range equal_tables
has_custom_state_transition stream =
    is_range stream.entropy_mode
    && not (equal_tables stream.state_transition default_state_transition)

-- Does a table set have no contexts?
unfoldable pub any_without_contexts : List QuantTableSet → Bool
any_without_contexts [] = false
any_without_contexts (table_set ∷ table_sets) =
    if table_set.context_count == 0 then true else any_without_contexts table_sets

-- Is there a coded set of initial states whose size is not the number of contexts?
unfoldable pub any_state_count_wrong : List InitialStateSet → List QuantTableSet → Bool
any_state_count_wrong [] table_sets = false
any_state_count_wrong (state_set ∷ state_sets) [] = false
any_state_count_wrong (state_set ∷ state_sets) (table_set ∷ table_sets) =
    if not (length state_set.contexts == 0)
      && not (length state_set.contexts == table_set.context_count)
    then true
    else any_state_count_wrong state_sets table_sets

-- `none` of the error codes is ok. The enumeration has no other value than the two that the code
-- accepts as the entropy mode.
module _ {S : Type 0} where
  unfoldable pub validate_initial_profile : StreamParameters → S → Outcome S (Unit {0})
  unfolding is_range is_supported_encoder_bit_depth is_supported_syntax_colorspace
      has_invalid_rgb_geometry has_subsampling_without_chroma is_supported_chroma_subsampling
      any_without_contexts any_state_count_wrong
  validate_initial_profile stream = do
    refuse ErrorCode.unsupported_feature
        (not (eqb_ℤ stream.version (pos 3)) || not (eqb_ℤ stream.micro_version (pos 4)))
    refuse ErrorCode.unsupported_feature (
        not (is_range stream.entropy_mode)
        && not (is_supported_encoder_bit_depth stream.bits_per_raw_sample))
    refuse ErrorCode.unsupported_feature (
        not (is_supported_syntax_colorspace stream.colorspace_type)
        || not (is_supported_encoder_bit_depth stream.bits_per_raw_sample))
    refuse ErrorCode.invalid_argument (
        has_invalid_rgb_geometry (eqb_ℤ stream.colorspace_type (pos 1)) stream.chroma_planes
          stream.log2_h_chroma_subsample stream.log2_v_chroma_subsample)
    refuse ErrorCode.invalid_argument (
        has_subsampling_without_chroma stream.chroma_planes stream.log2_h_chroma_subsample
          stream.log2_v_chroma_subsample)
    refuse ErrorCode.unsupported_feature (
        not (
          is_supported_chroma_subsampling stream.log2_h_chroma_subsample
            stream.log2_v_chroma_subsample))
    refuse ErrorCode.invalid_argument (stream.num_h_slices == 0 || stream.num_v_slices == 0)
    refuse ErrorCode.invalid_argument
        (length stream.quant_table_sets == 0 || ltb 8 (length stream.quant_table_sets))
    refuse ErrorCode.invalid_state (any_without_contexts stream.quant_table_sets)
    refuse ErrorCode.invalid_state (
        not (length stream.initial_states == 0)
        && not (length stream.initial_states == length stream.quant_table_sets))
    refuse ErrorCode.invalid_state
        (any_state_count_wrong stream.initial_states stream.quant_table_sets)

module _ {W : Type 0} (writer : SymbolWriter W) where
  -- The loop over the entries from 1, each with the default that it is written against.
  unfoldable pub write_transitions :
      StateTransitionTable → StateTransitionTable → W → Outcome W (Unit {0})
  write_transitions [] defaults = return tt
  write_transitions (state ∷ states) [] = return tt
  write_transitions (state ∷ states) (default ∷ defaults) =
      writer.write_signed (pos state -ℤ pos default) >> write_transitions states defaults

  unfoldable pub write_initial_state : ℕ → InitialState → InitialState → W → Outcome W (Unit {0})
  write_initial_state state_index [] predictions = return tt
  write_initial_state state_index (state ∷ states) [] = return tt
  write_initial_state state_index (state ∷ states) (prediction ∷ predictions) =
      writer.write_signed_in state_index (pos state -ℤ pos prediction)
      >> write_initial_state (state_index + 1) states predictions

  unfoldable pub write_contexts : List InitialState → InitialState → W → Outcome W (Unit {0})
  write_contexts [] prediction = return tt
  write_contexts (states ∷ contexts) prediction =
      write_initial_state 0 states prediction >> write_contexts contexts states

  unfoldable pub write_initial_state_set : InitialStateSet → W → Outcome W (Unit {0})
  write_initial_state_set state_set =
      let coded = not (length state_set.contexts == 0) in
      writer.write_bool coded
      >> (if coded then write_contexts state_set.contexts first_prediction else return tt)

  unfoldable pub write_state_sets : List InitialStateSet → W → Outcome W (Unit {0})
  write_state_sets [] = return tt
  write_state_sets (state_set ∷ state_sets) =
      write_initial_state_set state_set >> write_state_sets state_sets

  -- `states_coded` of every table set, where the stream has no initial states.
  unfoldable pub write_uncoded : List QuantTableSet → W → Outcome W (Unit {0})
  write_uncoded [] = return tt
  write_uncoded (table_set ∷ table_sets) = writer.write_bool false >> write_uncoded table_sets

  unfoldable pub write_sets : List QuantTableSet → W → Outcome W (Unit {0})
  write_sets [] = return tt
  write_sets (table_set ∷ table_sets) =
      write_quant_table_set writer table_set >> write_sets table_sets

  -- `static_cast<std::uint64_t>` of the two values behind the checks.
  unfoldable pub write_tail : StreamParameters → W → Outcome W (Unit {0})
  write_tail stream =
      (if length stream.initial_states == 0
        then write_uncoded stream.quant_table_sets
        else write_state_sets stream.initial_states)
      >> (writer.write_unsigned (if stream.error_status_enabled then 1 else 0)
          >> writer.write_unsigned (if stream.intra_only then 1 else 0))

  unfoldable pub write_entropy_mode : StreamParameters → W → Outcome W (Unit {0})
  write_entropy_mode stream =
      writer.write_unsigned (
        if not (is_range stream.entropy_mode)
        then 0
        else if has_custom_state_transition stream
        then 2
        else 1)
      >> (if has_custom_state_transition stream
          then write_transitions (drop 1 stream.state_transition) (drop 1 default_state_transition)
          else return tt)

  unfoldable pub write_planes : StreamParameters → W → Outcome W (Unit {0})
  write_planes stream = do
    writer.write_bool stream.chroma_planes
    writer.write_unsigned stream.log2_h_chroma_subsample
    writer.write_unsigned stream.log2_v_chroma_subsample
    writer.write_bool stream.extra_plane

  unfoldable pub write_grid : StreamParameters → W → Outcome W (Unit {0})
  write_grid stream = do
    writer.write_unsigned (stream.num_h_slices - 1)
    writer.write_unsigned (stream.num_v_slices - 1)
    writer.write_unsigned (length stream.quant_table_sets)

  -- What follows the version.
  unfoldable pub write_versioned : StreamParameters → W → Outcome W (Unit {0})
  write_versioned stream = do
    writer.write_unsigned 4
    write_entropy_mode stream
    writer.write_unsigned (pos_part stream.colorspace_type)
    writer.write_unsigned stream.bits_per_raw_sample
    write_planes stream
    write_grid stream
    write_sets stream.quant_table_sets
    write_tail stream

  unfoldable pub write_symbols : StreamParameters → W → Outcome W (Unit {0})
  write_symbols stream = do writer.write_unsigned 3; write_versioned stream

  unfoldable pub write_parameters : StreamParameters → W → Outcome W (Unit {0})
  write_parameters stream = do validate_initial_profile stream; write_symbols stream
