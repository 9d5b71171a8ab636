-- ===== src/Codec/Configuration/Parser.antt =====
-- src/mffv1/configuration_parser.cpp: parse, over any symbol reader. The code fills one stream step
-- by step; each function here is a run of its steps and returns the stream with their fields set.
use mffv.Common.{
  ℕ, zero, suc, ◌+◌, ◌-◌, ◌%◌, ◌^◌, List, [], ◌∷◌, ◌++◌, Bool, true, false, not, ◌&&◌, ◌||◌, ltb,
  leb, ◌==◌, if◌then◌else◌, take, drop, replicate,
}
use mffv.Common.Int.{ℤ, pos, negsuc, ◌+ℤ◌, pos_part, ltb_ℤ, leb_ℤ, eqb_ℤ}
use mffv.Common.Status.{
  ErrorCode, make_error, make_byte_error, Outcome, ok, fail, ◌>>=◌, ◌>>◌, return, refuse,
}
use mffv.Range.Transition.{StateTransitionTable, default_state_transition}
use mffv.Syntax.Profile.{
  has_invalid_rgb_geometry, is_supported_decoder_bit_depth, is_supported_syntax_colorspace,
}
use mffv.Syntax.Stream.{EntropyMode, InitialState, InitialStateSet, QuantTableSet, StreamParameters}
use mffv.Codec.Symbols.{SymbolReader}
use mffv.Codec.Configuration.Tables.{max_int32, parse_quant_table_set}

-- `StreamParameters{}`
abbrev pub new_stream : StreamParameters
new_stream = record {
  version = pos 3;
  micro_version = pos 0;
  entropy_mode = EntropyMode.range;
  width = 0;
  height = 0;
  bits_per_raw_sample = 8;
  colorspace_type = pos 0;
  chroma_planes = true;
  extra_plane = false;
  log2_h_chroma_subsample = 0;
  log2_v_chroma_subsample = 0;
  num_h_slices = 1;
  num_v_slices = 1;
  quant_table_sets = [];
  initial_states = [];
  state_transition = default_state_transition;
  error_status_enabled = false;
  intra_only = false;
}

-- `std::numeric_limits<std::uint32_t>::max()`
abbrev max_uint32 : ℕ
max_uint32 = 2 ^ 32 - 1

-- `static_cast<std::uint8_t>` of a signed number
unfoldable pub to_byte : ℤ → ℕ
to_byte (pos n) = n % 256
to_byte (negsuc n) = 255 - n % 256

-- The prediction of the first context's states.
abbrev pub first_prediction : InitialState
first_prediction = replicate 32 128

module _ {R : Type 0} (reader : SymbolReader R) where
  unfoldable pub parse_version : StreamParameters → R → Outcome R StreamParameters
  parse_version stream = reader.read_unsigned >>= λ value.
      refuse ErrorCode.unsupported_feature
        (not (value == 0) && not (value == 1) && not (value == 3))
      >> return (record stream { version = pos value })

  unfoldable pub parse_micro_version : StreamParameters → R → Outcome R StreamParameters
  parse_micro_version stream =
      if leb_ℤ (pos 3) stream.version
      then (reader.read_unsigned >>= λ value.
          refuse ErrorCode.syntax_error (ltb max_int32 value)
          >> (refuse ErrorCode.unsupported_feature (ltb value 4)
              >> return (record stream { micro_version = pos value })))
      else return stream

  -- The loop over the entries from 1, each with the default that it changes.
  unfoldable pub parse_transitions : StateTransitionTable → R → Outcome R StateTransitionTable
  parse_transitions [] = return []
  parse_transitions (entry ∷ entries) = reader.read_signed >>= λ delta.
      let transition = pos entry +ℤ delta in
      refuse ErrorCode.syntax_error (ltb_ℤ transition (pos 0) || ltb_ℤ (pos 255) transition)
      >> (parse_transitions entries >>= λ transitions. return (pos_part transition ∷ transitions))

  -- The value is the stream and `apply_custom_state_transition`.
  unfoldable pub parse_entropy_mode : StreamParameters → R → Outcome R (StreamParameters × Bool)
  parse_entropy_mode stream = reader.read_unsigned >>= λ value.
      if value == 0
      then return (record stream { entropy_mode = EntropyMode.golomb_rice }, false)
      else if value == 1
      then return (record stream { entropy_mode = EntropyMode.range }, false)
      else if value == 2
      then (parse_transitions (drop 1 stream.state_transition) >>= λ transitions. return (
        record stream {
          entropy_mode = EntropyMode.range;
          state_transition = take 1 stream.state_transition ++ transitions;
        },
        true,
      ))
      else (λ r. fail (make_error ErrorCode.unsupported_feature) r)

  unfoldable pub parse_bit_depth : StreamParameters → R → Outcome R StreamParameters
  parse_bit_depth stream =
      if leb_ℤ (pos 1) stream.version
      then (reader.read_unsigned >>= λ value.
          let decoded = if value == 0 then 8 else value in
          refuse ErrorCode.unsupported_feature (ltb 16 value)
          >> (refuse ErrorCode.unsupported_feature (not (is_supported_decoder_bit_depth decoded))
              >> return (record stream { bits_per_raw_sample = decoded })))
      else return stream

  unfoldable pub parse_colorspace : StreamParameters → R → Outcome R StreamParameters
  parse_colorspace stream = reader.read_unsigned >>= λ value.
      refuse ErrorCode.syntax_error (ltb max_int32 value)
      >> (refuse ErrorCode.unsupported_feature (not (is_supported_syntax_colorspace (pos value)))
          >> return (record stream { colorspace_type = pos value }))

  -- The chroma planes, their subsampling and the extra plane.
  unfoldable pub parse_planes : StreamParameters → R → Outcome R StreamParameters
  parse_planes stream = reader.read_bool >>= λ chroma_planes. reader.read_unsigned >>= λ log2_h.
      refuse ErrorCode.syntax_error (ltb 255 log2_h)
      >> (reader.read_unsigned >>= λ log2_v.
          refuse ErrorCode.syntax_error (ltb 255 log2_v)
          >> (reader.read_bool >>= λ extra_plane.
              refuse ErrorCode.syntax_error (
                has_invalid_rgb_geometry (eqb_ℤ stream.colorspace_type (pos 1)) chroma_planes log2_h
                  log2_v)
              >> return (record stream {
                chroma_planes = chroma_planes;
                log2_h_chroma_subsample = log2_h;
                log2_v_chroma_subsample = log2_v;
                extra_plane = extra_plane;
              })))

  -- The test of the number of table sets, located where the number starts.
  unfoldable pub check_set_count : ℕ → ℕ → R → Outcome R (Unit {0})
  check_set_count offset count r =
      if count == 0 || ltb 8 count
      then fail (make_byte_error ErrorCode.syntax_error offset) r
      else ok tt r

  -- The slice grid; the value is the stream and the number of table sets. `checked_u32` of
  -- `value + 1` cannot refuse behind the test.
  unfoldable pub parse_grid : StreamParameters → R → Outcome R (StreamParameters × ℕ)
  parse_grid stream =
      if leb_ℤ (pos 3) stream.version
      then (reader.read_unsigned >>= λ columns.
          refuse ErrorCode.syntax_error (leb max_uint32 columns)
          >> (reader.read_unsigned >>= λ rows.
              refuse ErrorCode.syntax_error (leb max_uint32 rows) >> (λ r.
                (reader.read_unsigned >>= λ count.
                check_set_count (reader.byte_position r) count
                >> return
                    (record stream { num_h_slices = columns + 1; num_v_slices = rows + 1 }, count))
                  r)))
      else return (stream, 1)

  unfoldable pub parse_sets : ℕ → R → Outcome R (List QuantTableSet)
  parse_sets zero = return []
  parse_sets (suc left) = parse_quant_table_set reader >>= λ table_set.
      parse_sets left >>= λ table_sets. return (table_set ∷ table_sets)

  -- The states of one context from `state_index` on, each with its prediction.
  unfoldable pub parse_state : ℕ → InitialState → R → Outcome R InitialState
  parse_state state_index [] = return []
  parse_state state_index (prediction ∷ predictions) =
      reader.read_signed_in state_index >>= λ delta.
      parse_state (state_index + 1) predictions >>= λ states.
      return ((prediction + to_byte delta) % 256 ∷ states)

  -- The contexts that are left; each predicts the next.
  unfoldable pub parse_contexts : ℕ → InitialState → R → Outcome R (List InitialState)
  parse_contexts zero prediction = return []
  parse_contexts (suc left) prediction = parse_state 0 prediction >>= λ states.
      parse_contexts left states >>= λ contexts. return (states ∷ contexts)

  unfoldable pub parse_initial_states : List QuantTableSet → R → Outcome R (List InitialStateSet)
  parse_initial_states [] = return []
  parse_initial_states (table_set ∷ table_sets) = reader.read_bool >>= λ coded.
      (if coded then parse_contexts table_set.context_count first_prediction else return [])
      >>= λ contexts.
          parse_initial_states table_sets >>= λ sets. return (record { contexts = contexts } ∷ sets)

  -- What a version 3 configuration has behind the tables.
  unfoldable pub parse_version3_tail : StreamParameters → R → Outcome R StreamParameters
  parse_version3_tail stream =
      if leb_ℤ (pos 3) stream.version
      then (parse_initial_states stream.quant_table_sets >>= λ initial_states.
          reader.read_unsigned >>= λ ec.
          refuse ErrorCode.unsupported_feature (ltb 1 ec)
          >> (reader.read_unsigned >>= λ intra.
              refuse ErrorCode.unsupported_feature (ltb 1 intra)
              >> return (record stream {
                initial_states = initial_states;
                error_status_enabled = ec == 1;
                intra_only = intra == 1;
              })))
      else return stream

  -- What follows the version; the value is the stream and `apply_custom_state_transition`.
  unfoldable pub parse_versioned : StreamParameters → R → Outcome R (StreamParameters × Bool)
  parse_versioned versioned = parse_micro_version versioned >>= λ micro_versioned.
      parse_entropy_mode micro_versioned >>= λ (coded, custom).
      parse_colorspace coded >>= λ colored. parse_bit_depth colored >>= λ deep.
      parse_planes deep >>= λ planar. parse_grid planar >>= λ (sliced, count).
      parse_sets count >>= λ table_sets.
      parse_version3_tail (record sliced { quant_table_sets = table_sets }) >>= λ stream.
      return (stream, custom)

  -- All that is read.
  unfoldable pub parse_symbols : R → Outcome R (StreamParameters × Bool)
  parse_symbols = parse_version new_stream >>= parse_versioned

  unfoldable pub parse : R → Outcome R StreamParameters
  parse = parse_symbols >>= λ (stream, custom).
      (if custom then reader.set_state_transition stream.state_transition else return tt)
      >> return stream
