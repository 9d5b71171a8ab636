-- ===== src/Codec/Configuration/Tests.antt =====
-- The theorems on configurations at concrete inputs.
use mffv.Common.{ℕ, ◌≡◌, refl, arith, List, [], ◌∷◌, Bool, true, false, ◌&&◌, ltb, drop}
use mffv.Common.Int.{pos}
use mffv.Common.Status.{ok}
use mffv.Range.Coder.{RangeCoder}
use mffv.Range.Encoder.{RangeEncoder, new_encoder}
use mffv.Range.Read.{read_unsigned}
use mffv.Range.Write.{write_unsigned}
use mffv.Range.Codes.{IsCoded}
use mffv.Range.RoundTrip.{write_unsigned-Codes}
use mffv.Range.Reset.{fresh, fresh-IsReady}
use mffv.Range.Transition.{default_state_transition}
use mffv.Syntax.Stream.{EntropyMode, StreamParameters}
use mffv.Codec.Symbols.RangeChannel.{range_channel, range_reader, range_writer}
use mffv.Codec.Configuration.Tables.{
  parse_quant_table_set, read_in_contexts, write_in_contexts, write_quant_table_set,
}
use mffv.Codec.Configuration.Runs.{IsCodable, set_of}
use mffv.Codec.Configuration.SetRoundTrip.{parse_quant_table_set-write_quant_table_set-Codes}
use mffv.Codec.Configuration.ParameterSteps.{sets_of}
use mffv.Codec.Configuration.Parser.{parse_symbols}
use mffv.Codec.Configuration.StatesRoundTrip.{AreBytes}
use mffv.Codec.Configuration.Writer.{
  has_custom_state_transition, validate_initial_profile, write_parameters,
}
use mffv.Codec.Configuration.RoundTrip.{
  IsWritable, decoded, parameters_room, parse_symbols-write_parameters-Codes,
}
use mffv.Codec.Configuration.Record
use mffv.Codec.Configuration.RecordRoundTrip.{parse-write}
use mffv.Codec.Configuration.RangeContexts.{range_channel-Nested, write_in_contexts-IsCoded}

-- A table of zeros and one of three values, the rest of zeros.
abbrev two_values : List (List ℕ)
two_values = (3 ∷ 123 ∷ []) ∷ (127 ∷ []) ∷ (9 ∷ 9 ∷ 107 ∷ []) ∷ (127 ∷ []) ∷ (127 ∷ []) ∷ []

two_values-IsCodable : IsCodable two_values
two_values-IsCodable = record {
  five = refl;
  full = (refl, (refl, (refl, (refl, (refl, tt)))));
  few_contexts = omega arith;
}

-- A number coded in one context, while a bank of 32 contexts is in use.
write_in_contexts-IsCoded_example :
    (e' : RangeEncoder) × (write_in_contexts range_writer
        (write_unsigned 0 0 1000)
        (fresh 500 32 128)
      ≡ ok tt e')
    × (e'.scalar ≡ (fresh 500 32 128).scalar)
    × IsCoded (read_in_contexts range_reader (read_unsigned 0 0)) 1000 127 (fresh 500 32 128) e'
write_in_contexts-IsCoded_example =
    write_in_contexts-IsCoded (write_unsigned 0 0 1000) (read_unsigned 0 0) tt 1000 127
      (write_unsigned-Codes 0 0 1000 (omega arith)) (fresh 500 32 128)
      (fresh-IsReady 500 32 128 (omega arith, omega arith)) (unfold new_encoder in omega arith)

parse_quant_table_set-write_quant_table_set-Codes_example :
    (range_channel 31).Codes
      (write_quant_table_set range_writer (set_of two_values))
      tt
      (parse_quant_table_set range_reader)
      (set_of two_values)
      81280
parse_quant_table_set-write_quant_table_set-Codes_example =
    parse_quant_table_set-write_quant_table_set-Codes (range_channel 0) (range_channel 31)
      (range_channel-Nested 31) two_values two_values-IsCodable

all_bytes : List ℕ → Bool
all_bytes [] = true
all_bytes (x ∷ xs) = ltb x 256 && all_bytes xs

all_bytes-AreBytes : (xs : List ℕ) → all_bytes xs ≡ true → AreBytes xs xs
unfolding all_bytes
all_bytes-AreBytes [] h = tt
all_bytes-AreBytes (x ∷ xs) h =
    (ground (arith, h), ground (arith, h), all_bytes-AreBytes xs (ground (arith, h)))

-- A stream of two slices with a set of initial states.
abbrev stream : StreamParameters
stream = record {
  version = pos 3;
  micro_version = pos 4;
  entropy_mode = EntropyMode.range;
  width = 640;
  height = 480;
  bits_per_raw_sample = 10;
  colorspace_type = pos 0;
  chroma_planes = true;
  extra_plane = false;
  log2_h_chroma_subsample = 1;
  log2_v_chroma_subsample = 0;
  num_h_slices = 2;
  num_v_slices = 1;
  quant_table_sets = sets_of (two_values ∷ []);
  initial_states = [];
  state_transition = default_state_transition;
  error_status_enabled = true;
  intra_only = true;
}

stream-IsWritable : IsWritable stream (two_values ∷ [])
unfolding default_state_transition
stream-IsWritable = record {
  accepted = unfold validate_initial_profile in refl;
  tables = refl;
  codable = (two_values-IsCodable, tt);
  grid = (omega arith, omega arith);
  transitions = all_bytes-AreBytes (drop 1 default_state_transition) (unfold all_bytes in refl);
  first = refl;
  states = tt;
}

parse_symbols-write_parameters-Codes_example :
    (range_channel 31).Codes
      (write_parameters range_writer stream)
      tt
      (parse_symbols range_reader)
      (decoded stream, has_custom_state_transition stream)
      (parameters_room stream (two_values ∷ []))
parse_symbols-write_parameters-Codes_example =
    parse_symbols-write_parameters-Codes (range_channel 0) (range_channel 31)
      (range_channel-Nested 31) (unfold range_channel in omega arith) stream (two_values ∷ [])
      stream-IsWritable

parse-write_example :
    (record_bytes : List ℕ) × (e' : RangeEncoder) × (c : RangeCoder) × (Record.write stream
        (new_encoder 200000)
      ≡ ok record_bytes e')
    × (Record.parse record_bytes ≡ ok (decoded stream) c)
unfolding default_state_transition
parse-write_example =
    parse-write stream (two_values ∷ []) (new_encoder 200000) stream-IsWritable
      (unfold new_encoder in omega arith)
