-- ===== src/Codec/Configuration/RoundTrip.antt =====
-- Whole configurations through a channel of symbols: write_parameters of
-- src/codec/configuration_record_writer.cpp and parse of src/mffv1/configuration_parser.cpp.
use mffv.Common.{
  ℕ, ◌+◌, ◌-◌, ◌*◌, ◌^◌, ◌≤◌, ◌<◌, ◌≡◌, refl, sym, arith, List, ◌++◌, true, false, length, take,
  drop,
}
use mffv.Common.Int.{ℤ, pos, pos_part, eqb_ℤ}
use mffv.Common.Status.{ok, return, >>=-ok, >>=-tt}
use mffv.Range.Transition.{default_state_transition}
use mffv.Syntax.Profile.{
  has_invalid_rgb_geometry, is_supported_chroma_subsampling, is_supported_encoder_bit_depth,
  is_supported_syntax_colorspace,
}
use mffv.Syntax.Stream.{StreamParameters}
use mffv.Codec.Symbols.{SymbolReader, SymbolWriter, Channel}
use mffv.Codec.Configuration.Contexts.{Nested}
use mffv.Codec.Configuration.Accepted.{IsAccepted, accepted_anywhere, validate_initial_profile_lem}
use mffv.Codec.Configuration.Parser.{new_stream, parse_sets, parse_symbols, parse_versioned}
use mffv.Codec.Configuration.Writer.{
  has_custom_state_transition, validate_initial_profile, write_parameters, write_sets,
  write_symbols, write_tail, write_versioned,
}
use mffv.Codec.Configuration.ParameterSteps.{
  AllCodable, bit_depth_coded, colorspace_coded, decoded_states, grid_coded, micro_version_coded,
  planes_coded, sets_coded, sets_of, version_coded,
}
use mffv.Codec.Configuration.EntropyRoundTrip.{decoded_transition, entropy_coded}
use mffv.Codec.Configuration.TailRoundTrip.{tail_coded}
use mffv.Codec.Configuration.StatesRoundTrip.{AreBytes}
use mffv.Codec.Configuration.StateSetsRoundTrip.{AllStateSets, states_room}
use mathlib.Core.Path.{subst}

-- What a configuration carries of a stream: not its dimensions, no transitions but those of a
-- custom range code, and a set of initial states for each table set.
abbrev pub decoded : StreamParameters → StreamParameters
decoded stream = record stream {
  width = 0;
  height = 0;
  state_transition = decoded_transition stream;
  initial_states = decoded_states stream;
}

-- What the writer and the types of the code ask of a stream.
pub record IsWritable (stream : StreamParameters) (runs : List (List (List ℕ))) : Type 0 where
  pub accepted : validate_initial_profile {S = Unit {0}} stream tt ≡ ok tt tt
  pub tables : stream.quant_table_sets ≡ sets_of runs
  pub codable : AllCodable runs
  pub grid : (stream.num_h_slices < 2 ^ 32) × (stream.num_v_slices < 2 ^ 32)
  pub transitions : AreBytes (drop 1 stream.state_transition) (drop 1 default_state_transition)
  pub first :
      take 1 default_state_transition ++ drop 1 stream.state_transition ≡ stream.state_transition
  pub states : AllStateSets stream.initial_states

-- The bytes that a configuration may need.
abbrev pub parameters_room : StreamParameters → List (List (List ℕ)) → ℕ
parameters_room stream runs =
    2794
    + 127 * length (drop 1 stream.state_transition)
    + 81280 * length runs
    + states_room stream.initial_states

module _ (stream : StreamParameters) (a : IsAccepted stream) where
  version_3 : pos 3 ≡ stream.version
  version_3 = ground (arith, a.versions)

  micro_version_4 : pos 4 ≡ stream.micro_version
  micro_version_4 = ground (arith, a.versions)

  known_colorspace : pos (pos_part stream.colorspace_type) ≡ stream.colorspace_type
  unfolding is_supported_syntax_colorspace
  known_colorspace = ground (arith, a.format)

  is_known : is_supported_syntax_colorspace stream.colorspace_type ≡ true
  is_known = ground (arith, a.format)

  is_deep : is_supported_encoder_bit_depth stream.bits_per_raw_sample ≡ true
  is_deep = ground (arith, a.format)

  small_exponents : (stream.log2_h_chroma_subsample < 256) × (stream.log2_v_chroma_subsample < 256)
  unfolding is_supported_chroma_subsampling
  small_exponents = (ground (arith, a.subsampling), ground (arith, a.subsampling))

-- The stream as the parser fills it.
abbrev pub versioned : StreamParameters
versioned = record new_stream { version = pos 3 }

abbrev micro_versioned : StreamParameters
micro_versioned = record versioned { micro_version = pos 4 }

module _ (stream : StreamParameters) where
  abbrev coded : StreamParameters
  coded = record micro_versioned {
    entropy_mode = stream.entropy_mode;
    state_transition = decoded_transition stream;
  }

  abbrev colored : StreamParameters
  colored = record coded { colorspace_type = pos (pos_part stream.colorspace_type) }

  abbrev deep : StreamParameters
  deep = record colored { bits_per_raw_sample = stream.bits_per_raw_sample }

  abbrev planar : StreamParameters
  planar = record deep {
    chroma_planes = stream.chroma_planes;
    log2_h_chroma_subsample = stream.log2_h_chroma_subsample;
    log2_v_chroma_subsample = stream.log2_v_chroma_subsample;
    extra_plane = stream.extra_plane;
  }

  abbrev sliced : StreamParameters
  sliced = record planar { num_h_slices = stream.num_h_slices; num_v_slices = stream.num_v_slices }

  abbrev whole : StreamParameters
  whole = record sliced {
    quant_table_sets = stream.quant_table_sets;
    initial_states = decoded_states stream;
    error_status_enabled = stream.error_status_enabled;
    intra_only = stream.intra_only;
  }

  restored : IsAccepted stream → whole ≡ decoded stream
  restored a = λ i. record (decoded stream) {
    version = version_3 stream a i;
    micro_version = micro_version_4 stream a i;
    colorspace_type = known_colorspace stream a i;
  }

  valid_rgb :
      IsAccepted stream
      → has_invalid_rgb_geometry
          (eqb_ℤ (pos (pos_part stream.colorspace_type)) (pos 1))
          stream.chroma_planes
          stream.log2_h_chroma_subsample
          stream.log2_v_chroma_subsample
        ≡ false
  valid_rgb a =
      subst
        (λ (c : ℤ).
          has_invalid_rgb_geometry (eqb_ℤ c (pos 1)) stream.chroma_planes
            stream.log2_h_chroma_subsample stream.log2_v_chroma_subsample
          ≡ false)
        (sym (known_colorspace stream a)) a.rgb

module _ {W R : Type 0} {writer : SymbolWriter W} {reader : SymbolReader R}
    (inner channel : Channel writer reader) (nested : Nested inner channel)
    (wide : 32 ≤ channel.contexts) where
  -- What follows the version.
  pub versioned_coded :
      (stream : StreamParameters) (runs : List (List (List ℕ)))
      → IsAccepted stream
      → IsWritable stream runs
      → channel.Codes
          (write_versioned writer stream)
          tt
          (parse_versioned reader versioned)
          (decoded stream, has_custom_state_transition stream)
          (parameters_room stream runs - 127)
  unfolding write_versioned parse_versioned
  versioned_coded stream runs a h =
      let n = 81280 * length runs in
      let m = 1270 + states_room stream.initial_states in
      let t = 127 + 127 * length (drop 1 stream.state_transition) in
      let sets : channel.Codes (write_sets writer stream.quant_table_sets) tt
          (parse_sets reader (length stream.quant_table_sets)) stream.quant_table_sets n =
        rw h.tables (sets_coded channel inner nested runs h.codable) in
      let custom = has_custom_state_transition stream in
      let small = small_exponents stream a in
      subst
        (λ (b : StreamParameters).
          channel.Codes (write_versioned writer stream) tt (parse_versioned reader versioned)
            (b, custom) (parameters_room stream runs - 127))
        (restored stream a)
        (channel.respects {n = 127 + (t + (127 + (127 + (508 + (381 + (n + (m + 0)))))))}
          (omega arith) (λ e. refl) (λ c. refl)
          (channel.composes _ _ _ _ 127 _ (micro_version_coded channel new_stream) (
            channel.composes _ _ _ _ t _
              (entropy_coded channel micro_versioned stream h.transitions h.first)
              (channel.composes _ _ _ _ 127 _
                (colorspace_coded channel (coded stream) (pos_part stream.colorspace_type)
                  (rw (known_colorspace stream a) (is_known stream a)))
                (channel.composes _ _ _ _ 127 _
                  (bit_depth_coded channel (colored stream) stream.bits_per_raw_sample
                    (is_deep stream a))
                  (channel.composes _ _ _ _ 508 _
                    (planes_coded channel (deep stream) stream small.0 small.1 (valid_rgb stream a))
                    (channel.composes _ _ _ _ 381 _
                      (grid_coded channel (planar stream) stream a.grid h.grid a.sets)
                      (channel.composes _ _ _ _ n _ sets (
                        channel.respects {n = m + 0} (omega arith)
                          (λ e. >>=-tt (write_tail writer stream) e) (λ c. refl)
                          (channel.composes _ (λ _. return tt) _ _ m 0
                            (tail_coded channel (sliced stream) stream wide a h.states)
                            (channel.returns tt (whole stream, custom))))))))))))

  -- Over every channel of symbols with 32 contexts and an inner channel for independent contexts,
  -- a stream that the checks of the writer accept, whose tables are made of runs, whose states and
  -- transitions are bytes, whose first transition is the default one and whose slice grid is below
  -- 2^32 is written, and what the parser reads is the stream without its dimensions, with a set of
  -- initial states for each table set and with the default transitions where none are coded, and
  -- whether transitions are coded.
  pub parse_symbols-write_parameters-Codes :
      (stream : StreamParameters) (runs : List (List (List ℕ)))
      → IsWritable stream runs
      → channel.Codes
          (write_parameters writer stream)
          tt
          (parse_symbols reader)
          (decoded stream, has_custom_state_transition stream)
          (parameters_room stream runs)
  unfolding write_parameters write_symbols parse_symbols
  parse_symbols-write_parameters-Codes stream runs h =
      let a = validate_initial_profile_lem stream tt h.accepted in
      channel.respects {n = 127 + (parameters_room stream runs - 127)} (omega arith)
        (λ e.
          >>=-ok (validate_initial_profile stream) (λ _. write_symbols writer stream)
            (accepted_anywhere stream a e))
        (λ c. refl)
        (channel.composes _ _ _ _ 127 (parameters_room stream runs - 127)
          (version_coded channel new_stream) (versioned_coded stream runs a h))
