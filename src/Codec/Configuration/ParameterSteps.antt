-- ===== src/Codec/Configuration/ParameterSteps.antt =====
-- The fields of a configuration through a channel of symbols, one for each part of the parser.
use mffv.Common.{
  ℕ, ◌+◌, ◌-◌, ◌*◌, ◌^◌, ◌≤◌, ◌<◌, ◌≡◌, refl, arith, List, [], ◌∷◌, true, false, not, ◌||◌, ltb,
  leb, ◌==◌, if◌then◌else◌, length,
}
use mffv.Common.Int.{pos, eqb_ℤ}
use mffv.Common.Status.{ErrorCode, Outcome, ◌>>=◌, ◌>>◌, ok, return, >>=-ok, >>=-tt}
use mffv.Syntax.Profile.{
  has_invalid_rgb_geometry, is_supported_decoder_bit_depth, is_supported_encoder_bit_depth,
  is_supported_syntax_colorspace,
}
use mffv.Syntax.Stream.{InitialStateSet, QuantTableSet, StreamParameters}
use mffv.Codec.Symbols.{SymbolReader, SymbolWriter, Channel}
use mffv.Codec.Symbols.Steps.{then_unsigned, then_bool, last_unsigned, reader_passes}
use mffv.Codec.Configuration.Contexts.{Nested}
use mffv.Codec.Configuration.Parser.{
  check_set_count, parse_bit_depth, parse_colorspace, parse_grid, parse_micro_version, parse_planes,
  parse_sets, parse_version,
}
use mffv.Codec.Configuration.Writer.{write_grid, write_planes, write_sets}
use mffv.Codec.Configuration.Tables.{max_int32}
use mffv.Codec.Configuration.Runs.{IsCodable, set_of}
use mffv.Codec.Configuration.SetRoundTrip.{parse_quant_table_set-write_quant_table_set-Codes}
use mffv.Codec.Configuration.StatesRoundTrip.{consed}
use mffv.Codec.Configuration.StateSetsRoundTrip.{blank_sets}
use mathlib.Core.Path.{subst}

abbrev pub sets_of : List (List (List ℕ)) → List QuantTableSet
sets_of [] = []
sets_of (runs ∷ more) = set_of runs ∷ sets_of more

abbrev pub AllCodable : List (List (List ℕ)) → Type 0
AllCodable [] = Unit {0}
AllCodable (runs ∷ more) = IsCodable runs × AllCodable more

-- The states that the parser gives a stream: an empty set for each table set where none is written.
abbrev pub decoded_states : StreamParameters → List InitialStateSet
decoded_states stream =
    if length stream.initial_states == 0
    then blank_sets stream.quant_table_sets
    else stream.initial_states

module _ {W R : Type 0} {writer : SymbolWriter W} {reader : SymbolReader R}
    (channel : Channel writer reader) where
  pub version_coded :
      (s : StreamParameters)
      → channel.Codes
          (writer.write_unsigned 3)
          tt
          (parse_version reader s)
          (record s { version = pos 3 })
          127
  unfolding parse_version
  version_coded s =
      last_unsigned channel 3 _ (omega arith) (channel.returns tt (record s { version = pos 3 }))

  pub micro_version_coded :
      (s : StreamParameters)
      → channel.Codes
          (writer.write_unsigned 4)
          tt
          (parse_micro_version reader (record s { version = pos 3 }))
          (record s { version = pos 3; micro_version = pos 4 })
          127
  unfolding parse_micro_version
  micro_version_coded s =
      last_unsigned channel 4 _ (omega arith)
        (channel.returns tt (record s { version = pos 3; micro_version = pos 4 }))

  pub colorspace_coded :
      (s : StreamParameters) (n : ℕ)
      → is_supported_syntax_colorspace (pos n) ≡ true
      → channel.Codes
          (writer.write_unsigned n)
          tt
          (parse_colorspace reader s)
          (record s { colorspace_type = pos n })
          127
  unfolding parse_colorspace is_supported_syntax_colorspace
  colorspace_coded s n known =
      let small : n < 2 = ground (arith, known) in
      last_unsigned channel n _ (omega (arith, small)) (
        reader_passes channel ErrorCode.syntax_error (ltb max_int32 n) (ground (arith, small)) (
          reader_passes channel ErrorCode.unsupported_feature
            (not (is_supported_syntax_colorspace (pos n))) (rw known refl)
            (channel.returns tt (record s { colorspace_type = pos n }))))

  pub bit_depth_coded :
      (s : StreamParameters) (n : ℕ)
      → is_supported_encoder_bit_depth n ≡ true
      → channel.Codes
          (writer.write_unsigned n)
          tt
          (parse_bit_depth reader (record s { version = pos 3 }))
          (record s { version = pos 3; bits_per_raw_sample = n })
          127
  unfolding parse_bit_depth is_supported_encoder_bit_depth is_supported_decoder_bit_depth
  bit_depth_coded s n known =
      let some : 1 ≤ n = ground (arith, known) in
      let small : n ≤ 16 = ground (arith, known) in
      let nonzero : (n == 0) ≡ false = ground (arith, some) in
      last_unsigned channel n _ (omega (arith, small)) (
        rw nonzero (
          reader_passes channel ErrorCode.unsupported_feature (ltb 16 n) (ground (arith, small)) (
            reader_passes channel ErrorCode.unsupported_feature
              (not (is_supported_decoder_bit_depth n)) (ground (arith, some, small))
              (channel.returns tt (record s { version = pos 3; bits_per_raw_sample = n })))))

  pub planes_coded :
      (s stream : StreamParameters)
      → stream.log2_h_chroma_subsample < 256
      → stream.log2_v_chroma_subsample < 256
      → has_invalid_rgb_geometry
          (eqb_ℤ s.colorspace_type (pos 1))
          stream.chroma_planes
          stream.log2_h_chroma_subsample
          stream.log2_v_chroma_subsample
        ≡ false
      → channel.Codes
          (write_planes writer stream)
          tt
          (parse_planes reader s)
          (record s {
            chroma_planes = stream.chroma_planes;
            log2_h_chroma_subsample = stream.log2_h_chroma_subsample;
            log2_v_chroma_subsample = stream.log2_v_chroma_subsample;
            extra_plane = stream.extra_plane;
          })
          508
  unfolding write_planes parse_planes
  planes_coded s stream h v rgb = then_bool channel stream.chroma_planes _ 381 (
      then_unsigned channel stream.log2_h_chroma_subsample _ 254 (omega (arith, h)) (
        reader_passes channel ErrorCode.syntax_error _ (ground (arith, h)) (
          then_unsigned channel stream.log2_v_chroma_subsample _ 127 (omega (arith, v)) (
            reader_passes channel ErrorCode.syntax_error _ (ground (arith, v)) (
              channel.respects {n = 127 + 0} (omega arith)
                (λ e. >>=-tt (writer.write_bool stream.extra_plane) e) (λ c. refl)
                (then_bool channel stream.extra_plane _ 0
                  (reader_passes channel ErrorCode.syntax_error _ rgb (channel.returns tt _))))))))

  pub sets_coded :
      (inner : Channel writer reader)
      → Nested inner channel
      → (runs : List (List (List ℕ))) → AllCodable runs
      → channel.Codes
          (write_sets writer (sets_of runs))
          tt
          (parse_sets reader (length (sets_of runs)))
          (sets_of runs)
          (81280 * length runs)
  unfolding write_sets parse_sets
  sets_coded inner nested [] h = channel.returns tt []
  sets_coded inner nested (runs ∷ more) (h, h') =
      channel.respects {n = 81280 + 81280 * length more} (omega arith) (λ e. refl) (λ c. refl)
        (channel.composes _ (λ _. write_sets writer (sets_of more)) _ _ 81280 (81280 * length more)
          (parse_quant_table_set-write_quant_table_set-Codes inner channel nested runs h)
          (consed channel (set_of runs) (sets_coded inner nested more h')))

  -- The number of the table sets.
  abbrev counted : StreamParameters → R → Outcome R (StreamParameters × ℕ)
  counted t = λ r.
      (reader.read_unsigned >>= λ count.
      check_set_count reader (reader.byte_position r) count >> return (t, count))
        r

  count_coded :
      (t : StreamParameters) (count : ℕ)
      → (count == 0 || ltb 8 count) ≡ false
      → channel.Codes (writer.write_unsigned count) tt (counted t) (t, count) 127
  unfolding check_set_count
  count_coded t count few =
      let checked = λ (offset : ℕ) (c : R).
        let e : check_set_count reader offset count c ≡ ok tt c = rw few refl in e in
      channel.locates
        (λ offset. reader.read_unsigned >>= λ n. check_set_count reader offset n >> return (t, n))
        (λ offset. last_unsigned channel count _ (ground (arith, few)) (
          channel.respects (omega arith) (λ e. refl)
            (λ c. >>=-ok (check_set_count reader offset count) _ (checked offset c))
            (channel.returns tt (t, count))))

  pub grid_coded :
      (s stream : StreamParameters)
      → (stream.num_h_slices == 0 || stream.num_v_slices == 0) ≡ false
      → (stream.num_h_slices < 2 ^ 32) × (stream.num_v_slices < 2 ^ 32)
      → (length stream.quant_table_sets == 0 || ltb 8 (length stream.quant_table_sets)) ≡ false
      → channel.Codes
          (write_grid writer stream)
          tt
          (parse_grid reader (record s { version = pos 3 }))
          (
            record s {
              version = pos 3;
              num_h_slices = stream.num_h_slices;
              num_v_slices = stream.num_v_slices;
            },
            length stream.quant_table_sets,
          )
          381
  unfolding write_grid parse_grid
  grid_coded s stream some small sets =
      let columns = stream.num_h_slices in
      let rows = stream.num_v_slices in
      let count = length stream.quant_table_sets in
      let wide : columns - 1 + 1 ≡ columns = ground (arith, some) in
      let high : rows - 1 + 1 ≡ rows = ground (arith, some) in
      let read : StreamParameters = record s {
        version = pos 3;
        num_h_slices = columns - 1 + 1;
        num_v_slices = rows - 1 + 1;
      } in
      let wanted : StreamParameters = record s {
        version = pos 3;
        num_h_slices = columns;
        num_v_slices = rows;
      } in
      let same : read ≡ wanted =
        λ i. record s { version = pos 3; num_h_slices = wide i; num_v_slices = high i } in
      then_unsigned channel (columns - 1) _ 254 (omega (arith, small.0)) (
        reader_passes channel ErrorCode.syntax_error (leb (2 ^ 32 - 1) (columns - 1))
          (ground (arith, small.0, wide))
          (then_unsigned channel (rows - 1) _ 127 (omega (arith, small.1)) (
            reader_passes channel ErrorCode.syntax_error (leb (2 ^ 32 - 1) (rows - 1))
              (ground (arith, small.1, high))
              (subst
                (λ (t : StreamParameters).
                  channel.Codes (writer.write_unsigned count) tt (counted read) (t, count) 127)
                same (count_coded read count sets)))))
