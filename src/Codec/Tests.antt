-- ===== src/Codec/Tests.antt =====
-- The theorems on slices at concrete inputs.
use mffv.Common.{
  ℕ, zero, suc, ◌*◌, ◌≡◌, ◌≢◌, ◌⊎◌, refl, arith, List, [], ◌∷◌, ◌++◌, true, false, ◌==◌, get_or,
  replicate,
}
use mffv.Common.Int.{ℤ, pos, ◌+ℤ◌, abs}
use mffv.Common.Status.{ErrorCode, Status, make_error, ok, fail}
use mffv.Range.Transition.{default_state_transition}
use mffv.Range.Encoder.{RangeEncoder, new_encoder}
use mffv.Range.Codes.{IsCoded}
use mffv.Range.Live.{IsLive}
use mffv.Range.Reset.{fresh, fresh-IsReady}
use mffv.Syntax.Stream.{
  EntropyMode, StreamParameters, make_zero_quant_table_set, quant_table_set_index_count,
}
use mffv.Syntax.ContextModel.{context_input_index, folded_from, gradients}
use mffv.Codec.Descriptor.{SliceDescriptor, new_descriptor}
use mffv.Codec.Symbols.RangeChannel.{range_channel, range_reader, range_writer}
use mffv.Codec.SliceFooter.{append, read_from_end}
use mffv.Codec.SliceFooter.Bytes.{low_byte-lt}
use mffv.Codec.SliceFooter.RoundTrip.{IsAppendable, append_lem, footer_of}
use mffv.Codec.SliceFooter.Checked.{parsed, read_from_end-append, read_from_end-damaged}
use mffv.Codec.SliceHeader.{
  SliceHeaderValues, any_index_past, apply_raster, is_refused, is_reserved_picture_structure, read,
  write,
}
use mffv.Codec.SliceHeader.RoundTrip.{IsHeader, read-write-Codes}
use mffv.Codec.SliceHeader.Raster.{IsInFrame, apply_raster_lem}
use mffv.Codec.PayloadLocator.{locate_loop, locate_slices, numbered_from}
use mffv.Codec.PayloadLocator.RoundTrip.{Slice, found_all, frame_of, locate_slices-append}
use mffv.Codec.PayloadLocator.Termination.{locate_loop-rounds}
use mffv.Codec.Plane.{LineState, PlaneCoding, decode_plane, encode_plane}
use mffv.Codec.Plane.Samples.{Covers}
use mffv.Codec.Plane.Lossless.{after_rows, decode_plane-encode_plane}

abbrev stream : StreamParameters
stream = record {
  version = pos 3;
  micro_version = pos 4;
  entropy_mode = EntropyMode.range;
  width = 64;
  height = 48;
  bits_per_raw_sample = 8;
  colorspace_type = pos 0;
  chroma_planes = true;
  extra_plane = false;
  log2_h_chroma_subsample = 1;
  log2_v_chroma_subsample = 1;
  num_h_slices = 3;
  num_v_slices = 2;
  quant_table_sets = make_zero_quant_table_set ∷ [];
  initial_states = [];
  state_transition = default_state_transition;
  error_status_enabled = true;
  intra_only = false;
}

appendable : IsAppendable stream 1 (7 ∷ 8 ∷ [])
appendable = record {
  known_status = omega arith;
  status_enabled = λ h. cc;
  fits = omega arith;
  bytes = (omega arith, (omega arith, tt));
}

read_from_end-append_example :
    (bytes : List ℕ) × (append stream 1 (7 ∷ 8 ∷ []) ≡ ok tt bytes)
    × (read_from_end bytes stream true new_descriptor
        ≡ ok tt (parsed stream 1 (7 ∷ 8 ∷ []) new_descriptor))
read_from_end-append_example =
    read_from_end-append stream 1 (7 ∷ 8 ∷ []) true new_descriptor appendable

apart : (a b : ℕ) → (a == b) ≡ false → a ≢ b
apart a b e same = ground arith

abbrev behind : List ℕ
behind = 8 ∷ footer_of stream 1 (7 ∷ 8 ∷ [])

read_from_end-damaged_example :
    (status : Status) × (read_from_end ([] ++ (9 ∷ behind)) stream true new_descriptor
      ≡ fail status new_descriptor)
read_from_end-damaged_example =
    read_from_end-damaged stream 1 (7 ∷ 8 ∷ []) [] behind (7 ∷ behind) 7 9 new_descriptor appendable
      refl (append_lem stream 1 (7 ∷ 8 ∷ []) appendable) refl tt
      (
        omega arith,
        (
          low_byte-lt _,
          (
            low_byte-lt _,
            (
              low_byte-lt _,
              (omega arith, (low_byte-lt _, (low_byte-lt _, (low_byte-lt _, (low_byte-lt _, tt))))),
            ),
          ),
        ),
      )
      (omega arith) (omega arith) (apart 7 9 refl)

abbrev slices : List Slice
slices =
    record { error_status = 1; payload = 7 ∷ 8 ∷ [] }
    ∷ record { error_status = 1; payload = 7 ∷ 8 ∷ [] }
    ∷ []

locate_slices-append_example :
    locate_slices (frame_of stream slices) stream 6 true []
    ≡ ok tt (numbered_from 0 (found_all stream slices []))
locate_slices-append_example =
    locate_slices-append stream slices 6 true [] (appendable, (appendable, tt)) (omega arith)
      (omega arith) (omega arith)

locate_loop-rounds_example :
    locate_loop 5 (1 ∷ 2 ∷ 3 ∷ 4 ∷ []) stream true 4 6 []
    ≡ locate_loop 4 (1 ∷ 2 ∷ 3 ∷ 4 ∷ []) stream true 4 6 []
locate_loop-rounds_example =
    locate_loop-rounds 5 4 (1 ∷ 2 ∷ 3 ∷ 4 ∷ []) stream true 4 6 [] (omega arith) (omega arith)
      (omega arith)

abbrev header : SliceHeaderValues
header = record {
  x = 1;
  y = 0;
  width = 2;
  height = 1;
  quant_table_set_indexes = 0 ∷ 0 ∷ [];
  picture_structure = 0;
  sar_num = 16;
  sar_den = 15;
}

header-IsHeader : IsHeader stream header
header-IsHeader = record {
  accepted =
      unfold is_refused in unfold any_index_past in unfold is_reserved_picture_structure in refl;
  counted = unfold quant_table_set_index_count in refl;
  sar_given = refl;
  grid = (omega arith, omega arith);
  few_sets = omega arith;
  encodable = (omega arith, omega arith);
}

IsLive-128 : IsLive 128
IsLive-128 = (omega arith, omega arith)

abbrev start : RangeEncoder
start = fresh 5000 1 128

read-write-Codes_example :
    (e' : RangeEncoder) × (write range_writer stream header start ≡ ok tt e')
    × IsCoded (read range_reader stream) header (127 * 9) start e'
unfolding new_encoder range_channel
read-write-Codes_example =
    read-write-Codes (range_channel 0) stream header header-IsHeader start
      (fresh-IsReady 5000 1 128 IsLive-128) (omega arith) (omega arith) (omega arith)

apply_raster_lem_example :
    (apply_raster stream header new_descriptor
      ≡ fail (make_error ErrorCode.syntax_error) new_descriptor)
    ⊎ ((d : SliceDescriptor) × (apply_raster stream header new_descriptor ≡ ok tt d)
        × IsInFrame stream header d)
apply_raster_lem_example =
    apply_raster_lem stream header new_descriptor (omega arith) (omega arith) (omega arith)
      (omega arith)

-- A table of zeros gives no gradient a share.
get_or-replicate : (n i : ℕ) → get_or (replicate n (pos 0)) i (pos 0) ≡ pos 0
get_or-replicate zero i = refl
get_or-replicate (suc n) zero = refl
get_or-replicate (suc n) (suc i) = get_or-replicate n i

zero_sum : pos 0 +ℤ pos 0 ≡ pos 0
unfolding ◌+ℤ◌
zero_sum = refl

zeros_folded :
    (rounds : ℕ) (values : List ℤ)
    → folded_from (pos 0) (replicate rounds (replicate 256 (pos 0))) values ≡ pos 0
unfolding folded_from
zeros_folded zero [] = refl
zeros_folded zero (v ∷ vs) = refl
zeros_folded (suc n) [] = refl
zeros_folded (suc n) (v ∷ vs) =
    rw (get_or-replicate 256 (context_input_index v), zero_sum) (zeros_folded n vs)

zero_tables-Covers : Covers make_zero_quant_table_set
unfolding make_zero_quant_table_set
zero_tables-Covers n = rw (zeros_folded 5 (gradients n)) (unfold abs in omega arith)

abbrev plane : PlaneCoding
plane = record {
  quant_tables = make_zero_quant_table_set;
  context_bank = 0;
  bits = 8;
  use_signed_16bit_prediction = false;
}

abbrev line : LineState
line = record {
  border_value = pos 0;
  second_previous = pos 0 ∷ pos 0 ∷ [];
  previous = pos 0 ∷ pos 0 ∷ [];
  current = pos 0 ∷ pos 0 ∷ [];
}

abbrev rows : List (List ℕ)
rows = (10 ∷ 255 ∷ []) ∷ (0 ∷ 11 ∷ []) ∷ []

decode_plane-encode_plane_example :
    (e' : RangeEncoder) × (encode_plane plane rows line start ≡ ok (after_rows plane line rows) e')
    × IsCoded
        (decode_plane plane 0 2 2 line)
        (rows, after_rows plane line rows)
        (127 * 2 * 2)
        start
        e'
unfolding new_encoder
decode_plane-encode_plane_example =
    decode_plane-encode_plane plane 0 2 rows line zero_tables-Covers (omega arith) (omega arith)
      (refl, (omega arith, (omega arith, tt)), (refl, (omega arith, (omega arith, tt)), tt))
      (record { wide_previous = refl; wide_current = refl }) start
      (fresh-IsReady 5000 1 128 IsLive-128) (omega arith)
      (unfold make_zero_quant_table_set in omega arith) (omega arith)
