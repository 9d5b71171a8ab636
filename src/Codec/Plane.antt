-- ===== src/Codec/Plane.antt =====
-- The range-coded samples of a plane: the class `LineState`, `decode_range_line` and the planar loops
-- of src/codec/slice_decoder.cpp, and `encode_samples` of src/codec/slice_encoder.cpp. Offsets are
-- positions in memory, so their sums do not wrap.
pub mod Samples
pub mod Lossless
use mffv.Common.{
  ℕ, zero, suc, ◌+◌, ◌-◌, ◌^◌, List, [], ◌∷◌, Bool, true, false, ◌||◌, ltb, leb, ◌==◌, ◌%◌,
  if◌then◌else◌, length, get_or, set, replicate, Option, none, some,
}
use mffv.Common.Int.{ℤ, pos, negsuc, ltb_ℤ, ◌-ℤ◌}
use mffv.Common.Status.{
  ErrorCode, Status, make_error, set_byte_location_if_missing, Outcome, ok, fail, ◌>>=◌, return,
}
use mffv.Syntax.Stream.{QuantTableSet}
use mffv.Syntax.Predictor.{median_predict, median_predict_signed_16bit, reconstruct, difference}
use mffv.Syntax.ContextModel.{NeighborSamples, ContextDecision, derive_context}
use mffv.Golomb.Context.{to_u64}
use mffv.Range.Coder.{RangeCoder, Action}
use mffv.Range.Encoder.{EncoderAction}
use mffv.Range.Read.{read_signed}
use mffv.Range.Write.{write_signed}

pub record LineState : Type 0 where
  pub border_value : ℤ
  pub second_previous : List ℤ
  pub previous : List ℤ
  pub current : List ℤ

unfoldable pub reset : ℕ → ℤ → LineState → Outcome LineState (Unit {0})
reset width border_value line =
    if width == 0
    then fail (make_error ErrorCode.invalid_argument) line
    else ok tt (record {
      border_value = border_value;
      second_previous = replicate width border_value;
      previous = replicate width border_value;
      current = replicate width border_value;
    })

unfoldable pub neighbors : LineState → ℕ → NeighborSamples
neighbors line x = record {
  far_left =
      if ltb 1 x
      then get_or line.current (x - 2) (pos 0)
      else if x == 1
      then get_or line.previous 0 (pos 0)
      else line.border_value;
  left = if ltb 0 x then get_or line.current (x - 1) (pos 0) else get_or line.previous 0 (pos 0);
  top = get_or line.previous x (pos 0);
  top_left =
      if ltb 0 x
      then get_or line.previous (x - 1) (pos 0)
      else get_or line.second_previous 0 (pos 0);
  top_right =
      if ltb (x + 1) (length line.current)
      then get_or line.previous (x + 1) (pos 0)
      else get_or line.previous x (pos 0);
  top_top = get_or line.second_previous x (pos 0);
}

unfoldable pub swap_lines : LineState → LineState
swap_lines line = record line {
  second_previous = line.previous;
  previous = line.current;
  current = replicate (length line.previous) line.border_value;
}

-- `line.mutable_current()[x] = sample`
unfoldable pub set_current : LineState → ℕ → ℤ → LineState
set_current line x sample = record line { current = set line.current x sample }

-- The prediction of both sides.
unfoldable pub predict : Bool → NeighborSamples → ℤ
predict signed_16bit_prediction n =
    if signed_16bit_prediction
    then median_predict_signed_16bit n.left n.top n.top_left
    else median_predict n.left n.top n.top_left

abbrev pub negate_if : Bool → ℤ → ℤ
negate_if invert d = if invert then pos 0 -ℤ d else d

-- A decision that is not made yet.
abbrev pub no_decision : ContextDecision
no_decision = record { context = 0; invert_difference = false }

-- The tables, the bank and the widths that all samples of a plane share.
pub record PlaneCoding : Type 0 where
  pub quant_tables : QuantTableSet
  pub context_bank : ℕ
  pub bits : ℕ
  pub use_signed_16bit_prediction : Bool

-- What is known of a sample before it is coded: its prediction and its context.
unfoldable pub with_context :
    {S A : Type 0}
    → PlaneCoding
    → LineState
    → ℕ
    → (ℤ → ContextDecision → S → Outcome S A)
    → S
    → Outcome S A
with_context p line x k s =
    let n = neighbors line x in
    elim (derive_context p.quant_tables n no_decision) [
      | ok _ decision ↦ k (predict p.use_signed_16bit_prediction n) decision s
      | fail status _ ↦ fail status s
    ]

-- The lambda `encode_sample`; the value is the line with the sample in it.
unfoldable pub encode_sample : PlaneCoding → ℤ → LineState → ℕ → EncoderAction LineState
encode_sample p sample line x = with_context p line x (λ prediction decision.
    write_signed p.context_bank decision.context
      (negate_if decision.invert_difference (difference sample prediction p.bits))
    >>= λ _. return (set_current line x sample))

-- `set_reader_byte_offset`, for the failures of a call of the reader.
unfoldable pub relocated : {A : Type 0} → ℕ → Action A → Action A
relocated base_offset m c = elim (m c) [
  | ok a c' ↦ ok a c'
  | fail status c' ↦
      fail
        (elim (status.location.byte_offset) [
          | some offset ↦ record status {
            location = record (status.location) { byte_offset = some (offset + base_offset) };
          }
          | none ↦ set_byte_location_if_missing status (base_offset + c'.byte_position)
        ])
        c'
]

-- The body of the loop of `decode_range_line`.
unfoldable pub decode_sample : PlaneCoding → ℕ → LineState → ℕ → Action LineState
decode_sample p base_offset line x = with_context p line x (λ prediction decision.
    relocated base_offset (read_signed p.context_bank decision.context) >>= λ read.
    let difference64 = negate_if decision.invert_difference read in
    if ltb_ℤ difference64 (negsuc (2 ^ 31 - 1)) || ltb_ℤ (pos (2 ^ 31 - 1)) difference64
    then (λ c. fail (make_error ErrorCode.syntax_error) c)
    else return (set_current line x (reconstruct prediction difference64 p.bits)))

-- The loop of `decode_range_line`, with the rounds left.
unfoldable pub decode_range_line : PlaneCoding → ℕ → ℕ → ℕ → LineState → Action LineState
decode_range_line p base_offset zero x line = return line
decode_range_line p base_offset (suc left) x line =
    decode_sample p base_offset line x >>= decode_range_line p base_offset left (x + 1)

-- The inner loop of `encode_samples` over the samples of a row: each is checked when it is read.
unfoldable pub encode_row : PlaneCoding → List ℕ → ℕ → LineState → EncoderAction LineState
encode_row p [] x line = return line
encode_row p (sample ∷ samples) x line =
    if ltb (2 ^ p.bits - 1) sample
    then (λ e. fail (make_error ErrorCode.invalid_argument) e)
    else encode_sample p (pos sample) line x >>= encode_row p samples (x + 1)

-- The rows of a plane.
unfoldable pub encode_plane : PlaneCoding → List (List ℕ) → LineState → EncoderAction LineState
encode_plane p [] line = return line
encode_plane p (row ∷ rows) line =
    encode_row p row 0 line >>= λ coded. encode_plane p rows (swap_lines coded)

-- `static_cast<std::uint8_t>` or `static_cast<std::uint16_t>` of a sample of a line.
unfoldable pub stored_sample : ℕ → ℤ → ℕ
stored_sample bits v = if leb bits 8 then to_u64 v % 2 ^ 8 else to_u64 v % 2 ^ 16

-- The row that `store_planar_line` writes.
unfoldable pub stored_row : ℕ → ℕ → List ℤ → List ℕ
stored_row bits zero vs = []
stored_row bits (suc left) [] = []
stored_row bits (suc left) (v ∷ vs) = stored_sample bits v ∷ stored_row bits left vs

-- The loop over the rows of a plane, with the rows left; the value is the rows that are stored and
-- the line after them.
unfoldable pub decode_plane :
    PlaneCoding → ℕ → ℕ → ℕ → LineState → Action (List (List ℕ) × LineState)
decode_plane p base_offset width zero line = return ([], line)
decode_plane p base_offset width (suc left) line =
    decode_range_line p base_offset width 0 line >>= λ decoded.
    decode_plane p base_offset width left (swap_lines decoded) >>= λ rest.
    return (stored_row p.bits width decoded.current ∷ rest.0, rest.1)
