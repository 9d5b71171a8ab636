-- ===== src/Codec/Configuration/Record.antt =====
-- src/codec/configuration_record_writer.cpp: write and append_crc_parity, and
-- src/codec/configuration_record_parser.cpp: parse. Both run a range coder of their own, which is
-- the state of these functions.
use mffv.Common.{
  ℕ, ◌-◌, ◌/◌, ◌%◌, ◌^◌, List, [], ◌∷◌, ◌++◌, not, ltb, leb, ◌==◌, if◌then◌else◌, length, take,
}
use mffv.Common.Status.{
  ErrorCode, make_error, make_byte_error, Outcome, ok, fail, ◌>>=◌, ◌>>◌, return, refuse,
}
use mffv.Util.Crc32.{crc32_ieee_msb}
use mffv.Range.Contexts.{default_initial_state}
use mffv.Range.Coder.{RangeCoder, new_coder, reset_one}
use mffv.Range.Encoder.{EncoderAction, reset_counts}
use mffv.Range.Finish.{finalize}
use mffv.Range.Read.{read_unsigned}
use mffv.Syntax.Stream.{StreamParameters}
use mffv.Codec.Symbols.RangeChannel.{range_reader, range_writer}
use mffv.Codec.Configuration.Parser
use mffv.Codec.Configuration.Writer.{validate_initial_profile, write_parameters}

-- `InitialState{}.size()`
abbrev pub state_count : ℕ
state_count = 32

-- The four bytes of the CRC, the highest first; `max_size` is that of the vector.
unfoldable pub append_crc_parity : ℕ → List ℕ → EncoderAction (List ℕ)
append_crc_parity max_size bytes =
    let crc = crc32_ieee_msb bytes in
    refuse ErrorCode.resource_exhausted (ltb (max_size - 4) (length bytes))
    >> return
        (bytes ++ crc / 2 ^ 24 % 256 ∷ crc / 2 ^ 16 % 256 ∷ crc / 2 ^ 8 % 256 ∷ crc % 256 ∷ [])

-- The record, written by an encoder that starts as `new_encoder max_size`.
unfoldable pub write : StreamParameters → EncoderAction (List ℕ)
unfolding append_crc_parity
write stream e =
    (validate_initial_profile stream
        >> (reset_counts (state_count ∷ []) default_initial_state
            >> (write_parameters range_writer stream
                >> (finalize >>= append_crc_parity e.max_size))))
      e

-- What the CRC says of a record of a version.
unfoldable pub check_record : ℕ → List ℕ → RangeCoder → Outcome RangeCoder (List ℕ)
check_record version record_bytes c =
    if not (leb 3 version)
    then ok record_bytes c
    else if ltb (length record_bytes) 4
    then fail (make_byte_error ErrorCode.syntax_error 0) c
    else if not (crc32_ieee_msb record_bytes == 0)
    then fail (make_byte_error ErrorCode.crc_mismatch (length record_bytes - 4)) c
    else ok (take (length record_bytes - 4) record_bytes) c

-- The version is read by a probe; the parameters by a second reader, on the bytes before the CRC.
unfoldable pub parse : List ℕ → Outcome RangeCoder StreamParameters
unfolding check_record new_coder
parse record_bytes =
    if length record_bytes == 0
    then fail (make_error ErrorCode.invalid_argument) new_coder
    else (reset_one record_bytes 1 default_initial_state
          >> (read_unsigned 0 0 >>= λ version.
              check_record version record_bytes >>= λ parameter_payload probe.
              (reset_one parameter_payload state_count default_initial_state
                  >> Parser.parse range_reader)
                new_coder))
        new_coder
