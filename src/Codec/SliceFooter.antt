-- ===== src/Codec/SliceFooter.antt =====
-- src/codec/slice_footer_writer.cpp and src/codec/slice_footer_parser.cpp.
pub mod Bytes
pub mod RoundTrip
pub mod Checked
use mffv.Common.{
  ℕ, ◌+◌, ◌-◌, ◌*◌, ◌/◌, ◌%◌, ◌^◌, bit_and, List, [], ◌∷◌, ◌++◌, Bool, true, false, not, ◌&&◌, ltb,
  ◌==◌, if◌then◌else◌, length, drop, take, Option, none, some,
}
use mffv.Common.Status.{
  ErrorCode, Status, make_error, make_byte_error, set_byte_location_if_missing, Outcome, ok, fail,
  ◌>>=◌, ◌>>◌, return,
}
use mffv.Bitstream.Reader.{BitReader, open_reader, byte_position, read_bits, require_byte_aligned}
use mffv.Syntax.Stream.{StreamParameters}
use mffv.Util.Crc32.{crc32_ieee_msb}
use mffv.Codec.Descriptor.{SliceDescriptor}

-- `static_cast<std::byte>(v & 0xffu)`
unfoldable pub low_byte : ℕ → ℕ
low_byte v = bit_and v 255

-- The payload with the size behind it.
unfoldable pub with_size : List ℕ → List ℕ
with_size payload =
    let slice_size = length payload in
    payload
    ++ (low_byte (slice_size / 2 ^ 16) ∷ low_byte (slice_size / 2 ^ 8) ∷ low_byte slice_size ∷ [])

-- With the error status and the CRC of all that is before it.
unfoldable pub with_crc : ℕ → List ℕ → List ℕ
with_crc error_status bytes =
    let completed = bytes ++ (error_status ∷ []) in
    let crc = crc32_ieee_msb completed in
    completed
    ++ (low_byte (crc / 2 ^ 24)
        ∷ low_byte (crc / 2 ^ 16)
        ∷ low_byte (crc / 2 ^ 8)
        ∷ low_byte crc
        ∷ [])

-- The writer `append`.
unfoldable pub append : StreamParameters → ℕ → List ℕ → Outcome (List ℕ) (Unit {0})
append stream error_status slice_payload =
    if not stream.error_status_enabled && not (error_status == 0)
    then fail (make_error ErrorCode.invalid_argument) slice_payload
    else if ltb 2 error_status
    then fail (make_error ErrorCode.invalid_argument) slice_payload
    else if ltb 0xffffff (length slice_payload)
    then fail (make_error ErrorCode.resource_exhausted) slice_payload
    else ok tt (
        if stream.error_status_enabled
        then with_crc error_status (with_size slice_payload)
        else with_size slice_payload)

unfoldable pub footer_size : StreamParameters → ℕ
footer_size stream = if stream.error_status_enabled then 8 else 3

-- A failure is located at the position before the step, unless it has a location. A reader that is
-- not aligned stays where it is, so this is also the position after that failure.
unfoldable pub located :
    {A : Type 0} → (BitReader → Outcome BitReader A) → BitReader → Outcome BitReader A
located m r = elim (m r) [
  | ok a r' ↦ ok a r'
  | fail s r' ↦ fail (set_byte_location_if_missing s (byte_position r)) r'
]

-- The error status, which starts at `offset`.
unfoldable pub read_error_status : BitReader → Outcome BitReader ℕ
read_error_status r =
    (located (read_bits 8) >>= λ value r'.
    if ltb 2 value
    then fail (make_byte_error ErrorCode.syntax_error (byte_position r)) r'
    else ok value r')
      r

-- The part of `read` behind the slice size.
unfoldable pub read_checks :
    StreamParameters → SliceDescriptor → ℕ → BitReader → Outcome BitReader SliceDescriptor
read_checks stream descriptor slice_size =
    if not stream.error_status_enabled
    then return (record descriptor {
      slice_size = slice_size;
      error_status = 0;
      expected_crc = 0;
      has_crc = false;
    })
    else read_error_status >>= λ error_status. located (read_bits 32) >>= λ expected_crc.
        return (record descriptor {
          slice_size = slice_size;
          error_status = error_status;
          expected_crc = expected_crc;
          has_crc = true;
        })

-- `read`: the value is the descriptor, which a failure leaves alone.
unfoldable pub read :
    StreamParameters → SliceDescriptor → BitReader → Outcome BitReader SliceDescriptor
read stream descriptor = do
  located require_byte_aligned
  slice_size ← located (read_bits 24)
  read_checks stream descriptor slice_size

-- The location of a failure of `read`, counted from the start of the file.
unfoldable pub from_footer : ℕ → Status → Status
from_footer offset status = elim (status.location.byte_offset) [
  | some inner ↦ record status {
    location = record (status.location) { byte_offset = some ((inner + offset) % 2 ^ 64) };
  }
  | none ↦ set_byte_location_if_missing status offset
]

-- The checks after `read`.
unfoldable pub check_footer :
    List ℕ → ℕ → Bool → SliceDescriptor → SliceDescriptor → Outcome SliceDescriptor (Unit {0})
check_footer slice_payload required_footer_size verify_crc descriptor next =
    if not (next.slice_size + required_footer_size == length slice_payload)
    then fail (make_byte_error ErrorCode.syntax_error next.footer_byte_offset) descriptor
    else if verify_crc && next.has_crc && not (crc32_ieee_msb slice_payload == 0)
    then fail (make_byte_error ErrorCode.crc_mismatch ((next.footer_byte_offset + 4) % 2 ^ 64))
        descriptor
    else ok tt next

unfoldable pub read_from_end :
    List ℕ → StreamParameters → Bool → SliceDescriptor → Outcome SliceDescriptor (Unit {0})
read_from_end slice_payload stream verify_crc descriptor =
    let required_footer_size = footer_size stream in
    if ltb (length slice_payload) required_footer_size
    then fail (make_byte_error ErrorCode.syntax_error descriptor.payload_byte_offset) descriptor
    else let footer_offset = length slice_payload - required_footer_size in
      let next = record descriptor {
        footer_byte_offset = (descriptor.payload_byte_offset + footer_offset) % 2 ^ 64;
      } in
      elim (read stream next
        (open_reader (take required_footer_size (drop footer_offset slice_payload)))) [
          | ok read_next _ ↦
              check_footer slice_payload required_footer_size verify_crc descriptor read_next
          | fail status _ ↦ fail (from_footer next.footer_byte_offset status) descriptor
        ]
