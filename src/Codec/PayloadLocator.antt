-- ===== src/Codec/PayloadLocator.antt =====
-- src/codec/slice_payload_locator.cpp: the slices of a frame are found from its end. Sizes and
-- offsets are those of a span in memory, so their sums do not wrap.
pub mod Termination
pub mod RoundTrip
use mffv.Common.{
  ℕ, zero, suc, ◌+◌, ◌-◌, ◌^◌, List, [], ◌∷◌, Bool, true, false, not, ◌&&◌, ltb, ◌==◌,
  if◌then◌else◌, length, drop, take, Option, none, some,
}
use mffv.Common.Status.{
  ErrorCode, Status, make_error, make_byte_error, set_slice_location_if_missing, Outcome, ok, fail,
}
use mffv.Bitstream.Reader.{open_reader}
use mffv.Syntax.Stream.{StreamParameters}
use mffv.Util.Crc32.{crc32_ieee_msb}
use mffv.Codec.Descriptor.{SliceDescriptor, new_descriptor}
use mffv.Codec.SliceFooter.{footer_size, from_footer, read}

-- The status with the descriptor, if there is one.
pub data TrailingSliceResult : Type 0 where
  located_slice : SliceDescriptor → TrailingSliceResult
  damaged_slice : Status → SliceDescriptor → TrailingSliceResult
  no_slice : Status → TrailingSliceResult

-- What follows the footer that was read.
unfoldable pub candidate_of : List ℕ → ℕ → Bool → SliceDescriptor → TrailingSliceResult
candidate_of frame_payload size verify_crc next =
    if ltb (length frame_payload - size) next.slice_size
    then no_slice (make_byte_error ErrorCode.syntax_error (length frame_payload - size))
    else let total_slice_size = next.slice_size + size in
      let offset = length frame_payload - total_slice_size in
      let payload = take total_slice_size (drop offset frame_payload) in
      let descriptor = record next {
        payload_byte_offset = offset;
        payload = payload;
        footer_byte_offset = offset + next.slice_size;
      } in
      if verify_crc && next.has_crc && not (crc32_ieee_msb payload == 0)
      then damaged_slice (make_byte_error ErrorCode.crc_mismatch (offset + next.slice_size + 4))
          descriptor
      else located_slice descriptor

-- The descriptor that is filled in is `seed`, or a new one.
unfoldable pub locate_trailing_slice_candidate :
    List ℕ → StreamParameters → Bool → SliceDescriptor → TrailingSliceResult
locate_trailing_slice_candidate frame_payload stream verify_crc seed =
    if ltb (length frame_payload) (footer_size stream)
    then no_slice (make_byte_error ErrorCode.syntax_error 0)
    else let footer_offset = length frame_payload - footer_size stream in
      elim (read stream (record seed { footer_byte_offset = footer_offset })
        (open_reader (take (footer_size stream) (drop footer_offset frame_payload)))) [
          | ok next _ ↦ candidate_of frame_payload (footer_size stream) verify_crc next
          | fail status _ ↦ no_slice (from_footer footer_offset status)
        ]

-- The loop of `count_preceding_slices`; `none` is its `false`. Every round takes at least a footer
-- off the prefix, so a round for each byte is enough.
unfoldable pub count_loop : ℕ → List ℕ → StreamParameters → ℕ → ℕ → ℕ → Option ℕ
count_loop zero frame_payload stream remaining_size limit count =
    if remaining_size == 0 then some count else none
count_loop (suc left) frame_payload stream remaining_size limit count =
    if remaining_size == 0
    then some count
    else if count == limit
    then none
    else elim (locate_trailing_slice_candidate (take remaining_size frame_payload) stream false
        new_descriptor) [
          | located_slice d ↦
              count_loop left frame_payload stream d.payload_byte_offset limit (count + 1)
          | damaged_slice _ _ ↦ none
          | no_slice _ ↦ none
        ]

unfoldable pub count_preceding_slices : List ℕ → StreamParameters → ℕ → ℕ → Option ℕ
count_preceding_slices frame_payload stream prefix_size limit =
    count_loop prefix_size frame_payload stream prefix_size limit 0

unfoldable pub locate_trailing_slice :
    List ℕ → StreamParameters → Bool → SliceDescriptor → Outcome SliceDescriptor (Unit {0})
locate_trailing_slice frame_payload stream verify_crc descriptor =
    elim (locate_trailing_slice_candidate frame_payload stream verify_crc descriptor) [
      | located_slice d ↦ ok tt d
      | damaged_slice status _ ↦ fail status descriptor
      | no_slice status ↦ fail status descriptor
    ]

pub data LocatedSlices : Type 0 where
  all_located : List SliceDescriptor → LocatedSlices
  refused : Status → LocatedSlices

-- The number of a damaged slice, when the slices before it can be counted.
unfoldable pub damage_status : List ℕ → StreamParameters → ℕ → Status → SliceDescriptor → Status
damage_status frame_payload stream remaining_limit status d =
    elim (count_preceding_slices frame_payload stream d.payload_byte_offset remaining_limit) [
      | some preceding_count ↦ record status {
        location = record (status.location) { slice_index = some preceding_count };
      }
      | none ↦ set_slice_location_if_missing status 0
    ]

-- The loop of `locate_slices`. The slices found so far are kept first slice first, the order that
-- the reversal behind the loop gives; `free` is how many more the maximum allows.
unfoldable pub locate_loop :
    ℕ → List ℕ → StreamParameters → Bool → ℕ → ℕ → List SliceDescriptor → LocatedSlices
locate_loop zero frame_payload stream verify_crc remaining_size free located =
    if remaining_size == 0
    then all_located located
    else refused (make_error ErrorCode.internal_error)
locate_loop (suc left) frame_payload stream verify_crc remaining_size free located =
    if remaining_size == 0
    then all_located located
    else if free == 0
    then refused (set_slice_location_if_missing (make_byte_error ErrorCode.syntax_error 0) 0)
    else elim (locate_trailing_slice_candidate (take remaining_size frame_payload) stream verify_crc
        new_descriptor) [
          | located_slice d ↦
              locate_loop left frame_payload stream verify_crc d.payload_byte_offset (free - 1)
                (d ∷ located)
          | damaged_slice status d ↦
              refused (damage_status frame_payload stream (free - 1) status d)
          | no_slice status ↦ refused (set_slice_location_if_missing status 0)
        ]

-- The loop that numbers the slices.
unfoldable pub numbered_from : ℕ → List SliceDescriptor → List SliceDescriptor
numbered_from index [] = []
numbered_from index (d ∷ ds) = record d { index = index } ∷ numbered_from (index + 1) ds

-- A failure leaves the caller's descriptors alone.
unfoldable pub locate_slices :
    List ℕ
    → StreamParameters
    → ℕ
    → Bool
    → List SliceDescriptor
    → Outcome (List SliceDescriptor) (Unit {0})
locate_slices frame_payload stream maximum_slice_count verify_crc descriptors =
    if maximum_slice_count == 0
    then fail (make_error ErrorCode.invalid_argument) descriptors
    else if ltb (2 ^ 32 - 1) maximum_slice_count
    then fail (make_error ErrorCode.resource_exhausted) descriptors
    else elim (locate_loop (length frame_payload) frame_payload stream verify_crc
        (length frame_payload) maximum_slice_count []) [
          | all_located located ↦ ok tt (numbered_from 0 located)
          | refused status ↦ fail status descriptors
        ]
