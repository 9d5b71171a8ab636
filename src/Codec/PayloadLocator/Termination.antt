-- ===== src/Codec/PayloadLocator/Termination.antt =====
-- The loops of src/codec/slice_payload_locator.cpp end: every slice found takes at least a footer off
-- what is left.
use mffv.Common.{
  ℕ, zero, suc, ◌+◌, ◌-◌, ◌≤◌, ◌≡◌, refl, sym, ◌∙◌, arith, List, ◌∷◌, Bool, false, not, ◌&&◌, ltb,
  ◌==◌, Bool-cases, inl, inr, length, drop, take, length-take,
}
use mffv.Common.Status.{set_slice_location_if_missing, Outcome, ok, fail}
use mffv.Bitstream.Reader.{BitReader, open_reader}
use mffv.Syntax.Stream.{StreamParameters}
use mffv.Util.Crc32.{crc32_ieee_msb}
use mffv.Codec.Descriptor.{SliceDescriptor, new_descriptor}
use mffv.Codec.SliceFooter.{footer_size, from_footer, read}
use mffv.Codec.PayloadLocator.{
  all_located, refused, TrailingSliceResult, located_slice, damaged_slice, no_slice, candidate_of,
  damage_status, locate_loop, locate_trailing_slice_candidate,
}

-- A slice that is found starts before the end.
abbrev StartsBefore : ℕ → TrailingSliceResult → Type 0
StartsBefore end (located_slice d) = d.payload_byte_offset + 3 ≤ end
StartsBefore end (damaged_slice _ _) = Unit {0}
StartsBefore end (no_slice _) = Unit {0}

candidate_of_lem :
    (frame : List ℕ) (size : ℕ) (verify_crc : Bool) (next : SliceDescriptor)
    → 3 ≤ size
    → size ≤ length frame
    → StartsBefore (length frame) (candidate_of frame size verify_crc next)
unfolding candidate_of
candidate_of_lem frame size v next h h' =
    elim (Bool-cases (ltb (length frame - size) next.slice_size)) [
      | inl long ↦ rw long tt
      | inr fits ↦
          rw fits
            (elim (Bool-cases (
              v
              && next.has_crc
              && not (
                  crc32_ieee_msb (
                    take (next.slice_size + size)
                      (drop (length frame - (next.slice_size + size)) frame))
                  == 0))) [
                    | inl damaged ↦ rw damaged tt
                    | inr clean ↦ rw clean (ground (arith, fits, h, h'))
                  ])
    ]

footer_size-ge : (stream : StreamParameters) → 3 ≤ footer_size stream
unfolding footer_size
footer_size-ge stream = ground arith

locate_trailing_slice_candidate_lem :
    (frame : List ℕ) (stream : StreamParameters) (verify_crc : Bool) (seed : SliceDescriptor)
    → StartsBefore (length frame) (locate_trailing_slice_candidate frame stream verify_crc seed)
unfolding locate_trailing_slice_candidate
locate_trailing_slice_candidate_lem frame stream v seed =
    elim (Bool-cases (ltb (length frame) (footer_size stream))) [
      | inl short ↦ rw short tt
      | inr long ↦ rw long (
          by_read
            (read stream (record seed { footer_byte_offset = length frame - footer_size stream })
              (open_reader
                (take (footer_size stream) (drop (length frame - footer_size stream) frame))))
            (ground (arith, long)))
    ]
  where
    by_read :
        (o : Outcome BitReader SliceDescriptor)
        → footer_size stream ≤ length frame
        → StartsBefore (length frame) (elim o [
          | ok next _ ↦ candidate_of frame (footer_size stream) v next
          | fail status _ ↦ no_slice (from_footer (length frame - footer_size stream) status)
        ])
    by_read (ok next r) le =
        candidate_of_lem frame (footer_size stream) v next (footer_size-ge stream) le
    by_read (fail status r) le = tt

located_lem :
    (rounds : ℕ) (frame : List ℕ) (stream : StreamParameters) (verify_crc : Bool) (free : ℕ)
    (located : List SliceDescriptor)
    → locate_loop rounds frame stream verify_crc 0 free located ≡ all_located located
unfolding locate_loop
located_lem zero frame stream v free located = refl
located_lem (suc left) frame stream v free located = refl

-- With a round for each byte that is left, or more, the loop of locate_slices gives the same
-- result, so the rounds of the model never run out.
pub locate_loop-rounds :
    (rounds rounds' : ℕ) (frame : List ℕ) (stream : StreamParameters) (verify_crc : Bool)
    (remaining free : ℕ) (located : List SliceDescriptor)
    → remaining ≤ rounds
    → remaining ≤ rounds'
    → remaining ≤ length frame
    → locate_loop rounds frame stream verify_crc remaining free located
      ≡ locate_loop rounds' frame stream verify_crc remaining free located
unfolding locate_loop
locate_loop-rounds rounds rounds' frame stream v zero free located h h' inside =
    located_lem rounds frame stream v free located
    ∙ sym (located_lem rounds' frame stream v free located)
locate_loop-rounds zero rounds' frame stream v (suc remaining) free located h h' inside =
    absurd (omega arith)
locate_loop-rounds rounds zero frame stream v (suc remaining) free located h h' inside =
    absurd (omega arith)
locate_loop-rounds (suc left) (suc left') frame stream v (suc remaining) free located h h' inside =
    let more : (suc remaining == 0) ≡ false = ground arith in
    let candidate =
      locate_trailing_slice_candidate (take (suc remaining) frame) stream v new_descriptor in
    let shrinks =
      locate_trailing_slice_candidate_lem (take (suc remaining) frame) stream v new_descriptor in
    let taken : length (take (suc remaining) frame) ≤ suc remaining =
      omega (arith, length-take (suc remaining) frame) in
    elim (Bool-cases (free == 0)) [
      | inl none_left ↦ rw (more, none_left) refl
      | inr some_left ↦
          rw (more, some_left)
            (by_result candidate (length (take (suc remaining) frame)) taken shrinks (λ d before.
              locate_loop-rounds left left' frame stream v d.payload_byte_offset (free - 1)
                (d ∷ located) (omega (arith, before, h)) (omega (arith, before, h'))
                (omega (arith, before, inside))))
    ]
  where
    by_result :
        (o : TrailingSliceResult) (end : ℕ)
        → end ≤ suc remaining
        → StartsBefore end o
        → ((d : SliceDescriptor)
            → d.payload_byte_offset ≤ remaining
            → locate_loop left frame stream v d.payload_byte_offset (free - 1) (d ∷ located)
              ≡ locate_loop left' frame stream v d.payload_byte_offset (free - 1) (d ∷ located))
        → (elim o [
          | located_slice d ↦
              locate_loop left frame stream v d.payload_byte_offset (free - 1) (d ∷ located)
          | damaged_slice status d ↦ refused (damage_status frame stream (free - 1) status d)
          | no_slice status ↦ refused (set_slice_location_if_missing status 0)
        ])
          ≡ (elim o [
            | located_slice d ↦
                locate_loop left' frame stream v d.payload_byte_offset (free - 1) (d ∷ located)
            | damaged_slice status d ↦ refused (damage_status frame stream (free - 1) status d)
            | no_slice status ↦ refused (set_slice_location_if_missing status 0)
          ])
    by_result (located_slice d) end le before same = same d (omega (arith, le, before))
    by_result (damaged_slice status d) end le before same = refl
    by_result (no_slice status) end le before same = refl
