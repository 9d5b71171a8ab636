-- ===== src/Codec/PayloadLocator/RoundTrip.antt =====
-- A frame made of completed slices is taken apart into the same slices.
use mffv.Common.{
  ℕ, zero, suc, ◌+◌, ◌-◌, ◌^◌, ◌≤◌, ◌<◌, ◌≡◌, refl, ap, sym, ◌∙◌, arith, List, [], ◌∷◌, ◌++◌, Bool,
  false, not, ◌&&◌, ltb, ◌==◌, Bool-cases, inl, inr, length, length-append, append_assoc,
  append-nil, drop, take, drop-length, take-length,
}
use mffv.Common.Status.{ok, fail}
use mffv.Syntax.Stream.{StreamParameters}
use mffv.Util.Crc32.{crc32_ieee_msb}
use mffv.Codec.Descriptor.{SliceDescriptor, new_descriptor}
use mffv.Codec.SliceFooter.{append, footer_size}
use mffv.Codec.SliceFooter.RoundTrip.{
  IsAppendable, footer_of, described, append_lem, read_lem, length-footer_of,
}
use mffv.Codec.SliceFooter.Checked.{crc_lem}
use mffv.Codec.PayloadLocator.{
  all_located, located_slice, candidate_of, locate_loop, locate_slices,
  locate_trailing_slice_candidate, numbered_from,
}

-- A slice before its footer: the error status and the payload.
pub record Slice : Type 0 where
  pub error_status : ℕ
  pub payload : List ℕ

abbrev pub AllAppendable : StreamParameters → List Slice → Type 0
AllAppendable stream [] = Unit {0}
AllAppendable stream (s ∷ ss) =
    IsAppendable stream s.error_status s.payload × AllAppendable stream ss

-- The bytes that `append` leaves of a slice.
abbrev pub completed : StreamParameters → Slice → List ℕ
completed stream s = elim (append stream s.error_status s.payload) [
  | ok _ bytes ↦ bytes
  | fail _ bytes ↦ bytes
]

-- A frame of slices given last slice first.
abbrev pub frame_of : StreamParameters → List Slice → List ℕ
frame_of stream [] = []
frame_of stream (s ∷ ss) = frame_of stream ss ++ completed stream s

-- What is found of a slice that starts at `offset`.
abbrev pub found : StreamParameters → Slice → ℕ → SliceDescriptor
found stream s offset = record (described stream s.error_status s.payload new_descriptor) {
  payload_byte_offset = offset;
  payload = completed stream s;
  footer_byte_offset = offset + length s.payload;
}

-- The descriptors of the slices, first slice first, in front of those behind them.
abbrev pub found_all : StreamParameters → List Slice → List SliceDescriptor → List SliceDescriptor
found_all stream [] behind = behind
found_all stream (s ∷ ss) behind =
    found_all stream ss (found stream s (length (frame_of stream ss)) ∷ behind)

with_footer : StreamParameters → Slice → List ℕ
with_footer stream s = s.payload ++ footer_of stream s.error_status s.payload

completed_lem :
    (stream : StreamParameters) (s : Slice)
    → IsAppendable stream s.error_status s.payload
    → completed stream s ≡ with_footer stream s
unfolding with_footer
completed_lem stream s h = rw (completed, append_lem stream s.error_status s.payload h) refl

length-with_footer :
    (stream : StreamParameters) (s : Slice)
    → length (with_footer stream s) ≡ length s.payload + footer_size stream
unfolding with_footer
length-with_footer stream s =
    length-append s.payload (footer_of stream s.error_status s.payload)
    ∙ ap (λ (n : ℕ). length s.payload + n) (length-footer_of stream s.error_status s.payload)

-- The last slice of a frame is the candidate.
footer_candidate_lem :
    (stream : StreamParameters) (before : List ℕ) (s : Slice) (verify_crc : Bool)
    → IsAppendable stream s.error_status s.payload
    → locate_trailing_slice_candidate
        (before ++ with_footer stream s)
        stream
        verify_crc
        new_descriptor
      ≡ located_slice (record (found stream s (length before)) { payload = with_footer stream s })
unfolding with_footer locate_trailing_slice_candidate candidate_of
footer_candidate_lem stream before s verify_crc h =
    let footer = footer_of stream s.error_status s.payload in
    let frame = before ++ with_footer stream s in
    let size = footer_size stream in
    let footer_length = length-footer_of stream s.error_status s.payload in
    let total = length-append before (with_footer stream s) in
    let part = length-with_footer stream s in
    let apart : frame ≡ (before ++ s.payload) ++ footer =
      sym (append_assoc before s.payload footer) in
    let offset : length frame - size ≡ length (before ++ s.payload) =
      omega (arith, total, part, length-append before s.payload) in
    let at_footer : take size (drop (length frame - size) frame) ≡ footer =
      rw (offset, apart, drop-length (before ++ s.payload) footer)
        (ap (λ (t : List ℕ). take size t) (sym (append-nil footer))
          ∙ rw (← footer_length) (take-length footer [])) in
    let (r, done) =
      read_lem stream s.error_status s.payload
        (record new_descriptor { footer_byte_offset = length frame - size }) h in
    let big_enough : ltb (length frame) size ≡ false = ground (arith, total, part) in
    let fits : ltb (length frame - size) (length s.payload) ≡ false = ground (arith, total, part) in
    let start : length frame - (length s.payload + size) ≡ length before =
      omega (arith, total, part) in
    let at_slice : take (length s.payload + size) (drop (length before) frame)
        ≡ with_footer stream s =
      rw (drop-length before (with_footer stream s)) (
        ap (λ (t : List ℕ). take (length s.payload + size) t)
          (sym (append-nil (with_footer stream s)))
        ∙ rw (← part) (take-length (with_footer stream s) [])) in
    let clean : (verify_crc
          && stream.error_status_enabled
          && not (crc32_ieee_msb (with_footer stream s) == 0))
        ≡ false =
      elim (Bool-cases stream.error_status_enabled) [
        | inl enabled ↦
            let e = crc_lem stream s.error_status s.payload h enabled in
            rw (e, enabled) (ground arith)
        | inr disabled ↦ rw disabled (ground arith)
      ] in
    rw (big_enough, at_footer, done, fits, start, at_slice, clean) refl

candidate_lem :
    (stream : StreamParameters) (before : List ℕ) (s : Slice) (verify_crc : Bool)
    → IsAppendable stream s.error_status s.payload
    → locate_trailing_slice_candidate
        (before ++ completed stream s)
        stream
        verify_crc
        new_descriptor
      ≡ located_slice (found stream s (length before))
candidate_lem stream before s verify_crc h =
    let e = completed_lem stream s h in
    ap
      (λ (t : List ℕ).
        locate_trailing_slice_candidate (before ++ t) stream verify_crc new_descriptor)
      e
    ∙ footer_candidate_lem stream before s verify_crc h
    ∙ ap (λ (t : List ℕ). located_slice (record (found stream s (length before)) { payload = t }))
        (sym e)

-- A slice more makes the frame longer.
longer :
    (stream : StreamParameters) (ss : List Slice) (s : Slice)
    → IsAppendable stream s.error_status s.payload
    → length (frame_of stream ss) < length (frame_of stream (s ∷ ss))
unfolding footer_size
longer stream ss s h = ground (
  arith,
  length-append (frame_of stream ss) (completed stream s),
  ap length (completed_lem stream s h),
  length-with_footer stream s,
)

-- The loop on the front of a frame.
locate_loop_lem :
    (stream : StreamParameters) (verify_crc : Bool) (ss : List Slice) (rounds free : ℕ)
    (behind : List ℕ) (located : List SliceDescriptor)
    → AllAppendable stream ss
    → length (frame_of stream ss) ≤ rounds
    → length ss ≤ free
    → locate_loop rounds
        (frame_of stream ss ++ behind)
        stream
        verify_crc
        (length (frame_of stream ss))
        free
        located
      ≡ all_located (found_all stream ss located)
unfolding locate_loop
locate_loop_lem stream v [] zero free behind located h enough room = refl
locate_loop_lem stream v [] (suc left) free behind located h enough room = refl
locate_loop_lem stream v (s ∷ ss) zero free behind located h enough room =
    absurd (omega (arith, enough, longer stream ss s h.0))
locate_loop_lem stream v (s ∷ ss) (suc left) free behind located h enough room =
    let frame = frame_of stream (s ∷ ss) in
    let long = longer stream ss s h.0 in
    let more : (length frame == 0) ≡ false = ground (arith, long) in
    let allowed : (free == 0) ≡ false = ground (arith, room) in
    let next = candidate_lem stream (frame_of stream ss) s v h.0 in
    rw (more, allowed, take-length frame behind, next)
      (rw (append_assoc (frame_of stream ss) (completed stream s) behind) (
        locate_loop_lem stream v ss left (free - 1) (completed stream s ++ behind)
          (found stream s (length (frame_of stream ss)) ∷ located) h.1 (omega (arith, enough, long))
          (omega (arith, room))))

-- A frame made of slices that the footer writer completed is taken apart into the same slices in
-- order, each with its offset, its bytes, its size, its status, its CRC and its number, whether
-- the CRC is verified or not, when the maximum is from 1 to 2^32 - 1 and at least the number of
-- slices.
pub locate_slices-append :
    (stream : StreamParameters) (ss : List Slice) (maximum_slice_count : ℕ) (verify_crc : Bool)
    (descriptors : List SliceDescriptor)
    → AllAppendable stream ss
    → 0 < maximum_slice_count
    → maximum_slice_count < 2 ^ 32
    → length ss ≤ maximum_slice_count
    → locate_slices (frame_of stream ss) stream maximum_slice_count verify_crc descriptors
      ≡ ok tt (numbered_from 0 (found_all stream ss []))
unfolding locate_slices
locate_slices-append stream ss maximum v descriptors h some small room =
    let frame = frame_of stream ss in
    let given : (maximum == 0) ≡ false = ground (arith, some) in
    let fits : ltb (2 ^ 32 - 1) maximum ≡ false = ground (arith, small) in
    let found =
      rw (append-nil frame) at
        (locate_loop_lem stream v ss (length frame) maximum [] [] h (omega arith) room) in
    rw (given, fits, found) refl
