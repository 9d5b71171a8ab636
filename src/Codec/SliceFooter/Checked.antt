-- ===== src/Codec/SliceFooter/Checked.antt =====
-- `read_from_end` of src/codec/slice_footer_parser.cpp on a slice that `append` completed, and on one
-- that was damaged afterwards.
use mffv.Common.{
  ℕ, ◌+◌, ◌-◌, ◌/◌, ◌%◌, ◌^◌, ◌<◌, ◌≡◌, ◌≢◌, refl, ap, sym, ◌∙◌, arith, List, [], ◌∷◌, ◌++◌, Bool,
  true, false, not, ◌&&◌, ltb, ◌==◌, Bool-cases, inl, inr, length, length-append, append-nil, drop,
  take, drop-length, take-length,
}
use mffv.Common.Status.{
  ErrorCode, make_byte_error, Outcome, Status, ok, fail, >>=-inv, ok-injective,
}
use mffv.Bitstream.Reader.{BitReader, open_reader, read_bits, require_byte_aligned}
use mffv.Syntax.Stream.{StreamParameters}
use mffv.Util.Crc32.{crc32_ieee_msb}
use mffv.Util.Crc32.Checks.{AllBytes, big_endian, crc32_iff, crc32_single_byte}
use mffv.Codec.Descriptor.{SliceDescriptor}
use mffv.Codec.SliceFooter.{
  append, check_footer, footer_size, from_footer, located, low_byte, read, read_checks,
  read_error_status, read_from_end, with_crc, with_size,
}
use mffv.Codec.SliceFooter.Bytes.{low_byte_lem, low_byte-lt}
use mffv.Codec.SliceFooter.RoundTrip.{
  IsAppendable, footer_of, described, append_lem, read_lem, completed_lem, AllBytes-checked, crc_of,
  crc_bytes, length-footer_of,
}

-- The CRC over a completed slice is 0.
pub crc_lem :
    (stream : StreamParameters) (error_status : ℕ) (payload : List ℕ)
    → IsAppendable stream error_status payload
    → stream.error_status_enabled ≡ true
    → crc32_ieee_msb (payload ++ footer_of stream error_status payload) ≡ 0
crc_lem stream error_status payload h enabled =
    let crc = crc_of error_status payload in
    let checked = with_size payload ++ (error_status ∷ []) in
    let digits : crc_bytes crc ≡ big_endian crc =
      rw
        (
          low_byte_lem (crc / 2 ^ 24),
          low_byte_lem (crc / 2 ^ 16),
          low_byte_lem (crc / 2 ^ 8),
          low_byte_lem crc,
        )
        refl in
    let zero_crc =
      (crc32_iff checked (low_byte (crc / 2 ^ 24)) (low_byte (crc / 2 ^ 16))
          (low_byte (crc / 2 ^ 8)) (low_byte crc)
          (AllBytes-checked error_status payload h.known_status h.bytes)
          (low_byte-lt (crc / 2 ^ 24)) (low_byte-lt (crc / 2 ^ 16)) (low_byte-lt (crc / 2 ^ 8))
          (low_byte-lt crc)).1
        digits in
    rw enabled
      (ap crc32_ieee_msb (sym (completed_lem error_status payload)) ∙ unfold with_crc in zero_crc)

-- The descriptor that the parser leaves.
abbrev pub parsed : StreamParameters → ℕ → List ℕ → SliceDescriptor → SliceDescriptor
parsed stream error_status payload d =
    described stream error_status payload
      (record d { footer_byte_offset = (d.payload_byte_offset + length payload) % 2 ^ 64 })

-- For a payload below 2^24 bytes and a status up to 2 that is 0 where statuses are off, append
-- succeeds, and read_from_end of the result succeeds with the CRC verified or not and finds the
-- payload's size, the status and the CRC.
pub read_from_end-append :
    (stream : StreamParameters) (error_status : ℕ) (payload : List ℕ) (verify_crc : Bool)
    (d : SliceDescriptor)
    → IsAppendable stream error_status payload
    → (bytes : List ℕ) × (append stream error_status payload ≡ ok tt bytes)
      × (read_from_end bytes stream verify_crc d ≡ ok tt (parsed stream error_status payload d))
unfolding read_from_end check_footer
read_from_end-append stream error_status payload verify_crc d h =
    let footer = footer_of stream error_status payload in
    let bytes = payload ++ footer in
    let footer_length = length-footer_of stream error_status payload in
    let total = length-append payload footer in
    let big_enough : ltb (length bytes) (footer_size stream) ≡ false =
      ground (arith, total, footer_length) in
    let offset : length bytes - footer_size stream ≡ length payload =
      omega (arith, total, footer_length) in
    let (r, done) =
      read_lem stream error_status payload
        (record d { footer_byte_offset = (d.payload_byte_offset + length payload) % 2 ^ 64 }) h in
    let only_footer : take (footer_size stream) footer ≡ footer =
      ap (λ (t : List ℕ). take (footer_size stream) t) (sym (append-nil footer))
      ∙ rw (← footer_length) (take-length footer []) in
    let same_size : (length payload + footer_size stream == length bytes) ≡ true =
      ground (arith, total, footer_length) in
    let crc_fits : (verify_crc && stream.error_status_enabled && not (crc32_ieee_msb bytes == 0))
        ≡ false =
      elim (Bool-cases stream.error_status_enabled) [
        | inl enabled ↦
            let e = crc_lem stream error_status payload h enabled in rw (e, enabled) (ground arith)
        | inr disabled ↦ rw disabled (ground arith)
      ] in
    (
      bytes,
      append_lem stream error_status payload h,
      rw (big_enough, offset, drop-length payload footer, only_footer, done, same_size, crc_fits)
          refl,
    )

-- With error status the descriptor that `read` returns has a CRC.
read_checks-has_crc :
    (stream : StreamParameters) (d next : SliceDescriptor) (slice_size : ℕ) (r r' : BitReader)
    → stream.error_status_enabled ≡ true
    → read_checks stream d slice_size r ≡ ok next r'
    → next.has_crc ≡ true
unfolding read_checks
read_checks-has_crc stream d next slice_size r r' enabled h =
    let (error_status, r₁, _, h₁) = >>=-inv read_error_status _ (rw enabled at h) in
    let (expected_crc, r₂, _, h₂) = >>=-inv (located (read_bits 32)) _ h₁ in
    sym (ap (λ (t : SliceDescriptor). t.has_crc) (ok-injective h₂).0)

read-has_crc :
    (stream : StreamParameters) (d next : SliceDescriptor) (r r' : BitReader)
    → stream.error_status_enabled ≡ true
    → read stream d r ≡ ok next r'
    → next.has_crc ≡ true
unfolding read
read-has_crc stream d next r r' enabled h =
    let (_, r₁, _, h₁) = >>=-inv (located require_byte_aligned) _ h in
    let (slice_size, r₂, _, h₂) = >>=-inv (located (read_bits 24)) (read_checks stream d) h₁ in
    read_checks-has_crc stream d next slice_size r₂ r' enabled h₂

-- A slice whose CRC is not 0 is refused, whatever its footer says.
refused_lem :
    (stream : StreamParameters) (bytes : List ℕ) (d : SliceDescriptor)
    → stream.error_status_enabled ≡ true
    → crc32_ieee_msb bytes ≢ 0
    → (status : Status) × (read_from_end bytes stream true d ≡ fail status d)
unfolding read_from_end check_footer
refused_lem stream bytes d enabled wrong =
    elim (Bool-cases (ltb (length bytes) (footer_size stream))) [
      | inl short ↦ (make_byte_error ErrorCode.syntax_error d.payload_byte_offset, rw short refl)
      | inr long ↦ rw long (
          by_read
            (read stream next (
              open_reader
                (take (footer_size stream) (drop (length bytes - footer_size stream) bytes))))
            refl)
    ]
  where
    next : SliceDescriptor
    next = record d {
      footer_byte_offset = (d.payload_byte_offset + (length bytes - footer_size stream)) % 2 ^ 64;
    }

    checked :
        (n : SliceDescriptor)
        → n.has_crc ≡ true
        → (status : Status) × (check_footer bytes (footer_size stream) true d n ≡ fail status d)
    checked n has = elim (Bool-cases (n.slice_size + footer_size stream == length bytes)) [
      | inl same ↦
          let damaged : (crc32_ieee_msb bytes == 0) ≡ false = ground (arith, wrong) in
          (
            make_byte_error ErrorCode.crc_mismatch ((n.footer_byte_offset + 4) % 2 ^ 64),
            rw (check_footer, same, has, damaged) refl,
          )
      | inr different ↦ (
        make_byte_error ErrorCode.syntax_error n.footer_byte_offset,
        rw (check_footer, different) refl,
      )
    ]

    by_read :
        (o : Outcome BitReader SliceDescriptor)
        → read stream next (
            open_reader
              (take (footer_size stream) (drop (length bytes - footer_size stream) bytes)))
          ≡ o
        → (status : Status) × ((elim o [
          | ok read_next _ ↦ check_footer bytes (footer_size stream) true d read_next
          | fail s _ ↦ fail (from_footer next.footer_byte_offset s) d
        ])
            ≡ fail status d)
    by_read (ok n r) e = checked n (read-has_crc stream next n _ r enabled e)
    by_read (fail s r) e = (_, refl)

-- When a slice was completed with its CRC and one byte of it has changed since, read_from_end with
-- the CRC verified fails and leaves the descriptor alone.
pub read_from_end-damaged :
    (stream : StreamParameters) (error_status : ℕ) (payload before after bytes : List ℕ)
    (byte byte' : ℕ) (d : SliceDescriptor)
    → IsAppendable stream error_status payload
    → stream.error_status_enabled ≡ true
    → append stream error_status payload ≡ ok tt bytes
    → bytes ≡ before ++ (byte ∷ after)
    → AllBytes before
    → AllBytes after
    → byte < 256
    → byte' < 256
    → byte ≢ byte'
    → (status : Status) × (read_from_end (before ++ (byte' ∷ after)) stream true d ≡ fail status d)
read_from_end-damaged stream error_status payload before after bytes byte byte' d h enabled done
      split hb ha b b' differ =
    let written = ok-injective (sym done ∙ append_lem stream error_status payload h) in
    let clean : crc32_ieee_msb (before ++ (byte ∷ after)) ≡ 0 =
      ap crc32_ieee_msb (sym split ∙ written.1) ∙ crc_lem stream error_status payload h enabled in
    refused_lem stream (before ++ (byte' ∷ after)) d enabled
      (λ e. crc32_single_byte before after byte byte' hb ha b b' differ (clean ∙ sym e))
