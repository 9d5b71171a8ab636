-- ===== src/Codec/SliceFooter/RoundTrip.antt =====
-- The footer of a slice is read back as it was appended, and a wrong byte is found.
use mffv.Common.{
  ℕ, ◌/◌, ◌^◌, ◌≤◌, ◌<◌, ◌≡◌, refl, ap, sym, ◌∙◌, arith, List, [], ◌∷◌, ◌++◌, true, false, ltb,
  ◌==◌, if◌then◌else◌, Bool-cases, inl, inr, length, append_assoc, append-nil,
}
use mffv.Common.Status.{Outcome, ok, >>=-ok}
use mffv.Bitstream.Reader.{BitReader, open_reader, read_bits, require_byte_aligned}
use mffv.Bitstream.Content.{bits_of}
use mffv.Bitstream.Reads.{Reads, Reads-return, Reads->>=, Reads-of, read_bits-Reads}
use mffv.Syntax.Stream.{StreamParameters}
use mffv.Util.Crc32.{crc32_ieee_msb}
use mffv.Util.Crc32.Checks.{AllBytes, AllBytes-append, crc_from-lt}
use mffv.Codec.Descriptor.{SliceDescriptor}
use mffv.Codec.SliceFooter.{
  append, footer_size, located, low_byte, read, read_checks, read_error_status, with_crc, with_size,
}
use mffv.Codec.SliceFooter.Bytes.{
  bits_of_bytes, bits_of_three, bits_of_four, low_byte-lt, rest-open_reader,
}

-- The bytes that follow the payload.
abbrev pub size_bytes : ℕ → List ℕ
size_bytes size = low_byte (size / 2 ^ 16) ∷ low_byte (size / 2 ^ 8) ∷ low_byte size ∷ []

abbrev pub crc_bytes : ℕ → List ℕ
crc_bytes crc =
    low_byte (crc / 2 ^ 24) ∷ low_byte (crc / 2 ^ 16) ∷ low_byte (crc / 2 ^ 8) ∷ low_byte crc ∷ []

-- The CRC of the payload, its size and its status.
abbrev pub crc_of : ℕ → List ℕ → ℕ
crc_of error_status payload = crc32_ieee_msb (with_size payload ++ (error_status ∷ []))

abbrev pub footer_of : StreamParameters → ℕ → List ℕ → List ℕ
footer_of stream error_status payload =
    if stream.error_status_enabled
    then size_bytes (length payload) ++ (error_status ∷ crc_bytes (crc_of error_status payload))
    else size_bytes (length payload)

-- What the writer asks of its arguments.
pub record IsAppendable (stream : StreamParameters) (error_status : ℕ) (payload : List ℕ)
    : Type 0 where
  pub known_status : error_status ≤ 2
  pub status_enabled : stream.error_status_enabled ≡ false → error_status ≡ 0
  pub fits : length payload < 2 ^ 24
  pub bytes : AllBytes payload

-- What the parser makes of the footer.
abbrev pub described : StreamParameters → ℕ → List ℕ → SliceDescriptor → SliceDescriptor
described stream error_status payload d = record d {
  slice_size = length payload;
  error_status = if stream.error_status_enabled then error_status else 0;
  expected_crc = if stream.error_status_enabled then crc_of error_status payload else 0;
  has_crc = stream.error_status_enabled;
}

AllBytes-size_bytes :
    (payload : List ℕ) → AllBytes payload → (size : ℕ) → AllBytes (payload ++ size_bytes size)
AllBytes-size_bytes payload h size =
    AllBytes-append payload (size_bytes size) h
      (low_byte-lt (size / 2 ^ 16), (low_byte-lt (size / 2 ^ 8), (low_byte-lt size, tt)))

-- What the CRC is taken of.
pub AllBytes-checked :
    (error_status : ℕ) (payload : List ℕ)
    → error_status ≤ 2
    → AllBytes payload
    → AllBytes (with_size payload ++ (error_status ∷ []))
unfolding with_size
AllBytes-checked error_status payload h bytes =
    AllBytes-append (payload ++ size_bytes (length payload)) (error_status ∷ [])
      (AllBytes-size_bytes payload bytes (length payload)) (omega (arith, h), tt)

pub crc_of-lt :
    (stream : StreamParameters) (error_status : ℕ) (payload : List ℕ)
    → IsAppendable stream error_status payload
    → crc_of error_status payload < 2 ^ 32
unfolding crc32_ieee_msb
crc_of-lt stream error_status payload h =
    crc_from-lt 0 (with_size payload ++ (error_status ∷ [])) (omega arith)
      (AllBytes-checked error_status payload h.known_status h.bytes)

-- What the writer leaves, in two parts.
pub completed_lem :
    (error_status : ℕ) (payload : List ℕ)
    → with_crc error_status (with_size payload)
      ≡ payload
        ++ (size_bytes (length payload) ++ (error_status ∷ crc_bytes (crc_of error_status payload)))
unfolding with_crc with_size
completed_lem error_status payload =
    append_assoc (payload ++ size_bytes (length payload)) (error_status ∷ [])
      (crc_bytes (crc_of error_status payload))
    ∙ append_assoc payload (size_bytes (length payload))
        (error_status ∷ crc_bytes (crc_of error_status payload))

pub append_lem :
    (stream : StreamParameters) (error_status : ℕ) (payload : List ℕ)
    → IsAppendable stream error_status payload
    → append stream error_status payload ≡ ok tt (payload ++ footer_of stream error_status payload)
unfolding append
append_lem stream error_status payload h =
    let known : ltb 2 error_status ≡ false = ground (arith, h.known_status) in
    let fits : ltb 0xffffff (length payload) ≡ false = ground (arith, h.fits) in
    elim (Bool-cases stream.error_status_enabled) [
      | inl enabled ↦
          rw (enabled, known, fits)
            (ap (λ (t : List ℕ). ok tt t) (completed_lem error_status payload))
      | inr disabled ↦
          let none_given : (error_status == 0) ≡ true = ground (arith, h.status_enabled disabled) in
          rw (disabled, none_given, known, fits) (unfold with_size in refl)
    ]

located-Reads :
    {A : Type 0} (m : BitReader → Outcome BitReader A) (a : A) (bits : List ℕ)
    → Reads m a bits
    → Reads (located m) a bits
unfolding located
located-Reads m a bits h r tail i e =
    let (r', done, p) = h r tail i e in (r', rw (located, done) refl, p)

read_error_status-Reads : (v : ℕ) → v ≤ 2 → Reads read_error_status v (bits_of 8 v)
unfolding read_error_status
read_error_status-Reads v h r tail i e =
    let (r', done, p) =
      located-Reads (read_bits 8) v (bits_of 8 v) (read_bits-Reads 8 v (omega arith) (omega arith))
        r tail i e in
    let known : ltb 2 v ≡ false = ground (arith, h) in
    (r', >>=-ok (located (read_bits 8)) _ done ∙ rw known refl, p)

-- The whole footer, at a reader that starts on it.
abbrev footer_bits : StreamParameters → ℕ → List ℕ → List ℕ
footer_bits stream error_status payload =
    bits_of 24 (length payload)
    ++ (if stream.error_status_enabled
        then bits_of 8 error_status ++ bits_of 32 (crc_of error_status payload)
        else [])

read_checks-Reads :
    (stream : StreamParameters) (error_status : ℕ) (payload : List ℕ) (d : SliceDescriptor)
    → IsAppendable stream error_status payload
    → crc_of error_status payload < 2 ^ 32
    → Reads (read_checks stream d (length payload)) (described stream error_status payload d) (
        if stream.error_status_enabled
        then bits_of 8 error_status ++ bits_of 32 (crc_of error_status payload)
        else [])
unfolding read_checks
read_checks-Reads stream error_status payload d h small =
    elim (Bool-cases stream.error_status_enabled) [
      | inl enabled ↦
          let crc = crc_of error_status payload in
          rw enabled (
            Reads->>= read_error_status _ (bits_of 8 error_status) (bits_of 32 crc)
              (read_error_status-Reads error_status h.known_status)
              (Reads-of refl (append-nil (bits_of 32 crc)) (λ r. refl)
                (Reads->>= (located (read_bits 32)) _ (bits_of 32 crc) []
                  (located-Reads (read_bits 32) crc (bits_of 32 crc)
                    (read_bits-Reads 32 crc (omega arith) small))
                  (Reads-return _))))
      | inr disabled ↦ rw disabled (Reads-return _)
    ]

footer_of_lem :
    (stream : StreamParameters) (error_status : ℕ) (payload : List ℕ)
    → bits_of_bytes (footer_of stream error_status payload)
      ≡ footer_bits stream error_status payload
footer_of_lem stream error_status payload = elim (Bool-cases stream.error_status_enabled) [
  | inl enabled ↦ rw enabled (
      bits_of_three (length payload) (error_status ∷ crc_bytes (crc_of error_status payload))
      ∙ ap (λ (t : List ℕ). bits_of 24 (length payload) ++ (bits_of 8 error_status ++ t))
          (bits_of_four (crc_of error_status payload) []
            ∙ append-nil (bits_of 32 (crc_of error_status payload))))
  | inr disabled ↦ rw disabled (bits_of_three (length payload) [])
]

pub length-footer_of :
    (stream : StreamParameters) (error_status : ℕ) (payload : List ℕ)
    → length (footer_of stream error_status payload) ≡ footer_size stream
unfolding footer_size
length-footer_of stream error_status payload = elim (Bool-cases stream.error_status_enabled) [
  | inl enabled ↦ rw enabled refl
  | inr disabled ↦ rw disabled refl
]

aligned_start :
    (bytes : List ℕ) → located require_byte_aligned (open_reader bytes) ≡ ok tt (open_reader bytes)
unfolding located require_byte_aligned open_reader
aligned_start bytes = refl

-- `read` on the footer alone.
pub read_lem :
    (stream : StreamParameters) (error_status : ℕ) (payload : List ℕ) (d : SliceDescriptor)
    → IsAppendable stream error_status payload
    → (r : BitReader) × (read stream d (open_reader (footer_of stream error_status payload))
        ≡ ok (described stream error_status payload d) r)
unfolding read
read_lem stream error_status payload d h =
    let bytes = footer_of stream error_status payload in
    let small : footer_size stream < 2 ^ 61 = unfold footer_size in ground arith in
    let (start, front) =
      rest-open_reader bytes (omega (arith, length-footer_of stream error_status payload, small)) in
    let fields =
      Reads->>= (located (read_bits 24)) (read_checks stream d) (bits_of 24 (length payload)) _
        (located-Reads (read_bits 24) (length payload) (bits_of 24 (length payload))
          (read_bits-Reads 24 (length payload) (omega arith) h.fits))
        (read_checks-Reads stream error_status payload d h
          (crc_of-lt stream error_status payload h)) in
    let (r, done, _) = fields (open_reader bytes) [] start (
      front
      ∙ footer_of_lem stream error_status payload
      ∙ sym (append-nil (footer_bits stream error_status payload))) in
    (r, >>=-ok (located require_byte_aligned) _ (aligned_start bytes) ∙ done)
