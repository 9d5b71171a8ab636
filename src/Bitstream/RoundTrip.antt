-- ===== src/Bitstream/RoundTrip.antt =====
-- From a writer to a reader: fields of any widths, aligned, finalized and read back.
use mffv.Common.{
  ℕ, ◌+◌, ◌-◌, ◌/◌, ◌%◌, ◌^◌, ◌≤◌, ◌<◌, ◌≡◌, refl, ◌∙◌, arith, true, false, List, [], ◌∷◌, ◌++◌,
  length, length-append, append-nil, ◌==◌, Bool-cases, inl, inr, ==_iff, Bool-cases,
}
use mffv.Common.Bits.{bit_and_mask}
use mffv.Common.Status.{Outcome, ok, return, ◌>>=◌, ◌>>◌, >>=-ok}
use mffv.Bitstream.Reader.{BitReader, open_reader, read_bits, remaining_bits, bit_at}
use mffv.Bitstream.Writer.{
  BitWriter, reset, write_bits, byte_align_zero, finalize, require_byte_aligned,
}
use mffv.Bitstream.Content.{rest, content, bits_from, bits_of, length-bits_of}
use mffv.Bitstream.Writes.{
  IsOpen, HasRoom, IsAppended, IsAppended-refl, Writes, Writes-return, Writes->>, write_bits-Writes,
  position_appended,
}
use mffv.Bitstream.Reads.{
  IsInside, Reads, Reads-return, Reads->>=, read_bits-Reads, remaining_inside,
}
use native.Mathlib.Nat.{one-le-pow}

-- A field is a width and a value.
abbrev pub Field : Type 0
Field = ℕ × ℕ

abbrev pub Fit : List Field → Type 0
Fit [] = Unit
Fit ((n, v) ∷ fs) = (n ≤ 64) × (v < 2 ^ n) × Fit fs

abbrev pub width : List Field → ℕ
width [] = 0
width ((n, v) ∷ fs) = n + width fs

unfoldable pub field_bits : List Field → List ℕ
field_bits [] = []
field_bits ((n, v) ∷ fs) = bits_of n v ++ field_bits fs

unfoldable pub write_fields : List Field → BitWriter → Outcome BitWriter (Unit {0})
write_fields [] = return tt
write_fields ((n, v) ∷ fs) = do write_bits v n; write_fields fs

-- Reads as many numbers as there are fields, of their widths.
unfoldable pub read_fields : List Field → BitReader → Outcome BitReader (List ℕ)
read_fields [] = return []
read_fields ((n, v) ∷ fs) = do x ← read_bits n; xs ← read_fields fs; return (x ∷ xs)

abbrev pub values : List Field → List ℕ
values [] = []
values ((n, v) ∷ fs) = v ∷ values fs

length-field_bits : (fs : List Field) → length (field_bits fs) ≡ width fs
unfolding field_bits
length-field_bits [] = refl
length-field_bits ((n, v) ∷ fs) =
    omega
      (arith, length-append (bits_of n v) (field_bits fs), length-bits_of n v, length-field_bits fs)

write_fields-Writes : (fs : List Field) → Fit fs → Writes (write_fields fs) (field_bits fs)
unfolding write_fields field_bits
write_fields-Writes [] h = Writes-return
write_fields-Writes ((n, v) ∷ fs) (small, fits, more) =
    Writes->> (bits_of n v) (field_bits fs) (write_bits-Writes n v small fits)
      (write_fields-Writes fs more)

read_fields-Reads : (fs : List Field) → Fit fs → Reads (read_fields fs) (values fs) (field_bits fs)
unfolding read_fields field_bits
read_fields-Reads [] h = Reads-return []
read_fields-Reads ((n, v) ∷ fs) (small, fits, more) =
    Reads->>= (read_bits n) _ (bits_of n v) (field_bits fs) (read_bits-Reads n v small fits) (
      rw (← append-nil (field_bits fs)) (
        Reads->>= (read_fields fs) (λ xs. return (v ∷ xs)) (field_bits fs) []
          (read_fields-Reads fs more) (Reads-return (v ∷ values fs))))

zero_bit : (q : ℕ) → bit_at [] q ≡ 0
unfolding bit_at
zero_bit q = omega (arith, bit_and_mask 1 (0 / 2 ^ (7 - q % 8)))

-- A fresh writer is open and empty.
pub reset-IsOpen : (w : BitWriter) → IsOpen (reset w)
unfolding reset
reset-IsOpen w = record {
  open_for_writing = refl;
  sized = refl;
  bytes = λ i. omega arith;
  clear = λ q h. zero_bit q;
}

-- On an open writer with room for seven bits, byte_align_zero succeeds, appends fewer than eight
-- zero bits and ends on a byte boundary.
pub byte_align_zero_lem :
    (w : BitWriter)
    → IsOpen w
    → HasRoom w 7
    → (pad : ℕ) × (w' : BitWriter) × (byte_align_zero w ≡ ok tt w')
      × IsAppended w (bits_of pad 0) w'
      × (w'.bit_position % 8 ≡ 0)
      × (pad < 8)
byte_align_zero_lem w o h = elim (Bool-cases (w.bit_position % 8 == 0)) [
  | inl aligned ↦ (
    0,
    w,
    keeps aligned,
    unfold bits_of in IsAppended-refl o,
    (==_iff _ _).0 aligned,
    omega arith,
  )
  | inr ragged ↦
      let part : 0 < w.bit_position % 8 = ground (arith, ragged) in
      let pad : ℕ = 8 - w.bit_position % 8 in
      let (w', e, a) =
        write_bits-Writes pad 0 (omega arith) (one-le-pow pad 2 (omega arith)) w o
          (omega (arith, length-bits_of pad 0)) in
      (
        pad,
        w',
        pads ragged ∙ e,
        a,
        ground (arith, position_appended a, length-bits_of pad 0, part),
        omega arith,
      )
]
  where
    keeps : (w.bit_position % 8 == 0) ≡ true → byte_align_zero w ≡ ok tt w
    keeps t = unfold byte_align_zero in ground (arith, t, o.open_for_writing)

    pads :
        (w.bit_position % 8 == 0) ≡ false
        → byte_align_zero w ≡ write_bits 0 (8 - w.bit_position % 8) w
    pads t = unfold byte_align_zero in ground (arith, t, o.open_for_writing)

abbrev sealed : BitWriter → BitWriter
sealed w = record w { finalized = true }

finalize_ok :
    (w : BitWriter) → IsOpen w → w.bit_position % 8 ≡ 0 → finalize w ≡ ok w.bytes (sealed w)
unfolding finalize
finalize_ok w o aligned = simp o.open_for_writing (>>=-ok require_byte_aligned _ passes)
  where
    passes : require_byte_aligned w ≡ ok tt w
    passes = unfold require_byte_aligned in ground (arith, aligned)

-- A finalized vector holds the bits written, whole bytes of them.
pub finalize_lem :
    (w : BitWriter)
    → IsOpen w
    → w.bit_position % 8 ≡ 0
    → w.bit_position < 2 ^ 64
    → (finalize w ≡ ok w.bytes (sealed w))
      × IsInside (open_reader w.bytes)
      × (rest (open_reader w.bytes) ≡ content w)
finalize_lem w o aligned small = (finalize_ok w o aligned, start, holds)
  where
    start : IsInside (open_reader w.bytes)
    start =
        unfold open_reader in
        record { countable = omega (arith, o.sized, aligned, small); inside = omega arith }

    all_left : remaining_bits (open_reader w.bytes) ≡ w.bit_position
    all_left =
        unfold open_reader in
        omega (arith, remaining_inside (open_reader w.bytes) start, o.sized, aligned)

    holds : rest (open_reader w.bytes) ≡ content w
    holds = unfold rest content in rw all_left (unfold open_reader in refl)

-- Writes the fields to a fresh writer, aligns and finalizes it.
unfoldable pub pack : List Field → BitWriter → Outcome BitWriter (List ℕ)
pack fs = do write_fields fs; byte_align_zero; finalize

-- With room for the fields and seven bits more, a list of fields of up to 64 bits each that fit
-- their widths is written, aligned and finalized without a failure, and a reader of the bytes
-- returns the same values.
pub read_fields-pack :
    (fs : List Field) (w : BitWriter)
    → Fit fs
    → HasRoom (reset w) (width fs + 7)
    → (bytes : List ℕ) × (w' : BitWriter) × (r : BitReader) × (pack fs (reset w) ≡ ok bytes w')
      × (read_fields fs (open_reader bytes) ≡ ok (values fs) r)
read_fields-pack fs w h room =
    let n = length-field_bits fs in
    let (a, ea, pa) = write_fields-Writes fs h (reset w) (reset-IsOpen w) (omega (arith, n)) in
    let (pad, b, eb, pb, aligned, small) =
      byte_align_zero_lem a pa.is_open (omega (arith, n, position_appended pa, pa.same_limit)) in
    let (ec, start, holds) =
      finalize_lem b pb.is_open aligned
        (omega (arith, n, position_appended pa, position_appended pb, length-bits_of pad 0)) in
    let front : rest (open_reader b.bytes) ≡ field_bits fs ++ bits_of pad 0 =
      holds ∙ pb.appended ∙ rw (pa.appended, empty) refl in
    let (r, er, pr) = read_fields-Reads fs h (open_reader b.bytes) (bits_of pad 0) start front in
    (
      b.bytes,
      sealed b,
      r,
      unfold pack in (>>=-ok (write_fields fs) _ ea ∙ >>=-ok byte_align_zero _ eb ∙ ec),
      er,
    )
  where
    empty : content (reset w) ≡ []
    empty = unfold content reset bits_from in refl
