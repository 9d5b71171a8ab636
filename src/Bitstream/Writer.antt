-- ===== src/Bitstream/Writer.antt =====
-- src/bitstream/bit_writer.cpp: the class `BitWriter`.
use mffv.Common.{
  ℕ, zero, suc, ◌+◌, ◌-◌, ◌/◌, ◌%◌, ◌^◌, bit_and, bit_or, Bool, true, false, ◌&&◌, List, [], ◌∷◌,
  ◌++◌, ltb, leb, ◌==◌, if◌then◌else◌, length,
}
use mffv.Common.Status.{ErrorCode, make_error, Outcome, ok, fail, ◌>>◌, return}

-- `max_size` is what `bytes_.max_size()` answers: a constant of the standard library's vector.
pub record BitWriter : Type 0 where
  pub bytes : List ℕ
  pub bit_position : ℕ
  pub finalized : Bool
  pub max_size : ℕ

-- `reset`, and the initial state: nothing but the constant stays.
unfoldable pub reset : BitWriter → BitWriter
reset w = record { bytes = []; bit_position = 0; finalized = false; max_size = w.max_size }

-- `bytes_.back() |= mask`
unfoldable pub or_back : List ℕ → ℕ → List ℕ
or_back [] mask = []
or_back (b ∷ []) mask = bit_or b mask ∷ []
or_back (b ∷ c ∷ bs) mask = b ∷ or_back (c ∷ bs) mask

-- The mutation at the end of `write_bit`: the bit goes to the last byte, which is new at a boundary.
unfoldable pub put_bit : List ℕ → ℕ → ℕ → List ℕ
unfolding or_back
put_bit bytes bit_in_byte bit =
    let grown = if bit_in_byte == 0 then bytes ++ (0 ∷ []) else bytes in
    if bit == 0 then grown else or_back grown (2 ^ (7 - bit_in_byte))

unfoldable pub write_bit : ℕ → BitWriter → Outcome BitWriter (Unit {0})
write_bit bit w =
    if w.finalized
    then fail (make_error ErrorCode.invalid_state) w
    else if ltb 1 bit
    then fail (make_error ErrorCode.invalid_argument) w
    else if w.bit_position == 2 ^ 64 - 1
    then fail (make_error ErrorCode.resource_exhausted) w
    else if w.bit_position % 8 == 0 && length w.bytes == w.max_size
    then fail (make_error ErrorCode.resource_exhausted) w
    else ok tt (record w {
      bytes = put_bit w.bytes (w.bit_position % 8) bit;
      bit_position = w.bit_position + 1;
    })

-- The loop of `write_bits`, with the rounds left: round `i` writes bit `bit_count - 1 - i`.
unfoldable pub write_bits_loop : ℕ → ℕ → BitWriter → Outcome BitWriter (Unit {0})
write_bits_loop zero value = return tt
write_bits_loop (suc left) value = do
  write_bit (bit_and (value / 2 ^ left) 1)
  write_bits_loop left value

unfoldable pub write_bits : ℕ → ℕ → BitWriter → Outcome BitWriter (Unit {0})
write_bits value bit_count w =
    if w.finalized
    then fail (make_error ErrorCode.invalid_state) w
    else if ltb 64 bit_count
    then fail (make_error ErrorCode.invalid_argument) w
    else if ltb bit_count 64 && leb (2 ^ bit_count) value
    then fail (make_error ErrorCode.invalid_argument) w
    else if ltb (2 ^ 64 - 1 - bit_count) w.bit_position
    then fail (make_error ErrorCode.resource_exhausted) w
    else write_bits_loop bit_count value w

unfoldable pub byte_align_zero : BitWriter → Outcome BitWriter (Unit {0})
byte_align_zero w =
    if w.finalized
    then fail (make_error ErrorCode.invalid_state) w
    else if w.bit_position % 8 == 0
    then ok tt w
    else write_bits 0 (8 - w.bit_position % 8) w

unfoldable pub require_byte_aligned : BitWriter → Outcome BitWriter (Unit {0})
require_byte_aligned w =
    if w.bit_position % 8 == 0 then ok tt w else fail (make_error ErrorCode.invalid_state) w

-- The bytes are copied out; the writer keeps its own and refuses further writes.
unfoldable pub finalize : BitWriter → Outcome BitWriter (List ℕ)
finalize w =
    if w.finalized
    then fail (make_error ErrorCode.invalid_state) w
    else (require_byte_aligned >> λ w'. ok w'.bytes (record w' { finalized = true })) w
