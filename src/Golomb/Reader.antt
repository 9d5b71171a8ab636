-- ===== src/Golomb/Reader.antt =====
-- src/entropy/golomb_rice_reader.cpp: the class `GolombRiceReader`, which holds a reference to a
-- bit reader: its state is that reader's.
use mffv.Common.{
  ℕ, zero, suc, ◌+◌, ◌-◌, ◌*◌, ◌/◌, ◌%◌, ◌^◌, ◌||◌, bit_and, ltb, leb, ◌==◌, if◌then◌else◌,
}
use mffv.Common.Int.{ℤ, pos, negsuc, ltb_ℤ}
use mffv.Common.Status.{
  ErrorCode, make_byte_error, set_byte_location_if_missing, Outcome, ok, fail, ◌>>=◌, return,
}
use mffv.Bitstream.Reader.{BitReader, read_bit, read_bits}

-- The loop of `read_unsigned` over at most twelve bits, with the rounds left, and what follows it.
unfoldable pub read_unsigned_loop : ℕ → ℕ → ℕ → ℕ → BitReader → Outcome BitReader ℕ
read_unsigned_loop k bits zero prefix = do
  escaped ← read_bits bits
  return ((escaped + 11) % 2 ^ 64)
read_unsigned_loop k bits (suc left) prefix = do
  bit ← read_bit
  if bit == 0
      then read_unsigned_loop k bits left (prefix + 1)
      else read_bits k >>= λ suffix. return ((prefix * 2 ^ k % 2 ^ 64 + suffix) % 2 ^ 64)

unfoldable pub read_unsigned : ℕ → ℕ → BitReader → Outcome BitReader ℕ
read_unsigned k bits_per_raw_sample = read_unsigned_loop k bits_per_raw_sample 12 0

-- `add_start_offset`, on the outcome.
unfoldable pub add_start_offset : {A : Type 0} → ℕ → Outcome BitReader A → Outcome BitReader A
add_start_offset start_bit (ok a r) = ok a r
add_start_offset start_bit (fail e r) = fail (set_byte_location_if_missing e (start_bit / 8)) r

-- `folded & 1` tells the sign, `folded >> 1` the magnitude: -magnitude - 1 is `negsuc magnitude`.
unfoldable pub unfold_sign : ℕ → ℤ
unfold_sign folded = if bit_and folded 1 == 0 then pos (folded / 2) else negsuc (folded / 2)

unfoldable pub checked_int32 : ℕ → ℤ → BitReader → Outcome BitReader ℤ
checked_int32 start_bit value r =
    if ltb_ℤ value (negsuc (2 ^ 31 - 1)) || ltb_ℤ (pos (2 ^ 31 - 1)) value
    then fail (make_byte_error ErrorCode.syntax_error (start_bit / 8)) r
    else ok value r

unfoldable pub read_signed : ℕ → ℕ → BitReader → Outcome BitReader ℤ
read_signed k bits_per_raw_sample r =
    let start_bit = r.bit_position in
    if leb 32 k
    then fail (make_byte_error ErrorCode.invalid_argument (start_bit / 8)) r
    else if bits_per_raw_sample == 0 || ltb 31 bits_per_raw_sample
    then fail (make_byte_error ErrorCode.invalid_argument (start_bit / 8)) r
    else ((λ r'. add_start_offset start_bit (read_unsigned k bits_per_raw_sample r')) >>= λ folded.
          checked_int32 start_bit (unfold_sign folded))
        r
