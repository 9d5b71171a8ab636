-- ===== src/Golomb/Writer.antt =====
-- src/entropy/golomb_rice_writer.cpp: the class `GolombRiceWriter`, over a bit writer.
use mffv.Common.{
  ℕ, zero, suc, ◌+◌, ◌-◌, ◌*◌, ◌/◌, ◌^◌, ◌||◌, bit_and, ltb, leb, ◌==◌, if◌then◌else◌,
}
use mffv.Common.Int.{ℤ, pos, negsuc}
use mffv.Common.Status.{ErrorCode, make_error, Outcome, fail, ◌>>◌, return}
use mffv.Bitstream.Writer.{BitWriter, write_bit, write_bits}

-- `for (index = 0; index < prefix; ++index) write_bit(0)`
unfoldable pub write_zeros : ℕ → BitWriter → Outcome BitWriter (Unit {0})
write_zeros zero = return tt
write_zeros (suc left) = do write_bit 0; write_zeros left

unfoldable pub write_unsigned : ℕ → ℕ → ℕ → BitWriter → Outcome BitWriter (Unit {0})
write_unsigned k bits_per_raw_sample value w =
    if leb value (12 * 2 ^ k - 1)
    then (do
      write_zeros (value / 2 ^ k)
      write_bit 1
      write_bits (bit_and value (if k == 0 then 0 else 2 ^ k - 1)) k)
        w
    else if ltb (2 ^ bits_per_raw_sample - 1) (value - 11)
    then fail (make_error ErrorCode.invalid_argument) w
    else (do write_bits 0 12; write_bits (value - 11) bits_per_raw_sample) w

-- -2 * value - 1 for a negative value, else value * 2.
unfoldable pub fold_sign : ℤ → ℕ
fold_sign (pos n) = n * 2
fold_sign (negsuc n) = 2 * (n + 1) - 1

unfoldable pub write_signed : ℕ → ℕ → ℤ → BitWriter → Outcome BitWriter (Unit {0})
write_signed k bits_per_raw_sample value w =
    if leb 32 k
    then fail (make_error ErrorCode.invalid_argument) w
    else if bits_per_raw_sample == 0 || ltb 31 bits_per_raw_sample
    then fail (make_error ErrorCode.invalid_argument) w
    else write_unsigned k bits_per_raw_sample (fold_sign value) w
