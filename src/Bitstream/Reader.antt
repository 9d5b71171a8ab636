-- ===== src/Bitstream/Reader.antt =====
-- src/bitstream/bit_reader.cpp: the class `BitReader`. A byte span is a list of bytes.
use mffv.Common.{
  ℕ, zero, suc, ◌+◌, ◌-◌, ◌*◌, ◌/◌, ◌%◌, ◌^◌, bit_and, bit_or, List, ltb, leb, ◌==◌, if◌then◌else◌,
  length, get_or,
}
use mffv.Common.Status.{ErrorCode, make_error, Outcome, ok, fail, ◌>>=◌, return}

pub record BitReader : Type 0 where
  pub bytes : List ℕ
  pub bit_position : ℕ

unfoldable pub open_reader : List ℕ → BitReader
open_reader bytes = record { bytes = bytes; bit_position = 0 }

unfoldable pub byte_position : BitReader → ℕ
byte_position r = r.bit_position / 8

-- `data_.size()` is a 64-bit number, and so is its product with 8.
unfoldable pub total_bits : BitReader → ℕ
total_bits r = length r.bytes * 8 % 2 ^ 64

unfoldable pub remaining_bits : BitReader → ℕ
unfolding total_bits
remaining_bits r = if leb r.bit_position (total_bits r) then total_bits r - r.bit_position else 0

-- `(value >> (7 - bit_position % 8)) & 1` of the byte at `bit_position / 8`.
unfoldable pub bit_at : List ℕ → ℕ → ℕ
bit_at bytes p = bit_and (get_or bytes (p / 8) 0 / 2 ^ (7 - p % 8)) 1

unfoldable pub read_bit : BitReader → Outcome BitReader ℕ
unfolding remaining_bits
read_bit r =
    if remaining_bits r == 0
    then fail (make_error ErrorCode.syntax_error) r
    else ok (bit_at r.bytes r.bit_position)
        (record r { bit_position = (r.bit_position + 1) % 2 ^ 64 })

-- The loop of `read_bits`, with the rounds left: `value = (value << 1) | bit`.
unfoldable pub read_bits_loop : ℕ → ℕ → BitReader → Outcome BitReader ℕ
read_bits_loop zero value = return value
read_bits_loop (suc left) value = do
  bit ← read_bit
  read_bits_loop left (bit_or (value * 2 % 2 ^ 64) bit)

unfoldable pub read_bits : ℕ → BitReader → Outcome BitReader ℕ
unfolding remaining_bits
read_bits bit_count r =
    if ltb 64 bit_count
    then fail (make_error ErrorCode.invalid_argument) r
    else if ltb (remaining_bits r) bit_count
    then fail (make_error ErrorCode.syntax_error) r
    else read_bits_loop bit_count 0 r

unfoldable pub skip_bits : ℕ → BitReader → Outcome BitReader (Unit {0})
unfolding remaining_bits
skip_bits bit_count r =
    if ltb (remaining_bits r) bit_count
    then fail (make_error ErrorCode.syntax_error) r
    else ok tt (record r { bit_position = (r.bit_position + bit_count) % 2 ^ 64 })

unfoldable pub byte_align : BitReader → Outcome BitReader (Unit {0})
byte_align r =
    if r.bit_position % 8 == 0
    then ok tt r
    else ok tt (record r { bit_position = (r.bit_position + (8 - r.bit_position % 8)) % 2 ^ 64 })

unfoldable pub require_byte_aligned : BitReader → Outcome BitReader (Unit {0})
require_byte_aligned r =
    if r.bit_position % 8 == 0 then ok tt r else fail (make_error ErrorCode.syntax_error) r
