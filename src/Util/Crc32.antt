-- ===== src/Util/Crc32.antt =====
-- src/util/crc32.cpp: the CRC of FFV1, highest bit first, from remainder 0.
pub mod Detect
pub mod Checks
use mffv.Common.{
  ℕ, zero, suc, ◌+◌, ◌*◌, ◌%◌, ◌^◌, List, [], ◌∷◌, bit_and, bit_xor, ◌==◌, if◌then◌else◌,
}

-- `kPolynomial`
abbrev pub polynomial : ℕ
polynomial = 0x04c11db7

-- One round of the inner loop on the 32-bit remainder.
unfoldable pub crc_step : ℕ → ℕ
crc_step remainder =
    if bit_and remainder 0x80000000 == 0
    then remainder * 2 % 2 ^ 32
    else bit_xor (remainder * 2 % 2 ^ 32) polynomial

unfoldable pub crc_rounds : ℕ → ℕ → ℕ
crc_rounds zero remainder = remainder
crc_rounds (suc rounds) remainder = crc_rounds rounds (crc_step remainder)

unfoldable pub crc_byte : ℕ → ℕ → ℕ
crc_byte remainder byte = crc_rounds 8 (bit_xor remainder (byte * 2 ^ 24))

unfoldable pub crc_from : ℕ → List ℕ → ℕ
crc_from remainder [] = remainder
crc_from remainder (byte ∷ bytes) = crc_from (crc_byte remainder byte) bytes

unfoldable pub crc32_ieee_msb : List ℕ → ℕ
unfolding crc_from
crc32_ieee_msb bytes = crc_from 0 bytes
