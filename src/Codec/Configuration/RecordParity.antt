-- ===== src/Codec/Configuration/RecordParity.antt =====
-- The CRC at the end of a configuration record: append_crc_parity of
-- src/codec/configuration_record_writer.cpp and the check of
-- src/codec/configuration_record_parser.cpp.
use mffv.Common.{
  ℕ, zero, suc, ◌+◌, ◌-◌, ◌/◌, ◌%◌, ◌^◌, ◌≤◌, ◌≡◌, refl, arith, List, [], ◌∷◌, ◌++◌, false, ltb,
  length, length-append, take-length, get_or-append_left,
}
use mffv.Common.Status.{ok}
use mffv.Util.Crc32.{crc32_ieee_msb}
use mffv.Util.Crc32.Checks.{AllBytes, AllBytes-append, big_endian, crc32_iff}
use mffv.Range.Coder.{RangeCoder}
use mffv.Range.Encoder.{RangeEncoder}
use mffv.Range.Prefix.{prefix, value, prefix_ext}
use mffv.Range.Steps.{IsBytes, IsInterval}
use mffv.Range.Follow.{Hits}
use mffv.Codec.Configuration.Record.{append_crc_parity, check_record}

all_of : (xs : List ℕ) → IsBytes xs → AllBytes xs
all_of [] h = tt
all_of (x ∷ xs) h = (h 0, all_of xs (λ i. h (suc i)))

each_of : (xs : List ℕ) → AllBytes xs → IsBytes xs
each_of [] h i = omega arith
each_of (x ∷ xs) h zero = h.0
each_of (x ∷ xs) h (suc i) = each_of xs h.1 i

-- The record of a payload.
abbrev pub with_crc : List ℕ → List ℕ
with_crc payload = payload ++ big_endian (crc32_ieee_msb payload)

big_endian-AllBytes : (crc : ℕ) → AllBytes (big_endian crc)
big_endian-AllBytes crc = (omega arith, (omega arith, (omega arith, (omega arith, tt))))

module _ (payload : List ℕ) (bytes : IsBytes payload) where
  pub with_crc-IsBytes : IsBytes (with_crc payload)
  with_crc-IsBytes =
      let crc = crc32_ieee_msb payload in
      each_of (with_crc payload)
        (AllBytes-append payload (big_endian crc) (all_of payload bytes) (big_endian-AllBytes crc))

  pub length-with_crc : length (with_crc payload) ≡ length payload + 4
  length-with_crc = length-append payload (big_endian (crc32_ieee_msb payload))

  crc-with_crc : crc32_ieee_msb (with_crc payload) ≡ 0
  crc-with_crc =
      let crc = crc32_ieee_msb payload in
      (crc32_iff payload (crc / 2 ^ 24 % 256) (crc / 2 ^ 16 % 256) (crc / 2 ^ 8 % 256) (crc % 256)
          (all_of payload bytes) (omega arith) (omega arith) (omega arith) (omega arith)).1
        refl

  pub append_crc_parity_lem :
      (max_size : ℕ) (e : RangeEncoder)
      → length payload + 4 ≤ max_size
      → append_crc_parity max_size payload e ≡ ok (with_crc payload) e
  unfolding append_crc_parity
  append_crc_parity_lem max_size e room =
      let fits : ltb (max_size - 4) (length payload) ≡ false = ground (arith, room) in rw fits refl

  -- What the parser keeps of it.
  pub check_record_lem : (c : RangeCoder) → check_record 3 (with_crc payload) c ≡ ok payload c
  unfolding check_record
  check_record_lem c =
      let big_enough : ltb (length (with_crc payload)) 4 ≡ false =
        ground (arith, length-with_crc) in
      let size : length (with_crc payload) - 4 ≡ length payload = omega (arith, length-with_crc) in
      rw (big_enough, crc-with_crc, size, take-length payload (big_endian (crc32_ieee_msb payload)))
        refl

-- The lower bound of an interval, and what may stand behind it.
pub Hits-append : (e : RangeEncoder) (rest : List ℕ) → IsInterval e → Hits e (e.low_bytes ++ rest)
Hits-append e rest i =
    let same : prefix (e.low_bytes ++ rest) (length e.low_bytes) ≡ value e.low_bytes =
      unfold value in
      prefix_ext (e.low_bytes ++ rest) e.low_bytes (length e.low_bytes)
        (λ i lt. get_or-append_left e.low_bytes rest i 0 lt) in
    record { from_low = omega (arith, same); below_high = omega (arith, same, i.range_low) }
