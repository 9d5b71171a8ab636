-- ===== src/Util/RfcMath.antt =====
-- src/util/rfc_math.cpp. No operation of median3 and wrap_sample_difference overflows on 32-bit
-- arguments; that of arithmetic_right_shift does at values near the least of 64 bits only.
use mffv.Common.{ℕ, zero, suc, ◌+◌, ◌-◌, ◌/◌, ◌%◌, ◌^◌, ◌||◌, leb, ◌==◌, if◌then◌else◌}
use mffv.Common.Int.{ℤ, pos, negsuc, ltb_ℤ, ◌+ℤ◌, ◌-ℤ◌}

-- -n
abbrev pub neg_ℕ : ℕ → ℤ
neg_ℕ zero = pos 0
neg_ℕ (suc n) = negsuc n

-- The quotient and the remainder of C++, towards zero, by a positive divisor.
abbrev pub tdiv : ℤ → ℕ → ℤ
tdiv (pos n) d = pos (n / d)
tdiv (negsuc n) d = neg_ℕ ((n + 1) / d)

abbrev pub tmod : ℤ → ℕ → ℤ
tmod (pos n) d = pos (n % d)
tmod (negsuc n) d = neg_ℕ ((n + 1) % d)

-- -(((-value) + divisor - 1) / divisor) for a negative value.
unfoldable pub arithmetic_right_shift : ℤ → ℕ → ℤ
arithmetic_right_shift (pos n) shift =
    if shift == 0 then pos n else if leb 63 shift then pos 0 else pos (n / 2 ^ shift)
arithmetic_right_shift (negsuc n) shift =
    if shift == 0
    then negsuc n
    else if leb 63 shift
    then negsuc 0
    else neg_ℕ ((n + 1 + 2 ^ shift - 1) / 2 ^ shift)

abbrev pub min_ℤ : ℤ → ℤ → ℤ
min_ℤ a b = if ltb_ℤ b a then b else a

abbrev pub max_ℤ : ℤ → ℤ → ℤ
max_ℤ a b = if ltb_ℤ a b then b else a

unfoldable pub median3 : ℤ → ℤ → ℤ → ℤ
median3 a b c = max_ℤ (min_ℤ a b) (min_ℤ (max_ℤ a b) c)

unfoldable pub wrap_sample_difference : ℤ → ℕ → ℤ
wrap_sample_difference value bits =
    if bits == 0 || leb 31 bits
    then value
    else let range = 2 ^ bits in
      let half_range = range / 2 in
      let r = tmod value range in
      if ltb_ℤ r (neg_ℕ half_range)
      then r +ℤ pos range
      else if ltb_ℤ r (pos half_range)
      then r
      else r -ℤ pos range
