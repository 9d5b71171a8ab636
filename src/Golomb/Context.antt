-- ===== src/Golomb/Context.antt =====
-- src/entropy/golomb_rice_context.cpp: the adaptive state of one context, and the coding of a
-- sample difference under it. The 64-bit fields are integers without a bound.
use mffv.Common.{
  ℕ, zero, suc, ◌+◌, ◌-◌, ◌/◌, ◌%◌, ◌^◌, Bool, true, false, ◌||◌, Option, some, none, bit_and, ltb,
  leb, ◌==◌, if◌then◌else◌,
}
use mffv.Common.Int.{ℤ, pos, negsuc, ltb_ℤ, leb_ℤ, eqb_ℤ, ◌+ℤ◌, ◌-ℤ◌, ◌*ℤ◌, abs}
use mffv.Common.Status.{ErrorCode, make_error, Outcome, fail, ◌>>=◌, return}
use mffv.Util.RfcMath.{arithmetic_right_shift, min_ℤ, max_ℤ}
use mffv.Bitstream.Reader.{BitReader}
use mffv.Bitstream.Writer.{BitWriter}
use mffv.Golomb.Reader.{read_signed}
use mffv.Golomb.Writer.{write_signed}

pub record GolombRiceContextState : Type 0 where
  pub drift : ℤ
  pub error_sum : ℤ
  pub bias : ℤ
  pub count : ℤ

unfoldable pub initial_context : GolombRiceContextState
initial_context = record { drift = pos 0; error_sum = pos 4; bias = pos 0; count = pos 1 }

-- All three failures are `InvalidState`.
unfoldable pub validate_state : GolombRiceContextState → Bool
validate_state s =
    if leb_ℤ s.count (pos 0) || ltb_ℤ (pos 128) s.count
    then false
    else if ltb_ℤ s.error_sum (pos 0)
    then false
    else if ltb_ℤ s.bias (negsuc 127) || ltb_ℤ (pos 127) s.bias
    then false
    else true

-- The loop of `derive_k`: `left` is 31 - k, so the round that would pass 31 fails.
unfoldable pub derive_k_loop : ℤ → ℕ → ℕ → ℤ → Option ℕ
derive_k_loop error_sum zero k threshold = if ltb_ℤ threshold error_sum then none else some k
derive_k_loop error_sum (suc left) k threshold =
    let more = derive_k_loop error_sum left (k + 1) (threshold *ℤ pos 2) in
    if ltb_ℤ threshold error_sum then more else some k

unfoldable pub derive_k : GolombRiceContextState → Option ℕ
derive_k s = derive_k_loop s.error_sum 31 0 s.count

-- `static_cast<std::uint64_t>(value)`
abbrev pub to_u64 : ℤ → ℕ
to_u64 (pos n) = n % 2 ^ 64
to_u64 (negsuc n) = 2 ^ 64 - 1 - n % 2 ^ 64

unfoldable pub sign_extend : ℤ → ℕ → ℤ
sign_extend value bits =
    let range = 2 ^ bits in
    let sign = range / 2 in
    let encoded = bit_and (to_u64 value) (range - 1) in
    if leb sign encoded then pos encoded -ℤ pos range else pos encoded

-- The halving at 128 samples.
unfoldable pub halve : GolombRiceContextState → GolombRiceContextState
halve s = record s {
  count = arithmetic_right_shift s.count 1;
  drift = arithmetic_right_shift s.drift 1;
  error_sum = arithmetic_right_shift s.error_sum 1;
}

unfoldable pub adjust_bias : GolombRiceContextState → GolombRiceContextState
adjust_bias s =
    if leb_ℤ s.drift (pos 0 -ℤ s.count)
    then record s {
      bias = max_ℤ (s.bias -ℤ pos 1) (negsuc 127);
      drift = max_ℤ (s.drift +ℤ s.count) (pos 0 -ℤ s.count +ℤ pos 1);
    }
    else if ltb_ℤ (pos 0) s.drift
    then record s {
      bias = min_ℤ (s.bias +ℤ pos 1) (pos 127);
      drift = min_ℤ (s.drift -ℤ s.count) (pos 0);
    }
    else s

unfoldable pub update_state : GolombRiceContextState → ℤ → GolombRiceContextState
update_state s value =
    let added = record s { error_sum = s.error_sum +ℤ abs value; drift = s.drift +ℤ value } in
    let halved = if eqb_ℤ s.count (pos 128) then halve added else added in
    adjust_bias (record halved { count = halved.count +ℤ pos 1 })

-- `2 * drift < -count`: the coded value is then the complement, -1 - value.
unfoldable pub is_inverted : GolombRiceContextState → Bool
is_inverted s = ltb_ℤ (pos 2 *ℤ s.drift) (pos 0 -ℤ s.count)

unfoldable pub complement_if : Bool → ℤ → ℤ
complement_if inverted value = if inverted then negsuc 0 -ℤ value else value

-- The state is returned on success only: on every failure it is as it was.
unfoldable pub read_golomb_rice_symbol :
    GolombRiceContextState → ℕ → BitReader → Outcome BitReader (ℤ × GolombRiceContextState)
read_golomb_rice_symbol s bits r =
    if validate_state s
    then if bits == 0 || ltb 31 bits
      then fail (make_error ErrorCode.invalid_argument) r
      else elim (derive_k s) [
        | none ↦ fail (make_error ErrorCode.invalid_state) r
        | some k ↦
            (do
              coded_value ← read_signed k bits
              let value = complement_if (is_inverted s) coded_value
              return (sign_extend (value +ℤ s.bias) bits, update_state s value))
              r
      ]
    else fail (make_error ErrorCode.invalid_state) r

unfoldable pub read_golomb_rice_run_interruption :
    GolombRiceContextState → ℕ → BitReader → Outcome BitReader (ℤ × GolombRiceContextState)
read_golomb_rice_run_interruption s bits = do
  (value, s') ← read_golomb_rice_symbol s bits
  return ((if ltb_ℤ value (pos 0) then value else value +ℤ pos 1), s')

unfoldable pub write_golomb_rice_symbol :
    GolombRiceContextState → ℕ → ℤ → BitWriter → Outcome BitWriter GolombRiceContextState
write_golomb_rice_symbol s bits value w =
    if validate_state s
    then if bits == 0 || ltb 31 bits
      then fail (make_error ErrorCode.invalid_argument) w
      else elim (derive_k s) [
        | none ↦ fail (make_error ErrorCode.invalid_state) w
        | some k ↦
            let adaptive_value = sign_extend (value -ℤ s.bias) bits in
            (write_signed k bits (complement_if (is_inverted s) adaptive_value) >>= λ _.
            return (update_state s adaptive_value))
              w
      ]
    else fail (make_error ErrorCode.invalid_state) w

unfoldable pub write_golomb_rice_run_interruption :
    GolombRiceContextState → ℕ → ℤ → BitWriter → Outcome BitWriter GolombRiceContextState
write_golomb_rice_run_interruption s bits value w =
    if ltb_ℤ value (pos 0)
    then write_golomb_rice_symbol s bits value w
    else if ltb_ℤ (pos 0) value
    then write_golomb_rice_symbol s bits (value -ℤ pos 1) w
    else fail (make_error ErrorCode.invalid_argument) w
