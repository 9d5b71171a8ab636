-- ===== src/Range/Read.antt =====
-- src/entropy/range_coder.cpp: `read_rac`, `refill` and the symbols built on them.
use mffv.Common.{
  ℕ, zero, suc, ◌+◌, ◌-◌, ◌*◌, ◌/◌, ◌%◌, ◌^◌, Bool, true, false, ◌||◌, length, get_or, bit_or,
  bit_and, ltb, leb, ◌==◌, if◌then◌else◌,
}
use mffv.Common.Int.{ℤ, pos, ◌-ℤ◌, pos_part}
use mffv.Common.Status.{ErrorCode, make_error, ok, fail, ◌>>=◌, return}
use mffv.Range.Transition.{range_zero_state, range_one_state}
use mffv.Range.Contexts.{state_at, set_state}
use mffv.Range.Coder.{RangeCoder, Action}
use Prim.Native.Nat.{min}

unfoldable pub refill : RangeCoder → RangeCoder
refill c =
    if leb 256 c.range
    then c
    else let shifted = record c {
      range = c.range * 2 ^ 8 % 2 ^ 32;
      low = c.low * 2 ^ 8 % 2 ^ 32;
    } in
      if c.end
      then shifted
      else if ltb c.byte_position (length c.payload)
      then record shifted {
        low = (c.low * 2 ^ 8 % 2 ^ 32 + get_or c.payload c.byte_position 0) % 2 ^ 32;
        byte_position = c.byte_position + 1;
        end = leb (length c.payload) (c.byte_position + 1);
      }
      else record shifted { end = true }

-- What the legacy arithmetic adds to `low` after a one bit.
unfoldable pub one_path_carry : RangeCoder → ℕ → ℕ
one_path_carry c state =
    if c.legacy_v0_arithmetic
    then (if bit_and (c.range * state + 255) 0xff == 0 then 0 else 1)
      + (if bit_and (c.range * (256 - state)) 0xff == 0 then 0 else 1)
    else 0

-- The share of the range that belongs to a one bit.
unfoldable pub range_offset : RangeCoder → ℕ → ℕ
range_offset c state =
    (c.range * state + (if c.legacy_v0_arithmetic then 255 else 0)) / 256 % 2 ^ 32

-- The state is passed by reference: the new one is returned beside the bit.
unfoldable pub read_rac : ℕ → Action (Bool × ℕ)
read_rac state c =
    if c.initialized
    then (let rangeoff = range_offset c state in
        let zero_range = (c.range + 2 ^ 32 - rangeoff) % 2 ^ 32 in
        if ltb c.low zero_range
        then ok (false, range_zero_state c.state_transition state)
            (refill (record c { range = zero_range }))
        else let filled = refill (record c { low = c.low - zero_range; range = rangeoff }) in
          ok (true, range_one_state c.state_transition state)
            (record filled { low = (filled.low + one_path_carry c state) % 2 ^ 32 }))
    else fail (make_error ErrorCode.invalid_state) c

-- `read_rac(states[index], bit)` on the states of a context.
unfoldable pub read_state : ℕ → ℕ → ℕ → Action Bool
read_state bank context index c =
    (read_rac (state_at c.scalar bank context index) >>= λ p c'.
    ok p.0 (record c' { scalar = set_state c'.scalar bank context index p.1 }))
      c

unfoldable pub read_bool : Action Bool
read_bool c =
    if leb (length c.scalar.bank_sizes) 0 || get_or c.scalar.bank_sizes 0 0 == 0
    then fail (make_error ErrorCode.invalid_state) c
    else read_state 0 0 0 c

unfoldable pub read_termination_sentinel : Action (Unit {0})
read_termination_sentinel = do p ← read_rac 129; return tt

-- The unary exponent; `left` is 62 - exponent, so the round that would pass 62 fails.
unfoldable pub read_exponent : ℕ → ℕ → ℕ → ℕ → Action ℕ
read_exponent bank context zero exponent = do
  bit ← read_state bank context (1 + min exponent 9)
  if bit then (λ c. fail (make_error ErrorCode.syntax_error) c) else return exponent
read_exponent bank context (suc left) exponent = do
  bit ← read_state bank context (1 + min exponent 9)
  if bit then read_exponent bank context left (exponent + 1) else return exponent

-- The bits below the leading one, from bit `i - 1` down.
unfoldable pub read_mantissa : ℕ → ℕ → ℕ → ℕ → Action ℕ
read_mantissa bank context zero magnitude = return magnitude
read_mantissa bank context (suc i) magnitude = do
  bit ← read_state bank context (22 + min i 9)
  read_mantissa bank context i (bit_or (magnitude * 2 % 2 ^ 64) (if bit then 1 else 0))

unfoldable pub read_sign : ℕ → ℕ → Bool → ℕ → ℕ → Action ℤ
read_sign bank context true exponent magnitude = do
  bit ← read_state bank context (11 + min exponent 10)
  return (if bit then pos 0 -ℤ pos magnitude else pos magnitude)
read_sign bank context false exponent magnitude = return (pos magnitude)

unfoldable pub read_nonzero : ℕ → ℕ → Bool → Action ℤ
read_nonzero bank context is_signed = do
  exponent ← read_exponent bank context 62 0
  magnitude ← read_mantissa bank context exponent 1
  if ltb (2 ^ 63 - 1) magnitude
      then (λ c. fail (make_error ErrorCode.syntax_error) c)
      else read_sign bank context is_signed exponent magnitude

-- A symbol that is zero may carry into `low`.
unfoldable pub zero_symbol : Action ℤ
zero_symbol c =
    if c.legacy_zero_symbol_carry
    then ok (pos 0) (record c { low = (c.low + 1) % 2 ^ 32 })
    else ok (pos 0) c

unfoldable pub read_symbol : ℕ → ℕ → Bool → Action ℤ
read_symbol bank context is_signed c =
    if leb (length c.scalar.bank_sizes) bank
    then fail (make_error ErrorCode.invalid_argument) c
    else if leb (get_or c.scalar.bank_sizes bank 0) context
    then fail (make_error ErrorCode.invalid_argument) c
    else (read_state bank context 0 >>= λ bit.
          if bit then zero_symbol else read_nonzero bank context is_signed)
        c

-- The overloads without a bank or a context use bank 0 and context 0.
unfoldable pub read_unsigned : ℕ → ℕ → Action ℕ
read_unsigned bank context = do value ← read_symbol bank context false; return (pos_part value)

unfoldable pub read_signed : ℕ → ℕ → Action ℤ
read_signed bank context = read_symbol bank context true
