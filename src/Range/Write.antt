-- ===== src/Range/Write.antt =====
-- src/entropy/range_encoder.cpp: `write_rac`, `add_to_low`, the symbols and the finalization.
use mffv.Common.{
  ℕ, zero, suc, ◌+◌, ◌-◌, ◌*◌, ◌/◌, ◌%◌, ◌^◌, Bool, true, false, ◌&&◌, ◌||◌, not, List, [], ◌∷◌,
  ◌++◌, length, get_or, set, bit_and, ltb, leb, ◌==◌, if◌then◌else◌, Option, some, none,
}
use mffv.Common.Int.{ℤ, pos_part, neg_part}
use mffv.Common.Status.{ErrorCode, make_error, ok, fail, ◌>>=◌, ◌>>◌, return}
use mffv.Range.Transition.{StateTransitionTable, range_zero_state, range_one_state}
use mffv.Range.Contexts.{ScalarContextStates, context_at, state_at, set_state}
use mffv.Range.Encoder.{RangeEncoder, EncoderAction, require_open}
use Prim.Native.Nat.{min}

-- The loop of `add_to_low`: `index` counts down, and stops at the front or when no carry is left.
unfoldable pub add_carry : ℕ → ℕ → List ℕ → List ℕ × ℕ
add_carry zero carry bytes = (bytes, carry)
add_carry (suc index) carry bytes =
    let sum = get_or bytes index 0 + carry % 256 in
    let more = add_carry index (carry / 256 + sum / 256) (set bytes index (sum % 256)) in
    if carry == 0 then (bytes, carry) else more

unfoldable pub add_to_low : ℕ → EncoderAction (Unit {0})
unfolding add_carry
add_to_low value e =
    let (bytes, carry) = add_carry (length e.low_bytes) value e.low_bytes in
    if carry == 0
    then ok tt (record e { low_bytes = bytes })
    else fail (make_error ErrorCode.internal_error) (record e { low_bytes = bytes })

-- The new range of a decision.
unfoldable pub zero_range : ℕ → ℕ → ℕ
zero_range range state = (range + 2 ^ 32 - range * state % 2 ^ 32 / 256) % 2 ^ 32

unfoldable pub next_range : ℕ → ℕ → Bool → ℕ
unfolding zero_range
next_range range state value =
    if value then range * state % 2 ^ 32 / 256 else zero_range range state

unfoldable pub next_state : StateTransitionTable → ℕ → Bool → ℕ
next_state table state value =
    if value then range_one_state table state else range_zero_state table state

-- A range below 256 is shifted, and a zero byte appended.
unfoldable pub renormalize : ℕ → RangeEncoder → RangeEncoder
renormalize range e =
    if ltb range 256
    then record e { range = range * 2 ^ 8 % 2 ^ 32; low_bytes = e.low_bytes ++ (0 ∷ []) }
    else record e { range = range }

unfoldable pub add_if_one : Bool → ℕ → EncoderAction (Unit {0})
add_if_one true value = add_to_low value
add_if_one false value = return tt

-- The state is passed by reference: the new one is returned.
unfoldable pub write_rac : ℕ → Bool → EncoderAction ℕ
unfolding next_range next_state renormalize
write_rac state value e =
    if next_range e.range state value == 0
    then fail (make_error ErrorCode.invalid_argument) e
    else if ltb (next_range e.range state value) 256 && length e.low_bytes == e.max_size
    then fail (make_error ErrorCode.resource_exhausted) e
    else (add_if_one value (zero_range e.range state) >>= λ _ e'.
          ok (next_state e.state_transition state value)
            (renormalize (next_range e.range state value) e'))
        e

-- `write_rac(states[index], value)` on the states of a context.
unfoldable pub write_state : ℕ → ℕ → ℕ → Bool → EncoderAction (Unit {0})
write_state bank context index value e =
    (write_rac (state_at e.scalar bank context index) value >>= λ state e'.
    ok tt (record e' { scalar = set_state e'.scalar bank context index state }))
      e

unfoldable pub write_bool : Bool → EncoderAction (Unit {0})
write_bool value = do
  require_open
  λ e.
      if leb (length e.scalar.bank_sizes) 0 || get_or e.scalar.bank_sizes 0 0 == 0
      then fail (make_error ErrorCode.invalid_state) e
      else write_state 0 0 0 value e

unfoldable pub write_termination_sentinel : EncoderAction (Unit {0})
write_termination_sentinel = do require_open; state ← write_rac 129 false; return tt

-- `std::bit_width(magnitude) - 1` for a magnitude above 0: at most 63 halvings of 64 bits.
unfoldable pub log2_loop : ℕ → ℕ → ℕ
log2_loop zero magnitude = 0
log2_loop (suc fuel) magnitude =
    let rest = suc (log2_loop fuel (magnitude / 2)) in if ltb magnitude 2 then 0 else rest

unfoldable pub log2 : ℕ → ℕ
unfolding log2_loop
log2 = log2_loop 64

-- `Decision`: an index of a state, and the bit.
abbrev pub Decision : Type 0
Decision = ℕ × Bool

-- The unary exponent: `left` ones, then a zero.
unfoldable pub exponent_decisions : ℕ → ℕ → List Decision
exponent_decisions zero index = (1 + min index 9, false) ∷ []
exponent_decisions (suc left) index = (1 + min index 9, true) ∷ exponent_decisions left (index + 1)

-- The bits of the magnitude below its leading one, from bit `i - 1` down.
unfoldable pub mantissa_decisions : ℕ → ℕ → List Decision
mantissa_decisions zero magnitude = []
mantissa_decisions (suc i) magnitude =
    (22 + min i 9, not (bit_and (magnitude / 2 ^ i) 1 == 0)) ∷ mantissa_decisions i magnitude

unfoldable pub sign_decisions : Bool → ℕ → Bool → List Decision
sign_decisions true exponent negative = (11 + min exponent 10, negative) ∷ []
sign_decisions false exponent negative = []

unfoldable pub decisions : Bool → ℕ → Bool → List Decision
unfolding exponent_decisions mantissa_decisions sign_decisions log2
decisions is_signed magnitude negative =
    if magnitude == 0
    then (0, true) ∷ []
    else let exponent = log2 magnitude in
      (0, false)
      ∷ (exponent_decisions exponent 0
          ++ (mantissa_decisions exponent magnitude ++ sign_decisions is_signed exponent negative))

-- The trial over copies of the states and of the range: the number of bytes that would be
-- appended, or `none` at a decision of zero width.
unfoldable pub trial : StateTransitionTable → List Decision → ScalarContextStates → ℕ → ℕ → Option ℕ
unfolding next_range next_state
trial table [] states range appended = some appended
trial table ((index, value) ∷ ds) states range appended =
    let state = get_or states index 0 in
    let next = next_range range state value in
    let states' = set states index (next_state table state value) in
    let more =
      trial table ds states' (if ltb next 256 then next * 2 ^ 8 % 2 ^ 32 else next)
        (if ltb next 256 then appended + 1 else appended) in
    if next == 0 then none else more

unfoldable pub write_decisions : ℕ → ℕ → List Decision → EncoderAction (Unit {0})
write_decisions bank context [] = return tt
write_decisions bank context ((index, value) ∷ ds) = do
  write_state bank context index value
  write_decisions bank context ds

-- The second loop of `write_symbol`: a decision that fails after the trial is an internal error.
unfoldable pub commit : ℕ → ℕ → List Decision → EncoderAction (Unit {0})
commit bank context ds e = elim (write_decisions bank context ds e) [
  | ok _ e' ↦ ok tt e'
  | fail _ e' ↦ fail (make_error ErrorCode.internal_error) e'
]

unfoldable pub write_symbol : ℕ → ℕ → Bool → ℕ → Bool → EncoderAction (Unit {0})
write_symbol bank context is_signed magnitude negative e =
    if leb (length e.scalar.bank_sizes) bank
    then fail (make_error ErrorCode.invalid_argument) e
    else if leb (get_or e.scalar.bank_sizes bank 0) context
    then fail (make_error ErrorCode.invalid_argument) e
    else let ds = decisions is_signed magnitude negative in
      elim (trial e.state_transition ds (context_at e.scalar bank context) e.range 0) [
        | none ↦ fail (make_error ErrorCode.invalid_argument) e
        | some appended ↦
            if ltb (e.max_size - length e.low_bytes) appended
            then fail (make_error ErrorCode.resource_exhausted) e
            else commit bank context ds e
      ]

-- The overloads without a bank or a context use bank 0 and context 0.
unfoldable pub write_unsigned : ℕ → ℕ → ℕ → EncoderAction (Unit {0})
write_unsigned bank context value = do
  require_open
  if ltb (2 ^ 63 - 1) value
      then (λ e. fail (make_error ErrorCode.invalid_argument) e)
      else write_symbol bank context false value false

-- `negsuc (2^63 - 1)` is the smallest 64-bit integer.
unfoldable pub write_signed : ℕ → ℕ → ℤ → EncoderAction (Unit {0})
write_signed bank context value = do
  require_open
  if leb (2 ^ 63) (neg_part value)
      then (λ e. fail (make_error ErrorCode.invalid_argument) e)
      else write_symbol bank context true (pos_part value + neg_part value) (ltb 0 (neg_part value))
