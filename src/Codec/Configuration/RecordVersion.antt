-- ===== src/Codec/Configuration/RecordVersion.antt =====
-- The version at the front of a configuration record: the bytes that it leaves do not depend on how
-- many contexts the encoder of src/entropy/range_encoder.cpp has.
use mffv.Common.{
  ℕ, ◌-◌, ◌≡◌, ◌∙◌, refl, ap, sym, arith, List, [], ◌∷◌, Bool, false, ltb, get_or, drop,
  if◌then◌else◌,
}
use mffv.Common.Status.{ErrorCode, make_error, Outcome, ok, fail}
use mffv.Range.Transition.{default_state_transition, range_zero_state, range_one_state}
use mffv.Range.Contexts.{set_state, state_at, context_at, copy_at}
use mffv.Range.Encoder.{RangeEncoder, require_open}
use mffv.Range.Encoder
use mffv.Range.Write.{
  write_unsigned, write_symbol, write_decisions, commit, decisions, trial, write_state, write_rac,
  next_state, next_range, renormalize, add_if_one, add_to_low, zero_range, add_carry,
}
use mffv.Range.Write
use mffv.Range.Reset.{fresh}

abbrev left : Outcome RangeEncoder (Unit {0}) → List ℕ
left (ok _ e) = e.range ∷ e.low_bytes
left (fail _ e) = []

abbrev three : ℕ → ℕ → Outcome RangeEncoder (Unit {0})
three max_size count = commit 0 0 (decisions false 3 false) (fresh max_size count 128)

three_32 : (max_size : ℕ) → left (three max_size 32) ≡ 4080 ∷ 79 ∷ 176 ∷ []
unfolding Encoder.new_encoder commit decisions Write.exponent_decisions Write.mantissa_decisions
    Write.sign_decisions Write.log2 Write.log2_loop write_decisions write_state write_rac next_state
    next_range renormalize add_if_one add_to_low add_carry zero_range default_state_transition
    range_zero_state range_one_state set_state state_at context_at copy_at
three_32 max_size = refl

three_1 : (max_size : ℕ) → left (three max_size 1) ≡ 4080 ∷ 79 ∷ 176 ∷ []
unfolding Encoder.new_encoder commit decisions Write.exponent_decisions Write.mantissa_decisions
    Write.sign_decisions Write.log2 Write.log2_loop write_decisions write_state write_rac next_state
    next_range renormalize add_if_one add_to_low add_carry zero_range default_state_transition
    range_zero_state range_one_state set_state state_at context_at copy_at
three_1 max_size = refl

abbrev unless_full : ℕ → ℕ → Bool → List ℕ
unless_full max_size count full = left (
    if full
    then fail (make_error ErrorCode.resource_exhausted) (fresh max_size count 128)
    else three max_size count)

-- The trial needs no new byte.
symbol_of :
    (max_size : ℕ)
    → (left (write_unsigned 0 0 3 (fresh max_size 32 128))
        ≡ unless_full max_size 32 (ltb (max_size - 2) 0))
      × (left (write_unsigned 0 0 3 (fresh max_size 1 128))
          ≡ unless_full max_size 1 (ltb (max_size - 2) 0))
unfolding write_unsigned write_symbol require_open trial Encoder.new_encoder decisions
    Write.exponent_decisions Write.mantissa_decisions Write.sign_decisions Write.log2
    Write.log2_loop next_state next_range default_state_transition range_zero_state range_one_state
    state_at context_at copy_at
symbol_of max_size = (refl, refl)

never_full : (max_size : ℕ) → ltb (max_size - 2) 0 ≡ false
never_full max_size = ground arith

-- Both encoders are left with the same range and the same bytes.
pub same_version :
    (max_size : ℕ) (e e' : RangeEncoder)
    → write_unsigned 0 0 3 (fresh max_size 32 128) ≡ ok tt e
    → write_unsigned 0 0 3 (fresh max_size 1 128) ≡ ok tt e'
    → (e.range ≡ e'.range) × (e.low_bytes ≡ e'.low_bytes)
same_version max_size e e' h h' =
    let wide =
      sym (ap left h)
      ∙ (symbol_of max_size).0
      ∙ ap (unless_full max_size 32) (never_full max_size)
      ∙ three_32 max_size in
    let narrow =
      sym (ap left h')
      ∙ (symbol_of max_size).1
      ∙ ap (unless_full max_size 1) (never_full max_size)
      ∙ three_1 max_size in
    let same : (e.range ∷ e.low_bytes) ≡ (e'.range ∷ e'.low_bytes) = wide ∙ sym narrow in
    (ap (λ l. get_or l 0 0) same, ap (drop 1) same)
