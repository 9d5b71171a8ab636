-- ===== src/Range/Reset.antt =====
-- `reset` of src/entropy/range_encoder.cpp and of src/entropy/range_coder.cpp with one bank.
use mffv.Common.{
  ℕ, zero, suc, ◌+◌, ◌-◌, ◌*◌, ◌^◌, ◌≤◌, ◌<◌, ◌≡◌, refl, ap, ◌∙◌, arith, true, false, List, [], ◌∷◌,
  length, get_or, replicate, ltb, leb, ◌==◌, zero-add, length-replicate,
}
use mffv.Common.Status.{Outcome, ok, fail, make_error, >>=-ok}
use mffv.Range.Transition.{default_state_transition}
use mffv.Range.Contexts.{
  ScalarContexts, ScalarContextStates, Checked, checked, refused, check_banks, offsets_from,
  copy_at, fill_banks, initialize_contexts,
}
use mffv.Range.Coder.{RangeCoder, Action, start_registers, reset_one}
use mffv.Range.Coder
use mffv.Range.Encoder
use mffv.Range.Encoder.{
  RangeEncoder, EncoderAction, new_encoder, reset_counts, encoder_contexts, check_encoder_banks,
}
use mffv.Range.Prefix.{prefix, value}
use mffv.Range.Steps.{IsBytes}
use mffv.Range.Follow.{Hits}
use mffv.Range.Live.{IsLive, IsLiveScalar}
use mffv.Range.Start.{copy_at-inside, length-copy_at, default_table-IsLive}
use mffv.Range.Codes.{IsReady, InStep}

-- The contexts of one bank, every state the same.
abbrev pub one_bank : ℕ → ℕ → ScalarContexts
one_bank count state = record {
  bank_offsets = 0 ∷ [];
  bank_sizes = count ∷ [];
  contexts =
      copy_at (replicate count (replicate 32 state)) 0 (replicate (0 + count) (replicate 32 0));
}

pub one_bank_checked :
    (count state : ℕ)
    → 0 < count
    → count ≤ 32768
    → initialize_contexts (count ∷ []) [] state ≡ checked (one_bank count state)
unfolding initialize_contexts check_banks offsets_from fill_banks
one_bank_checked count state h h' =
    let e₁ : (count == 0) ≡ false = ground (arith, h) in
    let e₂ : ltb 32768 count ≡ false = ground (arith, h') in rw (e₁, e₂) refl

pub one_bank_encoder :
    (count state : ℕ)
    → 0 < count
    → count ≤ 32768
    → encoder_contexts (count ∷ []) [] state ≡ checked (one_bank count state)
unfolding encoder_contexts check_encoder_banks offsets_from fill_banks
one_bank_encoder count state h h' =
    let e₁ : (count == 0) ≡ false = ground (arith, h) in
    let e₂ : ltb 32768 count ≡ false = ground (arith, h') in
    let e₃ : ltb (2 ^ 64 - 1 - count) 0 ≡ false = ground (arith) in rw (e₁, e₂, e₃) refl

replicated : (n i state : ℕ) → i < n → get_or (replicate n state) i 0 ≡ state
replicated zero i state h = absurd (omega arith)
replicated (suc n) zero state h = refl
replicated (suc n) (suc i) state h = replicated n i state (omega arith)

pub one_bank-IsLiveScalar : (count state : ℕ) → IsLive state → IsLiveScalar (one_bank count state)
one_bank-IsLiveScalar count state live =
    let zeros : List ScalarContextStates = replicate (0 + count) (replicate 32 0) in
    let zeros_size : length zeros ≡ 0 + count =
      length-replicate (0 + count) (replicate {A = ℕ} 32 0) in
    let size : length (one_bank count state).contexts ≡ count =
      length-copy_at (replicate count (replicate 32 state)) 0 zeros ∙ zeros_size ∙ zero-add count in
    let whole : (p : ℕ)
        → p < count
        → get_or (one_bank count state).contexts p [] ≡ replicate 32 state =
      λ p h.
        copy_at-inside count (replicate 32 state) 0 p [] zeros (omega (arith, zeros_size))
          (omega arith) (omega (arith, h)) in
    record {
      layout = λ bank context h h'. only_bank bank context h h' size;
      full = λ p h. rw (whole p (omega (arith, size, h))) refl;
      live = λ p i h h'. rw (whole p (omega (arith, size, h)), replicated 32 i state h') live;
    }
  where
    only_bank :
        (bank context : ℕ)
        → bank < 1
        → context < get_or (count ∷ []) bank 0
        → length (one_bank count state).contexts ≡ count
        → get_or (0 ∷ []) bank 0 + context < length (one_bank count state).contexts
    only_bank zero context h h' size = omega (arith, h', size)
    only_bank (suc bank) context h h' size = absurd (omega arith)

-- The encoder after the reset.
abbrev pub fresh : ℕ → ℕ → ℕ → RangeEncoder
fresh max_size count state = record (new_encoder max_size) {
  low_bytes = 0 ∷ 0 ∷ [];
  range = 0xff00;
  scalar = one_bank count state;
  initialized = true;
}

pub encoder_init :
    (counts : List ℕ) (state : ℕ) (e : RangeEncoder) (s : ScalarContexts)
    → encoder_contexts counts [] state ≡ checked s
    → Encoder.init_contexts counts [] state e ≡ ok tt (record e { scalar = s })
unfolding Encoder.init_contexts
encoder_init counts state e s h = ap taken h
  where
    taken : Checked ScalarContexts → Outcome RangeEncoder (Unit {0})
    taken c = elim c [
      | refused code ↦ fail (make_error code) e
      | checked scalar ↦ ok tt (record e { scalar = scalar })
    ]

pub reset_counts_lem :
    (e : RangeEncoder) (count state : ℕ)
    → 0 < count
    → count ≤ 32768
    → reset_counts (count ∷ []) state e ≡ ok tt (fresh e.max_size count state)
unfolding reset_counts Encoder.reset_impl new_encoder
reset_counts_lem e count state h h' = ap started (
    encoder_init (count ∷ []) state (new_encoder e.max_size) (one_bank count state)
      (one_bank_encoder count state h h'))
  where
    started : Outcome RangeEncoder (Unit {0}) → Outcome RangeEncoder (Unit {0})
    started o = elim o [
      | fail status _ ↦ fail status e
      | ok _ next ↦ ok tt (record next {
        low_bytes = 0 ∷ 0 ∷ [];
        range = 0xff00;
        state_transition = default_state_transition;
        initialized = true;
      })
    ]

pub decoder_init :
    (counts : List ℕ) (state : ℕ) (c : RangeCoder) (s : ScalarContexts)
    → initialize_contexts counts [] state ≡ checked s
    → Coder.init_contexts counts [] state c ≡ ok tt (record c { scalar = s })
unfolding Coder.init_contexts
decoder_init counts state c s h = ap taken h
  where
    taken : Checked ScalarContexts → Outcome RangeCoder (Unit {0})
    taken r = elim r [
      | refused code ↦ fail (make_error code) c
      | checked scalar ↦ ok tt (record c { scalar = scalar })
    ]

pub reset_one_lem :
    (c : RangeCoder) (payload : List ℕ) (count state : ℕ)
    → 0 < count
    → count ≤ 32768
    → 2 ≤ length payload
    → reset_one payload count state c
      ≡ ok tt (
          start_registers payload default_state_transition
            (record c { scalar = one_bank count state }))
unfolding reset_one Coder.reset_impl
reset_one_lem c payload count state h h' long =
    let e : ltb (length payload) 2 ≡ false = ground (arith, long) in
    rw e (
      >>=-ok (Coder.init_contexts (count ∷ []) [] state) _ (
        decoder_init (count ∷ []) state c (one_bank count state)
          (one_bank_checked count state h h')))

pub fresh-IsReady : (max_size count state : ℕ) → IsLive state → IsReady (fresh max_size count state)
unfolding new_encoder
fresh-IsReady max_size count state live = record {
  interval = record {
    range_low = omega arith;
    range_high = omega arith;
    inside = unfold value in unfold prefix in omega arith;
    bytes = two_zeros;
  };
  is_open = (refl, refl);
  live_table = default_table-IsLive;
  live_scalar = one_bank-IsLiveScalar count state live;
}
  where
    two_zeros : IsBytes (0 ∷ 0 ∷ [])
    two_zeros zero = omega arith
    two_zeros (suc zero) = omega arith
    two_zeros (suc (suc i)) = omega arith

-- The registers that a decoder starts with follow a fresh encoder.
pub start-InStep :
    (c : RangeCoder) (max_size count state : ℕ) (payload : List ℕ)
    → c.legacy_v0_arithmetic ≡ false
    → c.legacy_zero_symbol_carry ≡ false
    → 2 ≤ length payload
    → Hits (fresh max_size count state) payload
    → InStep
        (start_registers payload default_state_transition
          (record c { scalar = one_bank count state }))
        (fresh max_size count state)
        payload
unfolding start_registers new_encoder
start-InStep c max_size count state payload v0 carry long hits =
    let low = get_or payload 0 0 * 256 + get_or payload 1 0 in
    let first : prefix payload 2 ≡ low = unfold prefix in omega arith in
    let nothing : value (0 ∷ 0 ∷ []) ≡ 0 = unfold value in unfold prefix in omega arith in
    let below : low < 0xff00 = omega (arith, hits.below_high, first, nothing) in
    let within : leb 0xff00 low ≡ false = ground (arith, below) in
    record {
      follows = record {
        initialized = refl;
        no_legacy_arithmetic = v0;
        no_legacy_carry = carry;
        same_payload = refl;
        same_range = refl;
        distance = rw within (omega (arith, first, nothing));
        position = ground (arith, long);
        at_end = rw within (ground arith);
        same_table = refl;
      };
      same_scalar = refl;
    }
