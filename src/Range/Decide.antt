-- ===== src/Range/Decide.antt =====
-- `read_rac` of src/entropy/range_coder.cpp against `write_rac` of src/entropy/range_encoder.cpp.
use mffv.Common.{
  ℕ, ◌+◌, ◌-◌, ◌%◌, ◌^◌, ◌≤◌, ◌<◌, ◌≡◌, refl, ap, ◌∙◌, sym, arith, Bool, true, false, List, length,
  ltb, leb, if◌then◌else◌, Bool-cases, inl, inr, add-zero,
}
use mffv.Common.Status.{ok}
use mffv.Range.Transition.{range_zero_state, range_one_state}
use mffv.Range.Coder.{RangeCoder}
use mffv.Range.Read.{refill, range_offset, one_path_carry, read_rac}
use mffv.Range.Encoder.{RangeEncoder}
use mffv.Range.Write.{next_state}
use mffv.Range.Prefix.{prefix, value}
use mffv.Range.Steps.{IsBytes, IsInterval, IsWritten, share, share-lt, product_fits, offset, width}
use mffv.Range.Follow.{Hits, OnSide, Follows, Hits-before, refill_lem, prefix-suc}
use Prim.Native.Nat.{min}

-- The registers between the decision and the refill.
pub record Between (c : RangeCoder) (e : RangeEncoder) (state : ℕ) (v : Bool) (payload : List ℕ)
    : Type 0 where
  pub initialized : c.initialized ≡ true
  pub no_legacy_arithmetic : c.legacy_v0_arithmetic ≡ false
  pub no_legacy_carry : c.legacy_zero_symbol_carry ≡ false
  pub same_payload : c.payload ≡ payload
  pub share_of_bit : c.range ≡ width e.range state v
  pub distance :
      c.low + (value e.low_bytes + offset e.range state v) ≡ prefix payload (length e.low_bytes)
  pub below : c.low < c.range
  pub position : c.byte_position ≡ min (length e.low_bytes) (length payload)
  pub at_end : c.end ≡ leb (length payload) (length e.low_bytes)
  pub same_table : c.state_transition ≡ e.state_transition

refill_wide : (c : RangeCoder) → 256 ≤ c.range → refill c ≡ c
unfolding refill
refill_wide c h = let e : leb 256 c.range ≡ true = ground (arith, h) in rw e refl

-- After the refill the decoder has the interval of the encoder.
pub refill-Follows :
    (c : RangeCoder) (e e' : RangeEncoder) (state : ℕ) (v : Bool) (payload : List ℕ)
    → Between c e state v payload
    → IsBytes payload
    → IsWritten e state v e'
    → Follows (refill c) e' payload
refill-Follows c e e' state v payload b bytes w = elim w.moved [
  | inl (narrow, range, len, val) ↦
      let n = length e.low_bytes in
      rw
        (refill_lem c payload n b.same_payload (omega (arith, b.share_of_bit, narrow)) b.below
          b.position b.at_end bytes)
        (record {
          initialized = b.initialized;
          no_legacy_arithmetic = b.no_legacy_arithmetic;
          no_legacy_carry = b.no_legacy_carry;
          same_payload = b.same_payload;
          same_range = omega (arith, range, b.share_of_bit);
          distance = rw (len, prefix-suc payload n) (omega (arith, val, b.distance));
          position = rw len refl;
          at_end = rw len refl;
          same_table = b.same_table ∙ sym w.same_table;
        })
  | inr (wide, range, len, val) ↦ rw (refill_wide c (omega (arith, b.share_of_bit, wide))) (record {
    initialized = b.initialized;
    no_legacy_arithmetic = b.no_legacy_arithmetic;
    no_legacy_carry = b.no_legacy_carry;
    same_payload = b.same_payload;
    same_range = omega (arith, range, b.share_of_bit);
    distance = rw len (omega (arith, val, b.distance));
    position = rw len b.position;
    at_end = rw len b.at_end;
    same_table = b.same_table ∙ sym w.same_table;
  })
]

refill_scalar : (c : RangeCoder) → (refill c).scalar ≡ c.scalar
unfolding refill
refill_scalar c = elim (Bool-cases (leb 256 c.range)) [
  | inl wide ↦ rw wide refl
  | inr narrow ↦ elim (Bool-cases c.end) [
    | inl stop ↦ rw (narrow, stop) refl
    | inr more ↦ elim (Bool-cases (ltb c.byte_position (length c.payload))) [
      | inl here ↦ rw (narrow, more, here) refl
      | inr past ↦ rw (narrow, more, past) refl
    ]
  ]
]

refill_snapshots : (c : RangeCoder) → (refill c).snapshots ≡ c.snapshots
unfolding refill
refill_snapshots c = elim (Bool-cases (leb 256 c.range)) [
  | inl wide ↦ rw wide refl
  | inr narrow ↦ elim (Bool-cases c.end) [
    | inl stop ↦ rw (narrow, stop) refl
    | inr more ↦ elim (Bool-cases (ltb c.byte_position (length c.payload))) [
      | inl here ↦ rw (narrow, more, here) refl
      | inr past ↦ rw (narrow, more, past) refl
    ]
  ]
]

opened :
    (state : ℕ) (c : RangeCoder)
    → c.initialized ≡ true
    → let rangeoff = range_offset c state in
      let zero_range = (c.range + 2 ^ 32 - rangeoff) % 2 ^ 32 in
      let filled = refill (record c { low = c.low - zero_range; range = rangeoff }) in
      read_rac state c ≡ (
        if ltb c.low zero_range
        then ok
            (false, range_zero_state c.state_transition state)
            (refill (record c { range = zero_range }))
        else ok
            (true, range_one_state c.state_transition state)
            (record filled { low = (filled.low + one_path_carry c state) % 2 ^ 32 }))
unfolding read_rac
opened state c e = rw e refl

-- What the decoder reads: the bit, the new state, and registers that follow the encoder.
abbrev pub IsDecided : RangeCoder → RangeEncoder → ℕ → Bool → List ℕ → Type 0
IsDecided c e' state v payload =
    (c' : RangeCoder) × (read_rac state c ≡ ok (v, next_state c.state_transition state v) c')
    × Follows c' e' payload
    × (c'.scalar ≡ c.scalar)
    × (c'.snapshots ≡ c.snapshots)

module _ (c : RangeCoder) (e e' : RangeEncoder) (state : ℕ) (payload : List ℕ)
    (f : Follows c e payload) (i : IsInterval e) (byte : state < 256) (bytes : IsBytes payload)
    (hits : Hits e payload) (hits' : Hits e' payload) where
  offset-share : range_offset c state ≡ share e.range state
  unfolding range_offset
  offset-share =
      rw (f.no_legacy_arithmetic, f.same_range, add-zero)
        (omega (arith, product_fits e.range state i.range_high byte))

  zero_share : (c.range + 2 ^ 32 - share e.range state) % 2 ^ 32 ≡ e.range - share e.range state
  zero_share = rw f.same_range (
      omega (
        arith,
        i.range_low,
        i.range_high,
        share-lt e.range state (omega (arith, i.range_low)) byte,
      ))

  zero-IsDecided :
      OnSide e state false payload → IsWritten e state false e' → IsDecided c e' state false payload
  zero-IsDecided side w =
      let mid : RangeCoder = record c { range = e.range - share e.range state } in
      let below : c.low < e.range - share e.range state = omega (arith, f.distance, side) in
      let less : ltb c.low (e.range - share e.range state) ≡ true = ground (arith, below) in
      let between : Between mid e state false payload = record {
        initialized = f.initialized;
        no_legacy_arithmetic = f.no_legacy_arithmetic;
        no_legacy_carry = f.no_legacy_carry;
        same_payload = f.same_payload;
        share_of_bit = refl;
        distance = omega (arith, f.distance);
        below = below;
        position = f.position;
        at_end = f.at_end;
        same_table = f.same_table;
      } in
      (
        refill mid,
        (unfold next_state in
            opened state c f.initialized ∙ rw (offset-share, zero_share, less) refl),
        refill-Follows mid e e' state false payload between bytes w,
        refill_scalar mid,
        refill_snapshots mid,
      )

  one-IsDecided :
      OnSide e state true payload → IsWritten e state true e' → IsDecided c e' state true payload
  one-IsDecided side w =
      let z = e.range - share e.range state in
      let mid : RangeCoder = record c { low = c.low - z; range = share e.range state } in
      let less : ltb c.low z ≡ false = ground (arith, f.distance, side) in
      let s = share-lt e.range state (omega (arith, i.range_low)) byte in
      let between : Between mid e state true payload = record {
        initialized = f.initialized;
        no_legacy_arithmetic = f.no_legacy_arithmetic;
        no_legacy_carry = f.no_legacy_carry;
        same_payload = f.same_payload;
        share_of_bit = refl;
        distance = omega (arith, f.distance, side);
        below = omega (arith, f.distance, side, hits.below_high, s);
        position = f.position;
        at_end = f.at_end;
        same_table = f.same_table;
      } in
      let g = refill-Follows mid e e' state true payload between bytes w in
      let small : (refill mid).low < 2 ^ 32 =
        omega (arith, g.distance, hits'.below_high, w.is_interval.range_high) in
      let carry : one_path_carry c state ≡ 0 =
        unfold one_path_carry in rw f.no_legacy_arithmetic refl in
      let kept : ((refill mid).low + 0) % 2 ^ 32 ≡ (refill mid).low = omega (arith, small) in
      (
        refill mid,
        (unfold next_state in
            opened state c f.initialized
            ∙ rw (offset-share, zero_share, less, carry)
                (ap
                  (λ (low : ℕ).
                    ok (true, range_one_state c.state_transition state)
                      (record (refill mid) { low = low }))
                  kept)),
        g,
        refill_scalar mid,
        refill_snapshots mid,
      )

-- When the decoder's registers follow the encoder's and the payload lies in the interval after a
-- decision on a byte state, read_rac returns the bit that was written and the same next state, and
-- its registers follow the encoder after the decision.
pub read_rac-write_rac :
    (c : RangeCoder) (e e' : RangeEncoder) (state : ℕ) (v : Bool) (payload : List ℕ)
    → Follows c e payload
    → IsInterval e
    → state < 256
    → IsBytes payload
    → IsWritten e state v e'
    → Hits e' payload
    → IsDecided c e' state v payload
read_rac-write_rac c e e' state true payload f i byte bytes w hits' =
    let (hits, side) = Hits-before e e' state true payload i byte bytes w hits' in
    one-IsDecided c e e' state payload f i byte bytes hits hits' side w
read_rac-write_rac c e e' state false payload f i byte bytes w hits' =
    let (hits, side) = Hits-before e e' state false payload i byte bytes w hits' in
    zero-IsDecided c e e' state payload f i byte bytes hits hits' side w
