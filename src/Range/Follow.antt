-- ===== src/Range/Follow.antt =====
-- The decoder follows the encoder: while the payload lies in the final interval, each decision
-- that was written is read back.
use mffv.Common.{
  ℕ, suc, ◌+◌, ◌-◌, ◌*◌, ◌%◌, ◌^◌, ◌≤◌, ◌<◌, ◌≡◌, refl, arith, Bool, true, false, List, length,
  get_or, ltb, leb, Bool-cases, inl, inr, get_or_past, add-zero,
}
use mffv.Range.Coder.{RangeCoder}
use mffv.Range.Read.{refill}
use mffv.Range.Encoder.{RangeEncoder}
use mffv.Range.Prefix.{prefix, value}
use mffv.Range.Steps.{IsBytes, IsInterval, IsWritten, share, share-lt, offset, width}
use Prim.Native.Nat.{min}

-- The payload, cut to the bytes written so far, lies in the interval.
pub record Hits (e : RangeEncoder) (payload : List ℕ) : Type 0 where
  pub from_low : value e.low_bytes ≤ prefix payload (length e.low_bytes)
  pub below_high : prefix payload (length e.low_bytes) < value e.low_bytes + e.range

-- The side of the split on which the payload lies.
abbrev pub OnSide : RangeEncoder → ℕ → Bool → List ℕ → Type 0
OnSide e state true payload =
    value e.low_bytes + (e.range - share e.range state) ≤ prefix payload (length e.low_bytes)
OnSide e state false payload =
    prefix payload (length e.low_bytes) < value e.low_bytes + (e.range - share e.range state)

-- The registers of the decoder are those of the encoder, and `low` is the distance of the payload
-- from the lower bound. The two legacy modes are off.
pub record Follows (c : RangeCoder) (e : RangeEncoder) (payload : List ℕ) : Type 0 where
  pub initialized : c.initialized ≡ true
  pub no_legacy_arithmetic : c.legacy_v0_arithmetic ≡ false
  pub no_legacy_carry : c.legacy_zero_symbol_carry ≡ false
  pub same_payload : c.payload ≡ payload
  pub same_range : c.range ≡ e.range
  pub distance : c.low + value e.low_bytes ≡ prefix payload (length e.low_bytes)
  pub position : c.byte_position ≡ min (length e.low_bytes) (length payload)
  pub at_end : c.end ≡ leb (length payload) (length e.low_bytes)
  pub same_table : c.state_transition ≡ e.state_transition

pub prefix-suc : (p : List ℕ) (n : ℕ) → prefix p (suc n) ≡ prefix p n * 256 + get_or p n 0
unfolding prefix
prefix-suc p n = refl

-- The two shapes of an interval after a decision, in numbers: `n` bytes give `x`, one more byte
-- `y`, and the interval before starts at `low`.
shifted_back :
    (low off w x y : ℕ)
    → y < 256
    → (low + off) * 256 ≤ x * 256 + y
    → x * 256 + y < (low + off) * 256 + w * 256
    → (low + off ≤ x) × (x < low + off + w)
shifted_back low off w x y b p q = omega arith

landing :
    (e e' : RangeEncoder) (state : ℕ) (v : Bool) (payload : List ℕ)
    → IsBytes payload
    → IsWritten e state v e'
    → Hits e' payload
    → let x = prefix payload (length e.low_bytes) in
      let from = value e.low_bytes + offset e.range state v in
      (from ≤ x) × (x < from + width e.range state v)
landing e e' state v payload bytes w hits = elim w.moved [
  | inl (narrow, range, len, val) ↦
      let n = length e.low_bytes in
      let e₁ : prefix payload (length e'.low_bytes) ≡ prefix payload n * 256 + get_or payload n 0 =
        rw len (prefix-suc payload n) in
      shifted_back (value e.low_bytes) (offset e.range state v) (width e.range state v)
        (prefix payload n) (get_or payload n 0) (bytes n) (omega (arith, hits.from_low, e₁, val))
        (omega (arith, hits.below_high, e₁, val, range))
  | inr (wide, range, len, val) ↦
      let e₁ : prefix payload (length e'.low_bytes) ≡ prefix payload (length e.low_bytes) =
        rw len refl in
      (omega (arith, hits.from_low, e₁, val), omega (arith, hits.below_high, e₁, val, range))
]

-- A payload in the interval after a decision is in the interval before it, on the side of the bit.
pub Hits-before :
    (e e' : RangeEncoder) (state : ℕ) (v : Bool) (payload : List ℕ)
    → IsInterval e
    → state < 256
    → IsBytes payload
    → IsWritten e state v e'
    → Hits e' payload
    → Hits e payload × OnSide e state v payload
Hits-before e e' state true payload i b bytes w hits =
    let (p, q) = landing e e' state true payload bytes w hits in
    let s = share-lt e.range state (omega (arith, i.range_low)) b in
    (record { from_low = omega (arith, p); below_high = omega (arith, q, s) }, p)
Hits-before e e' state false payload i b bytes w hits =
    let (p, q) = landing e e' state false payload bytes w hits in
    (record { from_low = omega (arith, p); below_high = omega (arith, q) }, omega (arith, q))

-- One byte is shifted in; past the end of the payload it is zero.
pub refill_lem :
    (c : RangeCoder) (payload : List ℕ) (n : ℕ)
    → c.payload ≡ payload
    → c.range < 256
    → c.low < c.range
    → c.byte_position ≡ min n (length payload)
    → c.end ≡ leb (length payload) n
    → IsBytes payload
    → refill c ≡ record c {
      range = c.range * 256;
      low = c.low * 256 + get_or payload n 0;
      byte_position = min (suc n) (length payload);
      end = leb (length payload) (suc n);
    }
unfolding refill
refill_lem c payload n same narrow below at e bytes =
    let wide : leb 256 c.range ≡ false = ground (arith, narrow) in
    let range : c.range * 2 ^ 8 % 2 ^ 32 ≡ c.range * 256 = omega (arith, narrow) in
    let low : c.low * 2 ^ 8 % 2 ^ 32 ≡ c.low * 256 = omega (arith, narrow, below) in
    elim (Bool-cases (leb (length payload) n)) [
      | inl past ↦
          let none_left : get_or payload n 0 ≡ 0 = get_or_past payload n 0 (ground (arith, past)) in
          let e₁ : leb (length payload) (suc n) ≡ true = ground (arith, past) in
          let e₂ : min n (length payload) ≡ min (suc n) (length payload) = ground (arith, past) in
          rw (wide, range, low, e, past, none_left, e₁, at, e₂, add-zero) refl
      | inr inside ↦
          let e₂ : min n (length payload) ≡ n = ground (arith, inside) in
          let here : ltb n (length payload) ≡ true = ground (arith, inside) in
          let e₃ : (c.low * 256 + get_or payload n 0) % 2 ^ 32 ≡ c.low * 256 + get_or payload n 0 =
            omega (arith, narrow, below, bytes n) in
          let e₄ : min (suc n) (length payload) ≡ n + 1 = ground (arith, inside) in
          let e₅ : suc n ≡ n + 1 = omega arith in
          rw (wide, range, low, e, inside, at, e₂, same, here, e₃, e₄, e₅) refl
    ]
