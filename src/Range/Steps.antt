-- ===== src/Range/Steps.antt =====
-- One decision on each side: what `write_rac` does to the interval of the encoder, and `read_rac`
-- to the registers of the decoder, without wrap-around.
use mffv.Common.{
  ℕ, zero, suc, ◌+◌, ◌-◌, ◌*◌, ◌/◌, ◌%◌, ◌^◌, ◌≤◌, ◌<◌, ◌≡◌, refl, ap, ◌∙◌, sym, arith, Bool, true,
  false, ◌&&◌, List, [], ◌∷◌, ◌++◌, length, get_or, length-append, ltb, ◌==◌, if◌then◌else◌,
  Bool-cases, ◌⊎◌, inl, inr,
}
use mffv.Common.Status.{ok, fail, ErrorCode, make_error, ◌>>=◌, >>=-ok, ok-injective}
use mffv.Range.Encoder.{RangeEncoder}
use mffv.Range.Write.{
  add_carry, add_to_low, zero_range, next_range, next_state, renormalize, add_if_one, write_rac,
}
use mffv.Range.Prefix.{prefix, value, value-push, add_carry_lem}
use native.Mathlib.Nat.{pow-suc}

abbrev pub IsBytes : List ℕ → Type 0
IsBytes bytes = (i : ℕ) → get_or bytes i 0 < 256

-- The interval starts at the lower bound, holds at least 256 values and lies inside the unit.
pub record IsInterval (e : RangeEncoder) : Type 0 where
  pub range_low : 256 ≤ e.range
  pub range_high : e.range ≤ 0xff00
  pub inside : value e.low_bytes + e.range ≤ 256 ^ length e.low_bytes
  pub bytes : IsBytes e.low_bytes

-- The share of a one bit, without the 32-bit wrap.
abbrev pub share : ℕ → ℕ → ℕ
share range state = range * state / 256

pub share-lt : (range state : ℕ) → 0 < range → state < 256 → share range state < range
share-lt range state p h =
    let bound : range * state ≤ range * 255 = grind arith in omega (arith, bound)

pub product_fits : (range state : ℕ) → range ≤ 0xff00 → state < 256 → range * state < 2 ^ 32
product_fits range state p h =
    let bound : range * state ≤ 0xff00 * 255 = grind arith in omega (arith, bound)

pub next_range_lem :
    (range state : ℕ) (v : Bool)
    → 256 ≤ range
    → range ≤ 0xff00
    → state < 256
    → next_range range state v ≡ (if v then share range state else range - share range state)
unfolding next_range zero_range
next_range_lem range state true a b h = omega (arith, product_fits range state b h)
next_range_lem range state false a b h =
    omega (arith, product_fits range state b h, share-lt range state (omega arith) h)

pub zero_range_lem :
    (range state : ℕ)
    → 256 ≤ range
    → range ≤ 0xff00
    → state < 256
    → zero_range range state ≡ range - share range state
zero_range_lem range state a b h = unfold next_range in next_range_lem range state false a b h

-- What a one bit adds to the lower bound.
abbrev pub offset : ℕ → ℕ → Bool → ℕ
offset range state v = if v then range - share range state else 0

abbrev pub width : ℕ → ℕ → Bool → ℕ
width range state v = if v then share range state else range - share range state

pub add_to_low_lem :
    (amount : ℕ) (e : RangeEncoder)
    → IsInterval e
    → amount < e.range
    → (bytes' : List ℕ) × (add_to_low amount e ≡ ok tt (record e { low_bytes = bytes' }))
      × (value bytes' ≡ value e.low_bytes + amount)
      × (length bytes' ≡ length e.low_bytes)
      × IsBytes bytes'
unfolding add_to_low value
add_to_low_lem amount e i h =
    let n = length e.low_bytes in
    let (bytes', carry) = add_carry n amount e.low_bytes in
    let a = add_carry_lem n amount e.low_bytes (omega arith) in
    let gone : carry ≡ 0 =
      no_carry carry (256 ^ n) (prefix bytes' n) (omega (arith, a.total, i.inside, h)) in
    (
      bytes',
      rw gone refl,
      rw a.same_length (omega (arith, a.total, ap (λ (t : ℕ). t * 256 ^ n) gone)),
      a.same_length,
      a.keeps_bytes i.bytes,
    )
  where
    no_carry : (c m p : ℕ) → p + c * m < m → c ≡ 0
    no_carry zero m p lt = refl
    no_carry (suc c) m p lt = absurd (omega arith)

-- The interval after a decision: the share of the bit, shifted by a byte when it is below 256.
pub record IsWritten (e : RangeEncoder) (state : ℕ) (v : Bool) (e' : RangeEncoder) : Type 0 where
  pub is_interval : IsInterval e'
  pub nonzero : 0 < width e.range state v
  pub moved :
      ((width e.range state v < 256)
        × (e'.range ≡ width e.range state v * 256)
        × (length e'.low_bytes ≡ suc (length e.low_bytes))
        × (value e'.low_bytes ≡ (value e.low_bytes + offset e.range state v) * 256))
      ⊎ ((256 ≤ width e.range state v)
          × (e'.range ≡ width e.range state v)
          × (length e'.low_bytes ≡ length e.low_bytes)
          × (value e'.low_bytes ≡ value e.low_bytes + offset e.range state v))
  pub same_table : e'.state_transition ≡ e.state_transition
  pub same_scalar : e'.scalar ≡ e.scalar
  pub same_snapshots : e'.snapshots ≡ e.snapshots
  pub same_limit : e'.max_size ≡ e.max_size
  pub same_flags : (e'.initialized ≡ e.initialized) × (e'.finalized ≡ e.finalized)

push-IsBytes : (bytes : List ℕ) → IsBytes bytes → IsBytes (bytes ++ (0 ∷ []))
push-IsBytes [] h zero = omega arith
push-IsBytes [] h (suc i) = omega arith
push-IsBytes (b ∷ bs) h zero = h 0
push-IsBytes (b ∷ bs) h (suc i) = push-IsBytes bs (λ j. h (suc j)) i

offset-width :
    (range state : ℕ) (v : Bool)
    → 256 ≤ range
    → state < 256
    → (offset range state v + width range state v ≤ range) × (width range state v ≤ range)
offset-width range state true h b = omega (arith, share-lt range state (omega arith) b)
offset-width range state false h b = omega (arith, share-lt range state (omega arith) b)

pub add_if_one_lem :
    (e : RangeEncoder) (state : ℕ) (v : Bool)
    → IsInterval e
    → state < 256
    → 0 < width e.range state v
    → (bytes' : List ℕ) × (add_if_one v (zero_range e.range state) e
        ≡ ok tt (record e { low_bytes = bytes' }))
      × (value bytes' ≡ value e.low_bytes + offset e.range state v)
      × (length bytes' ≡ length e.low_bytes)
      × IsBytes bytes'
unfolding add_if_one
add_if_one_lem e state true i b h =
    let z = zero_range_lem e.range state i.range_low i.range_high b in
    rw z (add_to_low_lem (e.range - share e.range state) e i (omega (arith, i.range_low)))
add_if_one_lem e state false i b h = (e.low_bytes, refl, omega arith, refl, i.bytes)

module _ (e : RangeEncoder) (i : IsInterval e) (state : ℕ) (byte : state < 256) (v : Bool)
    (positive : 0 < width e.range state v) (bytes' : List ℕ)
    (moved : value bytes' ≡ value e.low_bytes + offset e.range state v)
    (same : length bytes' ≡ length e.low_bytes) (bytes : IsBytes bytes') where
  abbrev plain : RangeEncoder
  plain = record e { low_bytes = bytes'; range = width e.range state v }

  abbrev shifted : RangeEncoder
  shifted = record e {
    low_bytes = bytes' ++ (0 ∷ []);
    range = width e.range state v * 256 % 2 ^ 32;
  }

  length_shifted : length shifted.low_bytes ≡ suc (length e.low_bytes)
  length_shifted = omega (arith, length-append bytes' (0 ∷ []), same)

  plain-IsWritten : 256 ≤ width e.range state v → IsWritten e state v plain
  plain-IsWritten wide =
      let (sum, w) = offset-width e.range state v i.range_low byte in
      record {
        is_interval = record {
          range_low = wide;
          range_high = omega (arith, w, i.range_high);
          inside = rw same (omega (arith, moved, sum, i.inside));
          bytes = bytes;
        };
        nonzero = positive;
        moved = inr (wide, refl, same, moved);
        same_table = refl;
        same_scalar = refl;
        same_snapshots = refl;
        same_limit = refl;
        same_flags = (refl, refl);
      }

  shifted-IsWritten : width e.range state v < 256 → IsWritten e state v shifted
  shifted-IsWritten narrow =
      let (sum, w) = offset-width e.range state v i.range_low byte in
      let grown : value shifted.low_bytes ≡ (value e.low_bytes + offset e.range state v) * 256 =
        omega (arith, value-push bytes' 0, moved) in
      record {
        is_interval = record {
          range_low = omega (arith, narrow, positive);
          range_high = omega (arith, narrow);
          inside =
              rw length_shifted
                (omega (arith, pow-suc 256 (length e.low_bytes), grown, sum, i.inside, narrow));
          bytes = push-IsBytes bytes' bytes;
        };
        nonzero = positive;
        moved = inl (narrow, omega (arith, narrow), length_shifted, grown);
        same_table = refl;
        same_scalar = refl;
        same_snapshots = refl;
        same_limit = refl;
        same_flags = (refl, refl);
      }

  renormalize-IsWritten :
      IsWritten e state v (renormalize (width e.range state v) (record e { low_bytes = bytes' }))
  unfolding renormalize
  renormalize-IsWritten = elim (Bool-cases (ltb (width e.range state v) 256)) [
    | inl narrow ↦ rw narrow (shifted-IsWritten (ground (arith, narrow)))
    | inr wide ↦ rw wide (plain-IsWritten (ground (arith, wide)))
  ]

-- Whenever `write_rac` succeeds, the new interval is the share of the bit, and the state moves on.
pub write_rac_lem :
    (e : RangeEncoder) (state : ℕ) (v : Bool) (state' : ℕ) (e' : RangeEncoder)
    → IsInterval e
    → state < 256
    → write_rac state v e ≡ ok state' e'
    → IsWritten e state v e' × (state' ≡ next_state e.state_transition state v)
unfolding write_rac
write_rac_lem e state v state' e' i b h = elim (Bool-cases (width e.range state v == 0)) [
  | inl empty ↦ absurd (cc (rw empty at inverted))
  | inr some_width ↦ elim (Bool-cases is_full) [
    | inl full ↦ absurd (cc (rw (some_width, full) at inverted))
    | inr room ↦
        let positive : 0 < width e.range state v = ground (arith, some_width) in
        let (bytes', added, moved, same, bytes) = add_if_one_lem e state v i b positive in
        let (p, q) = ok-injective (
          sym (>>=-ok (add_if_one v (zero_range e.range state)) _ added)
          ∙ (rw (some_width, room) at inverted)) in
        (rw (← q) (renormalize-IsWritten e i state b v positive bytes' moved same bytes), sym p)
  ]
]
  where
    is_full : Bool
    is_full = ltb (width e.range state v) 256 && length e.low_bytes == e.max_size

    inverted :
        (if width e.range state v == 0
          then fail (make_error ErrorCode.invalid_argument) e
          else if is_full
          then fail (make_error ErrorCode.resource_exhausted) e
          else (add_if_one v (zero_range e.range state) >>= λ _ e''.
                ok
                  (next_state e.state_transition state v)
                  (renormalize (width e.range state v) e''))
              e)
        ≡ ok state' e'
    inverted = rw (next_range_lem e.range state v i.range_low i.range_high b) at h
