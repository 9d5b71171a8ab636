-- ===== src/Range/Closing.antt =====
-- The end of the payload: what `finalize_closed` of src/entropy/range_encoder.cpp returns lies in
-- the final interval.
use mffv.Common.{
  ℕ, zero, suc, ◌+◌, ◌-◌, ◌/◌, ◌%◌, ◌≤◌, ◌<◌, ◌≡◌, refl, ap, ◌∙◌, sym, arith, true, ◌&&◌, List, [],
  ◌∷◌, length, get_or, take, length-take, ltb, leb, ◌==◌, Bool-cases, inl, inr,
}
use mffv.Common.Status.{Outcome, ok, fail, >>=-ok}
use mffv.Range.Encoder.{RangeEncoder, require_open}
use mffv.Range.Finish.{
  last_byte, align_loop, sub_u32, closing_delta, close_interval, drop_zero_byte, finalize_closed,
}
use mffv.Range.Prefix.{prefix, value, prefix_ext}
use mffv.Range.Steps.{IsBytes, IsInterval, add_to_low_lem}
use mffv.Range.Follow.{Hits}

align_loop-lt : (range fuel delta : ℕ) → delta < range → align_loop range fuel delta < range
unfolding align_loop
align_loop-lt range zero delta h = h
align_loop-lt range (suc fuel) delta h =
    elim (Bool-cases (ltb (delta + 256) range && leb (delta + 256) (range / 2))) [
      | inl e ↦ rw e (align_loop-lt range fuel (delta + 256) (ground (arith, e)))
      | inr e ↦ rw e h
    ]

-- On a range of at least 256, the value that closes the interval is below the range, with 32-bit
-- wrap-around in the comparison.
pub closing_delta-lt :
    (bytes : List ℕ) (range : ℕ) → 256 ≤ range → closing_delta bytes range < range
unfolding closing_delta
closing_delta-lt bytes range h =
    let to_zero = (256 - last_byte bytes) % 256 in
    let aligned = align_loop range (range / 256) to_zero in
    elim (Bool-cases (ltb to_zero range)) [
      | inl e ↦
          let lt = align_loop-lt range (range / 256) to_zero (ground (arith, e)) in
          elim (Bool-cases (ltb (aligned + 256) range)) [
            | inl e₁ ↦
                elim (Bool-cases
                  (ltb (sub_u32 (aligned + 256) (range / 2)) (sub_u32 (range / 2) aligned))) [
                    | inl e₂ ↦ rw (e, e₁, e₂) (ground (arith, e₁))
                    | inr e₂ ↦ rw (e, e₁, e₂) lt
                  ]
            | inr e₁ ↦ rw (e, e₁) lt
          ]
      | inr e ↦ rw e (omega (arith, h))
    ]

-- The dropped byte is read as zero all the same.
drop_zero_byte_lem :
    (bytes : List ℕ)
    → ((i : ℕ) → get_or (drop_zero_byte bytes) i 0 ≡ get_or bytes i 0)
      × (2 ≤ length bytes → 2 ≤ length (drop_zero_byte bytes))
unfolding drop_zero_byte last_byte
drop_zero_byte_lem bytes = elim (Bool-cases (ltb 2 (length bytes))) [
  | inl long ↦ elim (Bool-cases (get_or bytes (length bytes - 1) 0 == 0)) [
    | inl is_zero ↦
        rw (long, is_zero)
          (
            λ i. taken bytes (length bytes - 1) i (ground (arith, long)) (ground (arith, is_zero)),
            λ h. ground (arith, long, length-take (length bytes - 1) bytes),
          )
    | inr nonzero ↦ rw (long, nonzero) (λ i. refl, λ h. h)
  ]
  | inr short ↦ rw short (λ i. refl, λ h. h)
]
  where
    taken :
        (xs : List ℕ) (n i : ℕ)
        → suc n ≡ length xs
        → get_or xs n 0 ≡ 0
        → get_or (take n xs) i 0 ≡ get_or xs i 0
    taken [] n i h z = absurd (omega arith)
    taken (x ∷ []) zero zero h z = sym z
    taken (x ∷ []) zero (suc i) h z = refl
    taken (x ∷ y ∷ xs) zero i h z = absurd (omega arith)
    taken (x ∷ xs) (suc n) zero h z = refl
    taken (x ∷ xs) (suc n) (suc i) h z = taken xs n i (omega arith) z

closed_by :
    (e : RangeEncoder) (bytes' : List ℕ)
    → require_open e ≡ ok tt e
    → close_interval e ≡ ok tt (record e { low_bytes = bytes' })
    → finalize_closed e ≡ ok (drop_zero_byte bytes') (record e { finalized = true })
unfolding finalize_closed
closed_by e bytes' is_open h = >>=-ok require_open _ is_open ∙ ap marked h
  where
    marked : Outcome RangeEncoder (Unit {0}) → Outcome RangeEncoder (List ℕ)
    marked o = elim o [
      | fail status _ ↦ fail status e
      | ok _ completed ↦ ok (drop_zero_byte completed.low_bytes) (record e { finalized = true })
    ]

-- On an open encoder with a sound interval and at least two bytes, finalize_closed succeeds, marks
-- the encoder, and returns a byte string of at least two bytes that lies in the final interval
-- even where a zero byte was dropped.
pub finalize_closed_lem :
    (e : RangeEncoder)
    → IsInterval e
    → 2 ≤ length e.low_bytes
    → require_open e ≡ ok tt e
    → (payload : List ℕ) × (finalize_closed e ≡ ok payload (record e { finalized = true }))
      × Hits e payload
      × IsBytes payload
      × (2 ≤ length payload)
finalize_closed_lem e i long is_open =
    let lt = closing_delta-lt e.low_bytes e.range i.range_low in
    let (bytes', added, moved, same, bytes) =
      add_to_low_lem (closing_delta e.low_bytes e.range) e i lt in
    let (kept, still_long) = drop_zero_byte_lem bytes' in
    let whole : prefix (drop_zero_byte bytes') (length e.low_bytes) ≡ value bytes' =
      prefix_ext (drop_zero_byte bytes') bytes' (length e.low_bytes) (λ j _. kept j)
      ∙ (unfold value in ap (λ (n : ℕ). prefix bytes' n) (sym same)) in
    (
      drop_zero_byte bytes',
      closed_by e bytes' is_open (unfold close_interval in added),
      record {
        from_low = omega (arith, whole, moved);
        below_high = omega (arith, whole, moved, lt);
      },
      λ j. rw (kept j) (bytes j),
      still_long (omega (arith, same, long)),
    )
