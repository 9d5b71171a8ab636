-- ===== src/Syntax/Predictor/Lossless.antt =====
-- The difference of src/mffv1/predictor.cpp and its reconstruction.
use mffv.Common.{
  ℕ, zero, suc, ◌+◌, ◌*◌, ◌/◌, ◌%◌, ◌^◌, ◌≤◌, ◌<◌, ◌≡◌, refl, arith, true, false, ◌||◌, leb, ◌==◌,
  if◌then◌else◌, Bool-cases, inl, inr,
}
use mffv.Common.Int.{
  ℤ, pos, negsuc, pos_part, neg_part, ltb_ℤ, ◌+ℤ◌, ◌-ℤ◌, +ℤ_parts, -ℤ_parts, eq_of_parts, ◌≤ℤ◌,
}
use mffv.Common.Int32.{
  IsInt32, +ℤ-IsInt32, -ℤ-IsInt32, wrap_int32, wrap_int32-Cong, wrap_int32_same,
}
use mffv.Common.Cong.{Cong, Cong-refl, Cong-trans, Cong-+ℤ, Cong-unique}
use mffv.Util.RfcMath.{tmod, neg_ℕ, wrap_sample_difference}
use mffv.Syntax.Predictor.{reconstruct, difference}
use mffv.Golomb.SignExtend.{InRange}
use native.Mathlib.Nat.{div-add-mod', mod-lt, one-le-pow, pow-le-pow_right, pow-suc}

neg_ℕ_parts : (n : ℕ) → (pos_part (neg_ℕ n) ≡ 0) × (neg_part (neg_ℕ n) ≡ n)
neg_ℕ_parts zero = (refl, refl)
neg_ℕ_parts (suc n) = (refl, refl)

tmod-Cong : (v : ℤ) (m : ℕ) → Cong m (tmod v m) v
tmod-Cong (pos n) m = record { up = n / m; down = 0; congruent = omega (arith, div-add-mod' n m) }
tmod-Cong (negsuc n) m =
    let (p, q) = neg_ℕ_parts ((n + 1) % m) in
    record { up = 0; down = (n + 1) / m; congruent = omega (arith, p, q, div-add-mod' (n + 1) m) }

-- The remainder is less than the divisor on either side of zero.
tmod-bounds : (v : ℤ) (m : ℕ) → 1 ≤ m → (pos_part (tmod v m) < m) × (neg_part (tmod v m) < m)
tmod-bounds (pos n) m h = (mod-lt n h, omega arith)
tmod-bounds (negsuc n) m h =
    let (p, q) = neg_ℕ_parts ((n + 1) % m) in
    (omega (arith, p, h), omega (arith, q, mod-lt (n + 1) h))

-- A negative remainder is brought up by the range.
wrapped_up :
    (t : ℤ) (m : ℕ)
    → neg_part t < m
    → ltb_ℤ t (pos 0) ≡ true
    → (pos 0 ≤ℤ (t +ℤ pos m)) × (pos_part (t +ℤ pos m) < m)
unfolding ◌+ℤ◌
wrapped_up t m h neg = ground arith

wrapped_in : (t : ℤ) → ltb_ℤ t (pos 0) ≡ false → pos 0 ≤ℤ t
wrapped_in t h = ground arith

-- A remainder is centred by at most one range.
centred :
    (t : ℤ) (half : ℕ)
    → pos_part t < half * 2
    → neg_part t < half * 2
    → InRange half (
        if ltb_ℤ t (neg_ℕ half)
        then t +ℤ pos (half * 2)
        else if ltb_ℤ t (pos half)
        then t
        else t -ℤ pos (half * 2))
unfolding ◌+ℤ◌ ◌-ℤ◌
centred t zero h h' = absurd (omega arith)
centred t (suc half) h h' = ground arith

shift_up-Cong : (v : ℤ) (m : ℕ) → Cong m (v +ℤ pos m) v
shift_up-Cong v m = record { up = 0; down = 1; congruent = omega (arith, +ℤ_parts v (pos m)) }

shift_down-Cong : (v : ℤ) (m : ℕ) → Cong m (v -ℤ pos m) v
shift_down-Cong v m = record { up = 1; down = 0; congruent = omega (arith, -ℤ_parts v (pos m)) }

-- The wrapped difference is the difference up to a multiple of the range.
pub wrap_sample_difference-Cong :
    (v : ℤ) (bits : ℕ) → Cong (2 ^ bits) (wrap_sample_difference v bits) v
unfolding wrap_sample_difference
wrap_sample_difference-Cong v bits = elim (Bool-cases (bits == 0 || leb 31 bits)) [
  | inl whole ↦ rw whole (Cong-refl (2 ^ bits) v)
  | inr some_bits ↦
      let r = tmod v (2 ^ bits) in
      let c = tmod-Cong v (2 ^ bits) in
      elim (Bool-cases (ltb_ℤ r (neg_ℕ (2 ^ bits / 2)))) [
        | inl low ↦ rw (some_bits, low) (Cong-trans (shift_up-Cong r (2 ^ bits)) c)
        | inr high ↦ elim (Bool-cases (ltb_ℤ r (pos (2 ^ bits / 2)))) [
          | inl inside ↦ rw (some_bits, high, inside) c
          | inr above ↦ rw (some_bits, high, above) (Cong-trans (shift_down-Cong r (2 ^ bits)) c)
        ]
      ]
]

-- The reconstruction lies in the range and is the sum up to a multiple of it.
pub reconstruct_lem :
    (prediction d : ℤ) (bits : ℕ)
    → 0 < bits
    → bits < 31
    → Cong (2 ^ bits) (reconstruct prediction d bits) (prediction +ℤ d)
      × (pos 0 ≤ℤ reconstruct prediction d bits)
      × (pos_part (reconstruct prediction d bits) < 2 ^ bits)
unfolding reconstruct
reconstruct_lem prediction d bits h h' =
    let m = 2 ^ bits in
    let v = wrap_int32 (prediction +ℤ d) in
    let w = wrap_int32-Cong (prediction +ℤ d) bits (omega (arith, h')) in
    let plain : (bits == 0 || leb 31 bits) ≡ false = ground arith in
    let c = tmod-Cong v m in
    let b = tmod-bounds v m (one-le-pow bits 2 (omega arith)) in
    elim (Bool-cases (ltb_ℤ (tmod v m) (pos 0))) [
      | inl below ↦
          rw (plain, below)
            (let (low, high) = wrapped_up (tmod v m) m b.1 below in
              (Cong-trans (Cong-trans (shift_up-Cong (tmod v m) m) c) w, low, high))
      | inr above ↦ rw (plain, above) (Cong-trans c w, wrapped_in (tmod v m) above, b.0)
    ]

-- The wrapped difference is a signed number of the width.
pub wrap_sample_difference-InRange :
    (v : ℤ) (b : ℕ) → b < 30 → InRange (2 ^ b) (wrap_sample_difference v (suc b))
unfolding wrap_sample_difference
wrap_sample_difference-InRange v b h =
    let plain : (suc b == 0 || leb 31 (suc b)) ≡ false = ground arith in
    let two : 2 ^ suc b ≡ 2 ^ b * 2 = omega (arith, pow-suc 2 b) in
    let half : 2 ^ b * 2 / 2 ≡ 2 ^ b = omega arith in
    let (p, q) = tmod-bounds v (2 ^ b * 2) (omega (arith, one-le-pow b 2 (omega arith))) in
    rw (plain, two, half) (centred (tmod v (2 ^ b * 2)) (2 ^ b) p q)

difference-Cong :
    (sample prediction : ℤ) (bits : ℕ)
    → 0 < bits
    → bits < 31
    → Cong (2 ^ bits) (difference sample prediction bits) (sample -ℤ prediction)
unfolding difference
difference-Cong sample prediction bits h h' =
    let plain : (bits == 0 || leb 31 bits) ≡ false = ground (arith, h, h') in
    let raw = wrap_int32 (sample -ℤ prediction) in
    rw plain (
      Cong-trans (wrap_sample_difference-Cong raw bits)
        (wrap_int32-Cong (sample -ℤ prediction) bits (omega (arith, h'))))

-- Whatever wraps around on the way, the sample comes back.
pub reconstructed_lem :
    (prediction : ℤ) (sample bits : ℕ)
    → 0 < bits
    → bits < 31
    → sample < 2 ^ bits
    → reconstruct prediction (difference (pos sample) prediction bits) bits ≡ pos sample
reconstructed_lem prediction sample bits some few h =
    let d = difference (pos sample) prediction bits in
    let (c, low, high) = reconstruct_lem prediction d bits some few in
    let e = difference-Cong (pos sample) prediction bits some few in
    let sum = Cong-trans c (Cong-+ℤ (Cong-refl (2 ^ bits) prediction) e) in
    let back : prediction +ℤ (pos sample -ℤ prediction) ≡ pos sample = eq_of_parts _ _ (
      omega (
        arith,
        +ℤ_parts prediction (pos sample -ℤ prediction),
        -ℤ_parts (pos sample) prediction,
      )) in
    Cong-unique (rw back at sum) (omega (arith, low, high, h)) (omega (arith, low, high, h))

-- The sum that the reconstruction starts from.
sum-IsInt32 :
    (prediction : ℤ) (sample bits : ℕ)
    → pos_part prediction ≤ 2 ^ 30
    → neg_part prediction ≤ 2 ^ 30
    → 0 < bits
    → bits < 31
    → IsInt32 (prediction +ℤ difference (pos sample) prediction bits)
unfolding difference
sum-IsInt32 prediction sample zero high low some few = absurd (omega arith)
sum-IsInt32 prediction sample (suc b) high low some few =
    let plain : (suc b == 0 || leb 31 (suc b)) ≡ false = ground (arith, few) in
    let half : 2 ^ b ≤ 2 ^ 29 = pow-le-pow_right {n = 2} (omega arith) {j = 29} (omega arith) in
    let raw = wrap_int32 (pos sample -ℤ prediction) in
    rw plain (
      small_sum (2 ^ b) (wrap_sample_difference raw (suc b)) half
        (wrap_sample_difference-InRange raw b (omega arith)))
  where
    small_sum : (n : ℕ) (d : ℤ) → n ≤ 2 ^ 29 → InRange n d → IsInt32 (prediction +ℤ d)
    small_sum n (pos m) le h =
        +ℤ-IsInt32 prediction (pos m) (omega (arith, high, h, le)) (omega (arith, low))
    small_sum n (negsuc m) le h =
        +ℤ-IsInt32 prediction (negsuc m) (omega (arith, high)) (omega (arith, low, h, le))

-- For a prediction of magnitude at most 2^30, every width and a sample below 2^30 that fits the
-- width, neither the difference before its cast nor the sum that the reconstruction forms leaves
-- the 32-bit integers, and the reconstruction from the difference is the sample.
pub reconstruct-difference :
    (prediction : ℤ) (sample bits : ℕ)
    → pos_part prediction ≤ 2 ^ 30
    → neg_part prediction ≤ 2 ^ 30
    → sample < 2 ^ bits
    → sample < 2 ^ 30
    → IsInt32 (pos sample -ℤ prediction)
      × IsInt32 (prediction +ℤ difference (pos sample) prediction bits)
      × (reconstruct prediction (difference (pos sample) prediction bits) bits ≡ pos sample)
reconstruct-difference prediction sample bits high low h small =
    let raw : IsInt32 (pos sample -ℤ prediction) =
      -ℤ-IsInt32 (pos sample) prediction (omega (arith, small, low)) (omega (arith, high)) in
    let back : prediction +ℤ (pos sample -ℤ prediction) ≡ pos sample = eq_of_parts _ _ (
      omega (
        arith,
        +ℤ_parts prediction (pos sample -ℤ prediction),
        -ℤ_parts (pos sample) prediction,
      )) in
    let fits : IsInt32 (pos sample) = omega (arith, small) in
    elim (Bool-cases (bits == 0 || leb 31 bits)) [
      | inl whole ↦
          let same : difference (pos sample) prediction bits ≡ pos sample -ℤ prediction =
            unfold difference in rw whole (wrap_int32_same _ raw) in
          (
            raw,
            rw (same, back) fits,
            (unfold reconstruct in rw (whole, same, back) (wrap_int32_same (pos sample) fits)),
          )
      | inr some_bits ↦
          let some : 0 < bits = ground (arith, some_bits) in
          let few : bits < 31 = ground (arith, some_bits) in
          (
            raw,
            sum-IsInt32 prediction sample bits high low some few,
            reconstructed_lem prediction sample bits some few h,
          )
    ]
