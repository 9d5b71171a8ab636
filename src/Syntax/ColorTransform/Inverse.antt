-- ===== src/Syntax/ColorTransform/Inverse.antt =====
-- The inverse of src/mffv1/color_transform.cpp undoes the forward transform.
use mffv.Common.{
  ℕ, suc, ◌*◌, ◌%◌, ◌^◌, ◌≤◌, ◌<◌, ◌≡◌, refl, ◌∙◌, arith, Bool, false, ◌||◌, ltb, ◌==◌, Bool-cases,
  inl, inr,
}
use mffv.Common.Bits.{bit_and_mask}
use mffv.Common.Int.{ℤ, pos, ◌+ℤ◌, ◌-ℤ◌, +ℤ_parts, -ℤ_parts, eq_of_parts}
use mffv.Common.Cong.{Cong, Cong-refl, Cong-trans, Cong-+ℤ, Cong--ℤ, Cong-unique, Cong-of_mul}
use mffv.Golomb.Context.{to_u64}
use mffv.Golomb.SignExtend.{encoded-Cong}
use mffv.Util.RfcMath.{arithmetic_right_shift}
use mffv.Syntax.ColorTransform.{
  RgbCode, code_of, uses_blue_base, masked_sample, forward_jpeg2000_rct, inverse_jpeg2000_rct,
}
use mathlib.Core.Path.{subst}
use native.Mathlib.Nat.{pow-suc, mod-lt, one-le-pow}

pos-injective : {a b : ℕ} → pos a ≡ pos b → a ≡ b
pos-injective h = cc

-- A mask brings every integer back to the sample that it is congruent to.
masked_sample_lem :
    (bits n : ℕ) (v : ℤ)
    → bits ≤ 16
    → n < 2 ^ bits
    → Cong (2 ^ bits) v (pos n)
    → masked_sample bits v ≡ n
unfolding masked_sample
masked_sample_lem bits n v small h c =
    let e = bit_and_mask bits (to_u64 v) in
    let below = mod-lt (to_u64 v) (one-le-pow bits 2 (omega arith)) in
    let same : pos (to_u64 v % 2 ^ bits) ≡ pos n =
      Cong-unique (Cong-trans (encoded-Cong v bits (omega (arith, small))) c)
        (omega (arith, below, h)) (omega (arith, below, h)) in
    e ∙ pos-injective same

module _ (bits base first second : ℕ) (small : bits ≤ 16) (base_fits : base < 2 ^ bits)
    (first_fits : first < 2 ^ bits) (second_fits : second < 2 ^ bits) where
  abbrev coded : RgbCode
  unfolding code_of
  coded = code_of bits (pos base) (pos first) (pos second)

  offset_gone : (v : ℤ) → v +ℤ pos (2 ^ bits) -ℤ pos (2 ^ bits) ≡ v
  offset_gone v =
      let moved = v +ℤ pos (2 ^ bits) in
      eq_of_parts (moved -ℤ pos (2 ^ bits)) v
        (omega (arith, +ℤ_parts v (pos (2 ^ bits)), -ℤ_parts moved (pos (2 ^ bits))))

  abbrev correction : ℤ
  correction = arithmetic_right_shift ((pos first -ℤ pos base) +ℤ (pos second -ℤ pos base)) 2

  luma-Cong : Cong (2 ^ bits) (coded.y) (pos base +ℤ correction)
  unfolding code_of
  luma-Cong =
      let luma = pos base +ℤ correction in
      let two : 2 ^ bits * 2 ≡ 2 ^ suc bits = omega (arith, pow-suc 2 bits) in
      let wide = encoded-Cong luma (suc bits) (omega (arith, small)) in
      rw (two, bit_and_mask (suc bits) (to_u64 luma))
        (Cong-of_mul 2 (2 ^ bits) (
          subst (λ (m : ℕ). Cong m (pos (to_u64 luma % 2 ^ suc bits)) luma)
            (omega (arith, pow-suc 2 bits)) wide))

  abbrev base' : ℤ
  base' = coded.y -ℤ correction

  base-Cong : Cong (2 ^ bits) base' (pos base)
  base-Cong =
      let luma = pos base +ℤ correction in
      let back : luma -ℤ correction ≡ pos base =
        eq_of_parts (luma -ℤ correction) (pos base)
          (omega (arith, +ℤ_parts (pos base) correction, -ℤ_parts luma correction)) in
      rw back at (Cong--ℤ luma-Cong (Cong-refl (2 ^ bits) correction))

  other-Cong : (n : ℕ) → Cong (2 ^ bits) ((pos n -ℤ pos base) +ℤ base') (pos n)
  other-Cong n =
      let d = pos n -ℤ pos base in
      let back : d +ℤ pos base ≡ pos n =
        eq_of_parts (d +ℤ pos base) (pos n)
          (omega (arith, -ℤ_parts (pos n) (pos base), +ℤ_parts d (pos base))) in
      rw back at (Cong-+ℤ (Cong-refl (2 ^ bits) d) base-Cong)

-- At 1 to 16 bits, with an extra plane or without, the inverse colour transform of the transform
-- of three samples that fit the width is the three samples.
pub inverse-forward :
    (r g b bits : ℕ) (has_extra_plane : Bool)
    → 1 ≤ bits
    → bits ≤ 16
    → r < 2 ^ bits
    → g < 2 ^ bits
    → b < 2 ^ bits
    → let code = forward_jpeg2000_rct r g b bits has_extra_plane in
      inverse_jpeg2000_rct code.y code.cb code.cr bits has_extra_plane
      ≡ record { r = r; g = g; b = b }
unfolding forward_jpeg2000_rct inverse_jpeg2000_rct code_of
inverse-forward r g b bits extra low high hr hg hb =
    let plain : (bits == 0 || ltb 16 bits) ≡ false = ground arith in
    elim (Bool-cases (uses_blue_base bits extra)) [
      | inl blue ↦
          rw
            (
              plain,
              blue,
              offset_gone bits b g r high hb hg hr (pos g -ℤ pos b),
              offset_gone bits b g r high hb hg hr (pos r -ℤ pos b),
              masked_sample_lem bits r _ high hr (other-Cong bits b g r high hb hg hr r),
              masked_sample_lem bits g _ high hg (other-Cong bits b g r high hb hg hr g),
              masked_sample_lem bits b _ high hb (base-Cong bits b g r high hb hg hr),
            )
            refl
      | inr green ↦
          rw
            (
              plain,
              green,
              offset_gone bits g b r high hg hb hr (pos b -ℤ pos g),
              offset_gone bits g b r high hg hb hr (pos r -ℤ pos g),
              masked_sample_lem bits r _ high hr (other-Cong bits g b r high hg hb hr r),
              masked_sample_lem bits g _ high hg (base-Cong bits g b r high hg hb hr),
              masked_sample_lem bits b _ high hb (other-Cong bits g b r high hg hb hr b),
            )
            refl
    ]
