-- ===== src/Syntax/ColorTransform.antt =====
-- src/mffv1/color_transform.cpp: the reversible colour transform of JPEG 2000. Samples have at most
-- 16 bits, so the 64-bit intermediate values do not overflow; the masks and casts are written out.
pub mod Inverse
use mffv.Common.{
  ℕ, ◌+◌, ◌-◌, ◌*◌, ◌^◌, Bool, ◌&&◌, ◌||◌, not, bit_and, ltb, leb, ◌==◌, if◌then◌else◌,
}
use mffv.Common.Int.{ℤ, pos, ◌+ℤ◌, ◌-ℤ◌}
use mffv.Golomb.Context.{to_u64}
use mffv.Util.RfcMath.{arithmetic_right_shift}

pub record RgbCode : Type 0 where
  pub y : ℤ
  pub cb : ℤ
  pub cr : ℤ

pub record RgbSample : Type 0 where
  pub r : ℕ
  pub g : ℕ
  pub b : ℕ

-- At 9 to 15 bits without an extra plane, blue stands in the place of green.
unfoldable pub uses_blue_base : ℕ → Bool → Bool
uses_blue_base bits has_extra_plane = leb 9 bits && leb bits 15 && not has_extra_plane

-- The luma and the two differences from the base.
unfoldable pub code_of : ℕ → ℤ → ℤ → ℤ → RgbCode
code_of bits base first second =
    let signed_cb = first -ℤ base in
    let signed_cr = second -ℤ base in
    let offset = 2 ^ bits in
    let y = base +ℤ arithmetic_right_shift (signed_cb +ℤ signed_cr) 2 in
    record {
      y = pos (bit_and (to_u64 y) (offset * 2 - 1));
      cb = signed_cb +ℤ pos offset;
      cr = signed_cr +ℤ pos offset;
    }

unfoldable pub forward_jpeg2000_rct : ℕ → ℕ → ℕ → ℕ → Bool → RgbCode
unfolding uses_blue_base code_of
forward_jpeg2000_rct r g b bits has_extra_plane =
    if bits == 0 || ltb 16 bits
    then record { y = pos 0; cb = pos 0; cr = pos 0 }
    else if uses_blue_base bits has_extra_plane
    then code_of bits (pos b) (pos g) (pos r)
    else code_of bits (pos g) (pos b) (pos r)

-- `static_cast<uint16_t>(static_cast<uint64_t>(v) & mask)`
unfoldable pub masked_sample : ℕ → ℤ → ℕ
masked_sample bits v = bit_and (to_u64 v) (2 ^ bits - 1)

unfoldable pub inverse_jpeg2000_rct : ℤ → ℤ → ℤ → ℕ → Bool → RgbSample
unfolding uses_blue_base masked_sample
inverse_jpeg2000_rct y cb cr bits has_extra_plane =
    if bits == 0 || ltb 16 bits
    then record { r = 0; g = 0; b = 0 }
    else let signed_cb = cb -ℤ pos (2 ^ bits) in
      let signed_cr = cr -ℤ pos (2 ^ bits) in
      let base = y -ℤ arithmetic_right_shift (signed_cb +ℤ signed_cr) 2 in
      if uses_blue_base bits has_extra_plane
      then record {
        r = masked_sample bits (signed_cr +ℤ base);
        g = masked_sample bits (signed_cb +ℤ base);
        b = masked_sample bits base;
      }
      else record {
        r = masked_sample bits (signed_cr +ℤ base);
        g = masked_sample bits base;
        b = masked_sample bits (signed_cb +ℤ base);
      }
