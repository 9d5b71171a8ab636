-- ===== src/Syntax/Predictor.antt =====
-- src/mffv1/predictor.cpp. Every 32-bit result is wrapped to its type. The source leaves the overflow
-- of a signed addition undefined: the wrap-around is what two's complement makes of it.
pub mod Lossless
use mffv.Common.{ℕ, ◌+◌, ◌^◌, ◌||◌, leb, ◌==◌, if◌then◌else◌}
use mffv.Common.Int.{ℤ, pos, ltb_ℤ, leb_ℤ, ◌+ℤ◌, ◌-ℤ◌}
use mffv.Common.Int32.{wrap_int32}
use mffv.Util.RfcMath.{tmod, median3, wrap_sample_difference}

unfoldable pub as_signed_16bit : ℤ → ℤ
as_signed_16bit sample = if leb_ℤ (pos 32768) sample then sample -ℤ pos 65536 else sample

unfoldable pub median_predict : ℤ → ℤ → ℤ → ℤ
unfolding wrap_int32
median_predict left top top_left =
    median3 left top (wrap_int32 (wrap_int32 (left +ℤ top) -ℤ top_left))

unfoldable pub median_predict_signed_16bit : ℤ → ℤ → ℤ → ℤ
unfolding as_signed_16bit wrap_int32
median_predict_signed_16bit left top top_left =
    let signed_left = as_signed_16bit left in
    let signed_top = as_signed_16bit top in
    let signed_top_left = as_signed_16bit top_left in
    median3 signed_left signed_top
      (wrap_int32 (wrap_int32 (signed_left +ℤ signed_top) -ℤ signed_top_left))

unfoldable pub reconstruct : ℤ → ℤ → ℕ → ℤ
unfolding wrap_int32
reconstruct prediction difference bits =
    let reconstructed = wrap_int32 (prediction +ℤ difference) in
    if bits == 0 || leb 31 bits
    then reconstructed
    else let wrapped = tmod reconstructed (2 ^ bits) in
      if ltb_ℤ wrapped (pos 0) then wrapped +ℤ pos (2 ^ bits) else wrapped

-- `raw_difference` has 64 bits.
unfoldable pub difference : ℤ → ℤ → ℕ → ℤ
unfolding wrap_int32
difference sample prediction bits =
    let raw_difference = sample -ℤ prediction in
    if bits == 0 || leb 31 bits
    then wrap_int32 raw_difference
    else wrap_sample_difference (wrap_int32 raw_difference) bits
