-- ===== src/Syntax/Profile.antt =====
-- src/mffv1/profile_constraints.hpp and src/mffv1/sample_format.hpp: what the codec accepts of the
-- parameters of a stream.
use mffv.Common.{ℕ, Bool, true, not, ◌&&◌, ◌||◌, leb, ◌==◌, if◌then◌else◌}
use mffv.Common.Int.{ℤ, pos, eqb_ℤ}

pub data SampleFormat : Type 0 where
  u_int8 u_int16 : SampleFormat

pub data ColorSpace : Type 0 where
  y_cb_cr rgb : ColorSpace

unfoldable pub sample_format_for_bit_depth : ℕ → SampleFormat
sample_format_for_bit_depth bits_per_raw_sample =
    if leb bits_per_raw_sample 8 then SampleFormat.u_int8 else SampleFormat.u_int16

unfoldable pub bytes_per_sample : SampleFormat → ℕ
bytes_per_sample SampleFormat.u_int8 = 1
bytes_per_sample SampleFormat.u_int16 = 2

unfoldable pub is_supported_encoder_bit_depth : ℕ → Bool
is_supported_encoder_bit_depth bits = leb 1 bits && leb bits 16

unfoldable pub is_supported_decoder_bit_depth : ℕ → Bool
is_supported_decoder_bit_depth bits = leb 1 bits && leb bits 16

unfoldable pub is_supported_syntax_colorspace : ℤ → Bool
is_supported_syntax_colorspace colorspace_type =
    eqb_ℤ colorspace_type (pos 0) || eqb_ℤ colorspace_type (pos 1)

-- The enumeration has no other value.
unfoldable pub is_supported_public_color_space : ColorSpace → Bool
is_supported_public_color_space ColorSpace.y_cb_cr = true
is_supported_public_color_space ColorSpace.rgb = true

unfoldable pub has_invalid_rgb_geometry : Bool → Bool → ℕ → ℕ → Bool
has_invalid_rgb_geometry is_rgb has_chroma_planes log2_h log2_v =
    is_rgb && (not has_chroma_planes || not (log2_h == 0) || not (log2_v == 0))

unfoldable pub has_subsampling_without_chroma : Bool → ℕ → ℕ → Bool
has_subsampling_without_chroma has_chroma_planes log2_h log2_v =
    not has_chroma_planes && (not (log2_h == 0) || not (log2_v == 0))

unfoldable pub is_supported_chroma_subsampling : ℕ → ℕ → Bool
is_supported_chroma_subsampling log2_h log2_v = leb log2_h 1 && leb log2_v 1 && leb log2_v log2_h
