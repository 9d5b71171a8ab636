-- ===== src/Codec/Configuration/Accepted.antt =====
-- What validate_initial_profile of src/codec/configuration_record_writer.cpp lets through.
use mffv.Common.{◌≡◌, refl, Bool, true, false, not, ◌&&◌, ◌||◌, ltb, ◌==◌, length}
use mffv.Common.Int.{pos, eqb_ℤ}
use mffv.Common.Status.{ErrorCode, Outcome, ok, ◌>>◌, refuse}
use mffv.Syntax.Stream.{StreamParameters, is_range}
use mffv.Syntax.Profile.{
  has_invalid_rgb_geometry, has_subsampling_without_chroma, is_supported_chroma_subsampling,
  is_supported_encoder_bit_depth, is_supported_syntax_colorspace,
}
use mffv.Codec.Configuration.Writer.{
  any_state_count_wrong, any_without_contexts, validate_initial_profile,
}

-- The test of a block that succeeded.
refuse_inv :
    {S A : Type 0} (code : ErrorCode) (refused : Bool) (m : S → Outcome S A) {s : S} {a : A}
    {s' : S}
    → (refuse code refused >> m) s ≡ ok a s'
    → (refused ≡ false) × (m s ≡ ok a s')
refuse_inv code true m h = cc
refuse_inv code false m h = (refl, h)

refused_last :
    {S : Type 0} (code : ErrorCode) (refused : Bool) (s : S) {s' : S}
    → refuse code refused s ≡ ok tt s'
    → refused ≡ false
refused_last code true s h = cc
refused_last code false s h = refl

pub record IsAccepted (stream : StreamParameters) : Type 0 where
  pub versions :
      (not (eqb_ℤ stream.version (pos 3)) || not (eqb_ℤ stream.micro_version (pos 4))) ≡ false
  pub golomb :
      (not (is_range stream.entropy_mode)
        && not (is_supported_encoder_bit_depth stream.bits_per_raw_sample))
      ≡ false
  pub format :
      (not (is_supported_syntax_colorspace stream.colorspace_type)
        || not (is_supported_encoder_bit_depth stream.bits_per_raw_sample))
      ≡ false
  pub rgb :
      has_invalid_rgb_geometry
        (eqb_ℤ stream.colorspace_type (pos 1))
        stream.chroma_planes
        stream.log2_h_chroma_subsample
        stream.log2_v_chroma_subsample
      ≡ false
  pub no_chroma :
      has_subsampling_without_chroma stream.chroma_planes stream.log2_h_chroma_subsample
        stream.log2_v_chroma_subsample
      ≡ false
  pub subsampling :
      not (
        is_supported_chroma_subsampling stream.log2_h_chroma_subsample
          stream.log2_v_chroma_subsample)
      ≡ false
  pub grid : (stream.num_h_slices == 0 || stream.num_v_slices == 0) ≡ false
  pub sets : (length stream.quant_table_sets == 0 || ltb 8 (length stream.quant_table_sets)) ≡ false
  pub contexts : any_without_contexts stream.quant_table_sets ≡ false
  pub state_sets :
      (not (length stream.initial_states == 0)
        && not (length stream.initial_states == length stream.quant_table_sets))
      ≡ false
  pub state_counts : any_state_count_wrong stream.initial_states stream.quant_table_sets ≡ false

pub validate_initial_profile_lem :
    {S : Type 0} (stream : StreamParameters) (s : S)
    → validate_initial_profile stream s ≡ ok tt s
    → IsAccepted stream
unfolding validate_initial_profile
validate_initial_profile_lem stream s h =
    let (b₁, h₁) = refuse_inv _ _ _ h in
    let (b₂, h₂) = refuse_inv _ _ _ h₁ in
    let (b₃, h₃) = refuse_inv _ _ _ h₂ in
    let (b₄, h₄) = refuse_inv _ _ _ h₃ in
    let (b₅, h₅) = refuse_inv _ _ _ h₄ in
    let (b₆, h₆) = refuse_inv _ _ _ h₅ in
    let (b₇, h₇) = refuse_inv _ _ _ h₆ in
    let (b₈, h₈) = refuse_inv _ _ _ h₇ in
    let (b₉, h₉) = refuse_inv _ _ _ h₈ in
    let (b₁₀, h₁₀) = refuse_inv _ _ _ h₉ in
    record {
      versions = b₁;
      golomb = b₂;
      format = b₃;
      rgb = b₄;
      no_chroma = b₅;
      subsampling = b₆;
      grid = b₇;
      sets = b₈;
      contexts = b₉;
      state_sets = b₁₀;
      state_counts = refused_last _ _ s h₁₀;
    }

pub accepted_anywhere :
    {S : Type 0} (stream : StreamParameters)
    → IsAccepted stream
    → (s : S) → validate_initial_profile stream s ≡ ok tt s
unfolding validate_initial_profile
accepted_anywhere stream a s =
    rw
      (
        a.versions, a.golomb, a.format, a.rgb, a.no_chroma, a.subsampling, a.grid, a.sets,
        a.contexts, a.state_sets, a.state_counts,
      )
      refl
