-- ===== src/Codec/SliceHeader/Raster.antt =====
-- What the checks of src/codec/slice_header_parser.cpp make sure of.
use mffv.Common.{
  ℕ, ◌+◌, ◌^◌, ◌≤◌, ◌<◌, ◌≡◌, refl, arith, List, [], ◌∷◌, false, Bool-cases, inl, inr, length, ◌⊎◌,
}
use mffv.Common.Status.{ErrorCode, make_error, ok, fail}
use mffv.Syntax.Stream.{
  StreamParameters, slice_pixel_x, slice_pixel_y, slice_pixel_width, slice_pixel_height,
}
use mffv.Syntax.Stream.Geometry.{slice_end_lem}
use mffv.Codec.Descriptor.{SliceDescriptor}
use mffv.Codec.SliceHeader.{SliceHeaderValues, any_index_past, apply_raster, is_refused, placed}
use mffv.Codec.SliceHeader.RoundTrip.{is_refused_lem}

-- Every index is below the number of table sets.
abbrev pub AllBelow : ℕ → List ℕ → Type 0
AllBelow count [] = Unit {0}
AllBelow count (index ∷ indexes) = (index < count) × AllBelow count indexes

any_index_past_lem :
    (count : ℕ) (indexes : List ℕ) → any_index_past count indexes ≡ false → AllBelow count indexes
unfolding any_index_past
any_index_past_lem count [] h = tt
any_index_past_lem count (index ∷ indexes) h =
    (ground (arith, h), any_index_past_lem count indexes (ground (arith, h)))

-- The rectangle of pixels is inside the frame, its raster rectangle is the header's, and its table
-- sets exist.
pub record IsInFrame (stream : StreamParameters) (values : SliceHeaderValues) (d : SliceDescriptor)
    : Type 0 where
  pub right : d.x + d.width ≤ stream.width
  pub below : d.y + d.height ≤ stream.height
  pub same_raster :
      (d.raster_x ≡ values.x)
      × (d.raster_y ≡ values.y)
      × (d.raster_width ≡ values.width)
      × (d.raster_height ≡ values.height)
  pub sets : AllBelow (length stream.quant_table_sets) d.quant_table_set_indexes

-- On a frame and a grid with 32-bit sizes, apply_raster either fails with a syntax error and
-- leaves the descriptor alone, or gives the descriptor a pixel rectangle inside the frame, the
-- raster rectangle of the header, and table sets that exist.
pub apply_raster_lem :
    (stream : StreamParameters) (values : SliceHeaderValues) (descriptor : SliceDescriptor)
    → stream.width < 2 ^ 32
    → stream.height < 2 ^ 32
    → stream.num_h_slices < 2 ^ 32
    → stream.num_v_slices < 2 ^ 32
    → (apply_raster stream values descriptor ≡ fail (make_error ErrorCode.syntax_error) descriptor)
      ⊎ ((d : SliceDescriptor) × (apply_raster stream values descriptor ≡ ok tt d)
          × IsInFrame stream values d)
unfolding apply_raster placed slice_pixel_width slice_pixel_height slice_pixel_x slice_pixel_y
apply_raster_lem stream values descriptor hw hh hx hy =
    elim (Bool-cases (is_refused stream.num_h_slices stream.num_v_slices stream values)) [
      | inl refused ↦ inl (rw refused refl)
      | inr accepted ↦
          let p = is_refused_lem stream.num_h_slices stream.num_v_slices stream values accepted in
          inr (
            placed stream values descriptor,
            rw accepted refl,
            record {
              right =
                  slice_end_lem stream.width stream.num_h_slices values.x values.width hw hx
                    (omega (arith, p.right, p.wide)) p.right;
              below =
                  slice_end_lem stream.height stream.num_v_slices values.y values.height hh hy
                    (omega (arith, p.below, p.high)) p.below;
              same_raster = (refl, refl, refl, refl);
              sets =
                  any_index_past_lem (length stream.quant_table_sets) values.quant_table_set_indexes
                    p.indexes;
            },
          )
    ]
