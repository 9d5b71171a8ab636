-- ===== src/Codec/SliceHeader.antt =====
-- src/codec/slice_header_parser.cpp and src/codec/slice_header_writer.cpp, over any symbol reader and
-- writer.
pub mod Raster
pub mod RoundTrip
use mffv.Common.{
  ℕ, zero, suc, ◌+◌, ◌-◌, ◌*◌, ◌^◌, List, [], ◌∷◌, Bool, true, false, not, ◌&&◌, ◌||◌, ltb, leb,
  ◌==◌, if◌then◌else◌, length,
}
use mffv.Common.Status.{
  ErrorCode, make_error, make_byte_error, Outcome, ok, fail, ◌>>=◌, ◌>>◌, return,
}
use mffv.Syntax.Stream.{
  StreamParameters, quant_table_set_index_count, slice_pixel_x, slice_pixel_y, slice_pixel_width,
  slice_pixel_height,
}
use mffv.Codec.Descriptor.{SliceDescriptor}
use mffv.Codec.Symbols.{SymbolReader, SymbolWriter}

pub record SliceHeaderValues : Type 0 where
  pub x : ℕ
  pub y : ℕ
  pub width : ℕ
  pub height : ℕ
  pub quant_table_set_indexes : List ℕ
  pub picture_structure : ℕ
  pub sar_num : ℕ
  pub sar_den : ℕ

-- `std::numeric_limits<std::uint32_t>::max()`
abbrev pub max_u32 : ℕ
max_u32 = 2 ^ 32 - 1

-- The test of `validate_picture_structure`.
unfoldable pub is_reserved_picture_structure : ℕ → Bool
is_reserved_picture_structure picture_structure = ltb 3 picture_structure

-- The test of the loop over the indexes.
unfoldable pub any_index_past : ℕ → List ℕ → Bool
any_index_past count [] = false
any_index_past count (index ∷ indexes) =
    if leb count index then true else any_index_past count indexes

-- The conditions of `apply_raster`; `columns` and `rows` are those of the slice raster, and every
-- failure is a `SyntaxError`. The subtractions are of 32-bit numbers, behind the tests that keep
-- them from wrapping.
unfoldable pub is_refused : ℕ → ℕ → StreamParameters → SliceHeaderValues → Bool
unfolding is_reserved_picture_structure any_index_past
is_refused columns rows stream values =
    if values.width == 0 || values.height == 0
    then true
    else if ltb columns values.x
        || ltb rows values.y
        || ltb (columns - values.x) values.width
        || ltb (rows - values.y) values.height
    then true
    else if length values.quant_table_set_indexes == 0
    then true
    else if any_index_past (length stream.quant_table_sets) values.quant_table_set_indexes
    then true
    else is_reserved_picture_structure values.picture_structure

unfoldable pub apply :
    StreamParameters → SliceHeaderValues → SliceDescriptor → Outcome SliceDescriptor (Unit {0})
unfolding is_refused
apply stream values descriptor =
    if is_refused stream.width stream.height stream values
    then fail (make_error ErrorCode.syntax_error) descriptor
    else ok tt (record descriptor {
      x = values.x;
      y = values.y;
      width = values.width;
      height = values.height;
      quant_table_set_indexes = values.quant_table_set_indexes;
      picture_structure = values.picture_structure;
      sar_num = values.sar_num;
      sar_den = values.sar_den;
    })

-- The assignments of `apply_raster`.
unfoldable pub placed : StreamParameters → SliceHeaderValues → SliceDescriptor → SliceDescriptor
placed stream values descriptor = record descriptor {
  x = slice_pixel_x stream values.x;
  y = slice_pixel_y stream values.y;
  width = slice_pixel_width stream values.x values.width;
  height = slice_pixel_height stream values.y values.height;
  raster_x = values.x;
  raster_y = values.y;
  raster_width = values.width;
  raster_height = values.height;
  quant_table_set_indexes = values.quant_table_set_indexes;
  picture_structure = values.picture_structure;
  sar_num = values.sar_num;
  sar_den = values.sar_den;
}

unfoldable pub apply_raster :
    StreamParameters → SliceHeaderValues → SliceDescriptor → Outcome SliceDescriptor (Unit {0})
unfolding is_refused placed
apply_raster stream values descriptor =
    if is_refused stream.num_h_slices stream.num_v_slices stream values
    then fail (make_error ErrorCode.syntax_error) descriptor
    else ok tt (placed stream values descriptor)

module _ {R : Type 0} (reader : SymbolReader R) where
  -- A test of a value that was read: its failure is located at the reader.
  unfoldable pub refuse_if : Bool → R → Outcome R (Unit {0})
  refuse_if refused r =
      if refused
      then fail (make_byte_error ErrorCode.syntax_error (reader.byte_position r)) r
      else ok tt r

  -- The loop over the table set indexes, with the rounds left.
  unfoldable pub read_indexes : ℕ → ℕ → R → Outcome R (List ℕ)
  unfolding refuse_if
  read_indexes count zero = return []
  read_indexes count (suc left) = do
    index ← reader.read_unsigned
    refuse_if (ltb max_u32 index)
    refuse_if (leb count index)
    indexes ← read_indexes count left
    return (index ∷ indexes)

  -- A ratio with a part that is 0 is none.
  unfoldable pub normal_sar : ℕ → ℕ → ℕ
  normal_sar part other = if part == 0 || other == 0 then 0 else part

  -- The part of `read` behind the rectangle.
  unfoldable pub read_rest : StreamParameters → ℕ → ℕ → ℕ → ℕ → R → Outcome R SliceHeaderValues
  unfolding refuse_if read_indexes normal_sar is_reserved_picture_structure
  read_rest stream x y width height = do
    indexes ← read_indexes (length stream.quant_table_sets) (quant_table_set_index_count stream)
    picture_structure ← reader.read_unsigned
    refuse_if (is_reserved_picture_structure picture_structure)
    sar_num ← reader.read_unsigned
    sar_den ← reader.read_unsigned
    return (record {
      x = x;
      y = y;
      width = width;
      height = height;
      quant_table_set_indexes = indexes;
      picture_structure = picture_structure;
      sar_num = normal_sar sar_num sar_den;
      sar_den = normal_sar sar_den sar_num;
    })

  unfoldable pub read : StreamParameters → R → Outcome R SliceHeaderValues
  unfolding refuse_if read_rest
  read stream = do
    x ← reader.read_unsigned
    refuse_if (ltb stream.num_h_slices x || ltb max_u32 x)
    y ← reader.read_unsigned
    refuse_if (ltb stream.num_v_slices y || ltb max_u32 y)
    width_minus_one ← reader.read_unsigned
    refuse_if (leb max_u32 width_minus_one)
    height_minus_one ← reader.read_unsigned
    refuse_if (leb max_u32 height_minus_one)
    refuse_if (
        ltb (stream.num_h_slices - x) (width_minus_one + 1)
        || ltb (stream.num_v_slices - y) (height_minus_one + 1))
    read_rest stream x y (width_minus_one + 1) (height_minus_one + 1)

  -- The value is the descriptor, which a failure leaves alone.
  unfoldable pub read_descriptor :
      StreamParameters → SliceDescriptor → R → Outcome R SliceDescriptor
  unfolding read
  read_descriptor stream descriptor r =
      (read stream >>= λ values r'. elim (apply_raster stream values descriptor) [
        | ok _ applied ↦
            ok
              (record applied {
                header_byte_offset = reader.byte_position r;
                content_byte_offset = reader.byte_position r';
                payload_byte_offset = reader.byte_position r;
              })
              r'
        | fail status _ ↦ fail status r'
      ])
        r

module _ {W : Type 0} (writer : SymbolWriter W) where
  unfoldable pub write_indexes : List ℕ → W → Outcome W (Unit {0})
  write_indexes [] = return tt
  write_indexes (index ∷ indexes) = writer.write_unsigned index >> write_indexes indexes

  -- The part of `write` behind the rectangle. A writer call that fails ends the function.
  unfoldable pub write_rest : SliceHeaderValues → W → Outcome W (Unit {0})
  unfolding write_indexes
  write_rest values = do
    write_indexes values.quant_table_set_indexes
    writer.write_unsigned values.picture_structure
    writer.write_unsigned values.sar_num
    writer.write_unsigned values.sar_den

  unfoldable pub write_values : SliceHeaderValues → W → Outcome W (Unit {0})
  unfolding write_rest
  write_values values = do
    writer.write_unsigned values.x
    writer.write_unsigned values.y
    writer.write_unsigned (values.width - 1)
    writer.write_unsigned (values.height - 1)
    write_rest values

  unfoldable pub write : StreamParameters → SliceHeaderValues → W → Outcome W (Unit {0})
  unfolding is_refused write_values
  write stream values w =
      if is_refused stream.num_h_slices stream.num_v_slices stream values
      then fail (make_error ErrorCode.syntax_error) w
      else if not (length values.quant_table_set_indexes == quant_table_set_index_count stream)
      then fail (make_error ErrorCode.invalid_argument) w
      else if not (values.sar_num == 0) && values.sar_den == 0
          || values.sar_num == 0 && not (values.sar_den == 0)
      then fail (make_error ErrorCode.invalid_argument) w
      else write_values values w
