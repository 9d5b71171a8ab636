-- ===== src/Codec/Descriptor.antt =====
-- src/mffv1/slice_descriptor.hpp. The payload's span is a list of bytes.
use mffv.Common.{ℕ, List, [], Bool, false}

pub record SliceDescriptor : Type 0 where
  pub index : ℕ
  pub x : ℕ
  pub y : ℕ
  pub width : ℕ
  pub height : ℕ
  pub raster_x : ℕ
  pub raster_y : ℕ
  pub raster_width : ℕ
  pub raster_height : ℕ
  pub payload : List ℕ
  pub header_byte_offset : ℕ
  pub content_byte_offset : ℕ
  pub content_bit_offset : ℕ
  pub payload_byte_offset : ℕ
  pub footer_byte_offset : ℕ
  pub slice_size : ℕ
  pub quant_table_set_indexes : List ℕ
  pub picture_structure : ℕ
  pub sar_num : ℕ
  pub sar_den : ℕ
  pub error_status : ℕ
  pub expected_crc : ℕ
  pub has_crc : Bool
  pub continues_frame_range_state : Bool
  pub uses_legacy_v0_arithmetic : Bool

unfoldable pub new_descriptor : SliceDescriptor
new_descriptor = record {
  index = 0;
  x = 0;
  y = 0;
  width = 0;
  height = 0;
  raster_x = 0;
  raster_y = 0;
  raster_width = 0;
  raster_height = 0;
  payload = [];
  header_byte_offset = 0;
  content_byte_offset = 0;
  content_bit_offset = 0;
  payload_byte_offset = 0;
  footer_byte_offset = 0;
  slice_size = 0;
  quant_table_set_indexes = [];
  picture_structure = 0;
  sar_num = 0;
  sar_den = 0;
  error_status = 0;
  expected_crc = 0;
  has_crc = false;
  continues_frame_range_state = false;
  uses_legacy_v0_arithmetic = false;
}
