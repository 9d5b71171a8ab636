-- ===== src/Syntax/Stream/Planes.antt =====
-- The planes that src/mffv1/stream_parameters.hpp gives a stream: their roles and their tables.
use mffv.Common.{ℕ, ◌<◌, ◌≡◌, arith}
use mffv.Syntax.Stream.{
  StreamParameters, coded_plane_count, expected_plane_role, is_chroma_plane,
  quant_table_set_index_count, plane_quant_table_set_index_slot,
}

-- Every coded plane has a slot among the table set indexes of the slice header.
pub plane_quant_table_set_index_slot-lt :
    (s : StreamParameters) (plane_index : ℕ)
    → plane_index < coded_plane_count s
    → plane_quant_table_set_index_slot s plane_index < quant_table_set_index_count s
unfolding coded_plane_count plane_quant_table_set_index_slot is_chroma_plane
    quant_table_set_index_count
plane_quant_table_set_index_slot-lt s plane_index h = ground arith

-- Two coded planes of a stream never have the same role.
pub expected_plane_role-injective :
    (s : StreamParameters) (i j : ℕ)
    → i < coded_plane_count s
    → j < coded_plane_count s
    → expected_plane_role s i ≡ expected_plane_role s j
    → i ≡ j
unfolding coded_plane_count expected_plane_role
expected_plane_role-injective s i j hi hj same = ground arith
