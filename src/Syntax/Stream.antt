-- ===== src/Syntax/Stream.antt =====
-- src/mffv1/stream_parameters.hpp, with the enumerations of include/mffv1/frame.hpp and
-- include/mffv1/options.hpp that it uses. An `int` is an integer; the unsigned fields are numbers,
-- and their widths are written out where a computation could leave them.
pub mod Geometry
pub mod Compare
pub mod Equivalence
pub mod Planes
use mffv.Common.{
  ℕ, suc, ◌+◌, ◌-◌, ◌*◌, ◌/◌, ◌%◌, ◌^◌, List, [], ◌∷◌, Bool, true, false, not, ◌&&◌, ◌||◌, leb,
  ◌==◌, if◌then◌else◌, length, replicate,
}
use mffv.Common.Int.{ℤ, pos, negsuc, leb_ℤ, eqb_ℤ}
use mffv.Range.Transition.{StateTransitionTable}

pub data EntropyMode : Type 0 where
  golomb_rice range : EntropyMode

pub data PlaneRole : Type 0 where
  y cb cr alpha r g b : PlaneRole

pub record QuantTableSet : Type 0 where
  pub tables : List (List ℤ)
  pub context_count : ℕ

-- Tables of zeros, with one context; src/mffv1/configuration_parser.cpp defines it.
unfoldable pub make_zero_quant_table_set : QuantTableSet
make_zero_quant_table_set = record {
  tables = replicate 5 (replicate 256 (pos 0));
  context_count = 1;
}

abbrev pub InitialState : Type 0
InitialState = List ℕ

pub record InitialStateSet : Type 0 where
  pub contexts : List InitialState

pub record StreamParameters : Type 0 where
  pub version : ℤ
  pub micro_version : ℤ
  pub entropy_mode : EntropyMode
  pub width : ℕ
  pub height : ℕ
  pub bits_per_raw_sample : ℕ
  pub colorspace_type : ℤ
  pub chroma_planes : Bool
  pub extra_plane : Bool
  pub log2_h_chroma_subsample : ℕ
  pub log2_v_chroma_subsample : ℕ
  pub num_h_slices : ℕ
  pub num_v_slices : ℕ
  pub quant_table_sets : List QuantTableSet
  pub initial_states : List InitialStateSet
  pub state_transition : StateTransitionTable
  pub error_status_enabled : Bool
  pub intra_only : Bool

unfoldable pub is_range : EntropyMode → Bool
is_range EntropyMode.golomb_rice = false
is_range EntropyMode.range = true

unfoldable pub coded_plane_count : StreamParameters → ℕ
coded_plane_count s =
    let with_chroma = if s.chroma_planes then 1 + 2 else 1 in
    if s.extra_plane then with_chroma + 1 else with_chroma

unfoldable pub uses_signed_16bit_predictor : StreamParameters → Bool
unfolding is_range
uses_signed_16bit_predictor s =
    eqb_ℤ s.colorspace_type (pos 0) && s.bits_per_raw_sample == 16 && is_range s.entropy_mode

unfoldable pub subsampled_extent : ℕ → ℕ → ℕ
subsampled_extent value log2_subsample =
    if log2_subsample == 0
    then value
    else if leb 32 log2_subsample
    then if value == 0 then 0 else 1
    else let divisor = 2 ^ log2_subsample in (value + divisor - 1) % 2 ^ 64 / divisor % 2 ^ 32

unfoldable pub is_chroma_plane : StreamParameters → ℕ → Bool
is_chroma_plane s plane_index = s.chroma_planes && (plane_index == 1 || plane_index == 2)

unfoldable pub quant_table_set_index_count : StreamParameters → ℕ
quant_table_set_index_count s =
    1
    + (if s.chroma_planes || leb_ℤ s.version (pos 3) then 1 else 0)
    + (if s.extra_plane then 1 else 0)

unfoldable pub plane_quant_table_set_index_slot : StreamParameters → ℕ → ℕ
unfolding is_chroma_plane
plane_quant_table_set_index_slot s plane_index =
    if plane_index == 0
    then 0
    else if is_chroma_plane s plane_index
    then 1
    else if leb_ℤ s.version (pos 3) || s.chroma_planes
    then 2
    else 1

unfoldable pub plane_width : StreamParameters → ℕ → ℕ
unfolding is_chroma_plane subsampled_extent
plane_width s plane_index =
    if eqb_ℤ s.colorspace_type (pos 0) && is_chroma_plane s plane_index
    then subsampled_extent s.width s.log2_h_chroma_subsample
    else s.width

unfoldable pub plane_height : StreamParameters → ℕ → ℕ
unfolding is_chroma_plane subsampled_extent
plane_height s plane_index =
    if eqb_ℤ s.colorspace_type (pos 0) && is_chroma_plane s plane_index
    then subsampled_extent s.height s.log2_v_chroma_subsample
    else s.height

-- The product is a 64-bit number, the result a 32-bit one.
unfoldable pub scaled_grid_position : ℕ → ℕ → ℕ → ℕ
scaled_grid_position extent grid_count grid_position =
    if grid_count == 0 then 0 else grid_position * extent % 2 ^ 64 / grid_count % 2 ^ 32

unfoldable pub slice_pixel_x : StreamParameters → ℕ → ℕ
slice_pixel_x s slice_x = scaled_grid_position s.width s.num_h_slices slice_x

unfoldable pub slice_pixel_y : StreamParameters → ℕ → ℕ
slice_pixel_y s slice_y = scaled_grid_position s.height s.num_v_slices slice_y

-- The difference of two 32-bit numbers.
unfoldable pub sub_u32 : ℕ → ℕ → ℕ
sub_u32 end start = (end + 2 ^ 32 - start) % 2 ^ 32

unfoldable pub slice_pixel_width : StreamParameters → ℕ → ℕ → ℕ
unfolding sub_u32
slice_pixel_width s slice_x slice_width =
    let slice_end = slice_x + slice_width in
    let pixel_x = scaled_grid_position s.width s.num_h_slices slice_x in
    let pixel_end = scaled_grid_position s.width s.num_h_slices slice_end in
    sub_u32 pixel_end pixel_x

unfoldable pub slice_pixel_height : StreamParameters → ℕ → ℕ → ℕ
unfolding sub_u32
slice_pixel_height s slice_y slice_height =
    let slice_end = slice_y + slice_height in
    let pixel_y = scaled_grid_position s.height s.num_v_slices slice_y in
    let pixel_end = scaled_grid_position s.height s.num_v_slices slice_end in
    sub_u32 pixel_end pixel_y

unfoldable pub expected_plane_role : StreamParameters → ℕ → PlaneRole
expected_plane_role s plane_index =
    if eqb_ℤ s.colorspace_type (pos 1)
    then if plane_index == 0
      then PlaneRole.r
      else if plane_index == 1
      then PlaneRole.g
      else if plane_index == 2
      then PlaneRole.b
      else PlaneRole.alpha
    else if plane_index == 0
    then PlaneRole.y
    else if s.chroma_planes
    then if plane_index == 1
      then PlaneRole.cb
      else if plane_index == 2
      then PlaneRole.cr
      else PlaneRole.alpha
    else PlaneRole.alpha
