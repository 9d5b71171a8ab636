-- ===== src/Syntax/Stream/Compare.antt =====
-- The comparisons of src/mffv1/stream_parameters.hpp.
use mffv.Common.{List, [], ◌∷◌, Bool, true, false, not, ◌&&◌, ◌||◌, ◌==◌, if◌then◌else◌, length}
use mffv.Common.Int.{eqb_ℤ}
use mffv.Syntax.Stream.{InitialStateSet, QuantTableSet, StreamParameters, is_range}

-- `==` of two arrays or vectors, by the `==` of their elements.
unfoldable pub list_eqb : {A : Type 0} → (A → A → Bool) → List A → List A → Bool
list_eqb eqb [] [] = true
list_eqb eqb [] (y ∷ ys) = false
list_eqb eqb (x ∷ xs) [] = false
list_eqb eqb (x ∷ xs) (y ∷ ys) = eqb x y && list_eqb eqb xs ys

abbrev pub bool_eqb : Bool → Bool → Bool
bool_eqb a b = if a then b else not b

unfoldable pub quant_table_sets_equal : QuantTableSet → QuantTableSet → Bool
unfolding list_eqb
quant_table_sets_equal lhs rhs =
    lhs.context_count == rhs.context_count && list_eqb (list_eqb eqb_ℤ) lhs.tables rhs.tables

unfoldable pub initial_state_sets_equal : InitialStateSet → InitialStateSet → Bool
unfolding list_eqb
initial_state_sets_equal lhs rhs = list_eqb (list_eqb ◌==◌) lhs.contexts rhs.contexts

-- The condition of the first return.
unfoldable pub fields_differ : StreamParameters → StreamParameters → Bool
unfolding list_eqb is_range
fields_differ lhs rhs =
    not (eqb_ℤ lhs.version rhs.version)
    || not (eqb_ℤ lhs.micro_version rhs.micro_version)
    || not (bool_eqb (is_range lhs.entropy_mode) (is_range rhs.entropy_mode))
    || not (lhs.width == rhs.width)
    || not (lhs.height == rhs.height)
    || not (lhs.bits_per_raw_sample == rhs.bits_per_raw_sample)
    || not (eqb_ℤ lhs.colorspace_type rhs.colorspace_type)
    || not (bool_eqb lhs.chroma_planes rhs.chroma_planes)
    || not (bool_eqb lhs.extra_plane rhs.extra_plane)
    || not (lhs.log2_h_chroma_subsample == rhs.log2_h_chroma_subsample)
    || not (lhs.log2_v_chroma_subsample == rhs.log2_v_chroma_subsample)
    || not (lhs.num_h_slices == rhs.num_h_slices)
    || not (lhs.num_v_slices == rhs.num_v_slices)
    || not (list_eqb ◌==◌ lhs.state_transition rhs.state_transition)
    || not (bool_eqb lhs.error_status_enabled rhs.error_status_enabled)
    || not (bool_eqb lhs.intra_only rhs.intra_only)
    || not (length lhs.quant_table_sets == length rhs.quant_table_sets)
    || not (length lhs.initial_states == length rhs.initial_states)

-- The two loops, over lists of the same length.
unfoldable pub all_equal : {A : Type 0} → (A → A → Bool) → List A → List A → Bool
all_equal eqb [] ys = true
all_equal eqb (x ∷ xs) [] = true
all_equal eqb (x ∷ xs) (y ∷ ys) = if not (eqb x y) then false else all_equal eqb xs ys

unfoldable pub stream_parameters_equivalent : StreamParameters → StreamParameters → Bool
unfolding fields_differ all_equal quant_table_sets_equal initial_state_sets_equal
stream_parameters_equivalent lhs rhs =
    if fields_differ lhs rhs
    then false
    else if not (all_equal quant_table_sets_equal lhs.quant_table_sets rhs.quant_table_sets)
    then false
    else all_equal initial_state_sets_equal lhs.initial_states rhs.initial_states
