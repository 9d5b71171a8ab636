-- ===== src/Syntax/Stream/Equivalence.antt =====
-- What the comparisons of src/mffv1/stream_parameters.hpp decide.
use mffv.Common.{
  ◌≡◌, refl, sym, arith, List, [], ◌∷◌, Bool, true, false, not, ◌&&◌, ◌||◌, ◌==◌, ==_iff, length,
  ◌↔◌,
}
use mffv.Common.Int.{eqb_ℤ, eq_of_parts}
use mffv.Syntax.Stream.{EntropyMode, StreamParameters, is_range}
use mffv.Syntax.Stream.Compare.{
  all_equal, bool_eqb, fields_differ, initial_state_sets_equal, list_eqb, quant_table_sets_equal,
  stream_parameters_equivalent,
}

-- A test that decides equality.
Decides : {A : Type 0} → (A → A → Bool) → Type 0
Decides {A} eqb = (x y : A) → (eqb x y ≡ true) ↔ (x ≡ y)

ℕ-Decides : Decides ◌==◌
unfolding Decides
ℕ-Decides a b = ==_iff a b

ℤ-Decides : Decides eqb_ℤ
unfolding Decides
ℤ-Decides a b = ((λ h. eq_of_parts a b (ground arith)), (λ h. rw h (ground arith)))

and_left : (a b : Bool) → (a && b) ≡ true → a ≡ true
and_left a b h = ground arith

and_right : (a b : Bool) → (a && b) ≡ true → b ≡ true
and_right a b h = ground arith

list-Decides : {A : Type 0} (eqb : A → A → Bool) → Decides eqb → Decides (list_eqb eqb)
unfolding Decides list_eqb
list-Decides {A} eqb d xs ys = (forth xs ys, λ e. rw (sym e) (back xs))
  where
    forth : (xs ys : List A) → list_eqb eqb xs ys ≡ true → xs ≡ ys
    forth [] [] h = refl
    forth [] (y ∷ ys) h = absurd (ground arith)
    forth (x ∷ xs) [] h = absurd (ground arith)
    forth (x ∷ xs) (y ∷ ys) h =
        let e = (d x y).0 (and_left (eqb x y) (list_eqb eqb xs ys) h) in
        let es = forth xs ys (and_right (eqb x y) (list_eqb eqb xs ys) h) in cc

    back : (xs : List A) → list_eqb eqb xs xs ≡ true
    back [] = refl
    back (x ∷ xs) = rw ((d x x).1 refl) (back xs)

or_left : (p q : Bool) → (p || q) ≡ false → p ≡ false
or_left p q h = ground arith

or_right : (p q : Bool) → (p || q) ≡ false → q ≡ false
or_right p q h = ground arith

bool-Decides : Decides bool_eqb
unfolding Decides
bool-Decides p q = ground arith

abbrev entropy_eqb : EntropyMode → EntropyMode → Bool
entropy_eqb p q = bool_eqb (is_range p) (is_range q)

entropy-Decides : Decides entropy_eqb
unfolding Decides is_range
entropy-Decides EntropyMode.golomb_rice EntropyMode.golomb_rice = ground arith
entropy-Decides EntropyMode.golomb_rice EntropyMode.range = ground arith
entropy-Decides EntropyMode.range EntropyMode.golomb_rice = ground arith
entropy-Decides EntropyMode.range EntropyMode.range = ground arith

-- A negated test that is false.
decided :
    {A : Type 0} (eqb : A → A → Bool) → Decides eqb → (x y : A) → not (eqb x y) ≡ false → x ≡ y
unfolding Decides
decided eqb d x y h = (d x y).0 (ground arith)

not_differ_refl : {A : Type 0} (eqb : A → A → Bool) → Decides eqb → (x : A) → eqb x x ≡ true
unfolding Decides
not_differ_refl eqb d x = (d x x).1 refl

all_equal-lem :
    {A : Type 0} (eqb : A → A → Bool)
    → Decides eqb
    → (xs ys : List A) → length xs ≡ length ys
    → all_equal eqb xs ys ≡ true
    → xs ≡ ys
unfolding Decides all_equal
all_equal-lem eqb d [] [] n h = refl
all_equal-lem eqb d [] (y ∷ ys) n h = absurd (omega arith)
all_equal-lem eqb d (x ∷ xs) [] n h = absurd (omega arith)
all_equal-lem eqb d (x ∷ xs) (y ∷ ys) n h =
    let e = (d x y).0 (ground arith) in
    let es = all_equal-lem eqb d xs ys (omega arith) (ground arith) in cc

-- A chain of conditions but the last, and the last.
chain : (p q : Bool) → (p || q) ≡ false → (p ≡ false) × (q ≡ false)
chain p q h = (or_left p q h, or_right p q h)

-- The two lists agree when their lengths and their elements do; every other field was compared.
equal_of_fields :
    (lhs rhs : StreamParameters)
    → fields_differ lhs rhs ≡ false
    → (length lhs.quant_table_sets ≡ length rhs.quant_table_sets
        → lhs.quant_table_sets ≡ rhs.quant_table_sets)
    → (length lhs.initial_states ≡ length rhs.initial_states
        → lhs.initial_states ≡ rhs.initial_states)
    → lhs ≡ rhs
unfolding fields_differ
equal_of_fields lhs rhs h tables_equal states_equal =
    let (h17, e17) = chain _ _ h in
    let (h16, e16) = chain _ _ h17 in
    let (h15, e15) = chain _ _ h16 in
    let (h14, e14) = chain _ _ h15 in
    let (h13, e13) = chain _ _ h14 in
    let (h12, e12) = chain _ _ h13 in
    let (h11, e11) = chain _ _ h12 in
    let (h10, e10) = chain _ _ h11 in
    let (h9, e9) = chain _ _ h10 in
    let (h8, e8) = chain _ _ h9 in
    let (h7, e7) = chain _ _ h8 in
    let (h6, e6) = chain _ _ h7 in
    let (h5, e5) = chain _ _ h6 in
    let (h4, e4) = chain _ _ h5 in
    let (h3, e3) = chain _ _ h4 in
    let (h2, e2) = chain _ _ h3 in
    let (h1, e1) = chain _ _ h2 in
    let version = decided eqb_ℤ ℤ-Decides lhs.version rhs.version h1 in
    let micro_version = decided eqb_ℤ ℤ-Decides lhs.micro_version rhs.micro_version e1 in
    let entropy_mode = decided entropy_eqb entropy-Decides lhs.entropy_mode rhs.entropy_mode e2 in
    let width = decided ◌==◌ ℕ-Decides lhs.width rhs.width e3 in
    let height = decided ◌==◌ ℕ-Decides lhs.height rhs.height e4 in
    let bits_per_raw_sample =
      decided ◌==◌ ℕ-Decides lhs.bits_per_raw_sample rhs.bits_per_raw_sample e5 in
    let colorspace_type = decided eqb_ℤ ℤ-Decides lhs.colorspace_type rhs.colorspace_type e6 in
    let chroma_planes = decided bool_eqb bool-Decides lhs.chroma_planes rhs.chroma_planes e7 in
    let extra_plane = decided bool_eqb bool-Decides lhs.extra_plane rhs.extra_plane e8 in
    let log2_h_chroma_subsample =
      decided ◌==◌ ℕ-Decides lhs.log2_h_chroma_subsample rhs.log2_h_chroma_subsample e9 in
    let log2_v_chroma_subsample =
      decided ◌==◌ ℕ-Decides lhs.log2_v_chroma_subsample rhs.log2_v_chroma_subsample e10 in
    let num_h_slices = decided ◌==◌ ℕ-Decides lhs.num_h_slices rhs.num_h_slices e11 in
    let num_v_slices = decided ◌==◌ ℕ-Decides lhs.num_v_slices rhs.num_v_slices e12 in
    let state_transition =
      decided (list_eqb ◌==◌) (list-Decides ◌==◌ ℕ-Decides) lhs.state_transition
        rhs.state_transition e13 in
    let error_status_enabled =
      decided bool_eqb bool-Decides lhs.error_status_enabled rhs.error_status_enabled e14 in
    let intra_only = decided bool_eqb bool-Decides lhs.intra_only rhs.intra_only e15 in
    let quant_table_sets =
      decided ◌==◌ ℕ-Decides (length lhs.quant_table_sets) (length rhs.quant_table_sets) e16 in
    let initial_states =
      decided ◌==◌ ℕ-Decides (length lhs.initial_states) (length rhs.initial_states) e17 in
    let q = tables_equal quant_table_sets in
    let t = states_equal initial_states in
    λ i. record {
      version = version i;
      micro_version = micro_version i;
      entropy_mode = entropy_mode i;
      width = width i;
      height = height i;
      bits_per_raw_sample = bits_per_raw_sample i;
      colorspace_type = colorspace_type i;
      chroma_planes = chroma_planes i;
      extra_plane = extra_plane i;
      log2_h_chroma_subsample = log2_h_chroma_subsample i;
      log2_v_chroma_subsample = log2_v_chroma_subsample i;
      num_h_slices = num_h_slices i;
      num_v_slices = num_v_slices i;
      state_transition = state_transition i;
      error_status_enabled = error_status_enabled i;
      intra_only = intra_only i;
      quant_table_sets = q i;
      initial_states = t i;
    }

fields_differ_refl : (s : StreamParameters) → fields_differ s s ≡ false
unfolding fields_differ
fields_differ_refl s =
    rw
      (
        not_differ_refl eqb_ℤ ℤ-Decides s.version,
        not_differ_refl eqb_ℤ ℤ-Decides s.micro_version,
        not_differ_refl eqb_ℤ ℤ-Decides s.colorspace_type,
        not_differ_refl entropy_eqb entropy-Decides s.entropy_mode,
        not_differ_refl (list_eqb ◌==◌) (list-Decides ◌==◌ ℕ-Decides) s.state_transition,
      )
      (ground arith)

all_equal_refl :
    {A : Type 0} (eqb : A → A → Bool) → Decides eqb → (xs : List A) → all_equal eqb xs xs ≡ true
unfolding all_equal
all_equal_refl eqb d [] = refl
all_equal_refl eqb d (x ∷ xs) = rw (not_differ_refl eqb d x) (all_equal_refl eqb d xs)

table_sets-Decides : Decides quant_table_sets_equal
unfolding Decides quant_table_sets_equal
table_sets-Decides lhs rhs =
    let d = list-Decides (list_eqb eqb_ℤ) (list-Decides eqb_ℤ ℤ-Decides) in
    (
      (λ h.
          let count : lhs.context_count ≡ rhs.context_count = ground arith in
          let tables = (d lhs.tables rhs.tables).0 (and_right _ _ h) in
          λ i. record { tables = tables i; context_count = count i }),
      (λ e. rw (e, not_differ_refl _ d rhs.tables) (ground arith)),
    )

state_sets-Decides : Decides initial_state_sets_equal
unfolding Decides initial_state_sets_equal
state_sets-Decides lhs rhs =
    let d = list-Decides (list_eqb ◌==◌) (list-Decides ◌==◌ ℕ-Decides) in
    (
      (λ h.
          let contexts = (d lhs.contexts rhs.contexts).0 h in
          λ i. record { contexts = contexts i }),
      (λ e. rw (e, not_differ_refl _ d rhs.contexts) refl),
    )

-- The comparison of two streams' parameters is true exactly when the two are equal in every field.
pub stream_parameters_equivalent_iff :
    (lhs rhs : StreamParameters) → (stream_parameters_equivalent lhs rhs ≡ true) ↔ (lhs ≡ rhs)
unfolding stream_parameters_equivalent
stream_parameters_equivalent_iff lhs rhs = (
  (λ h.
      equal_of_fields lhs rhs (ground arith)
        (λ n.
          all_equal-lem _ table_sets-Decides lhs.quant_table_sets rhs.quant_table_sets n
            (ground arith))
        (λ n.
          all_equal-lem _ state_sets-Decides lhs.initial_states rhs.initial_states n
            (ground arith))),
  (λ e.
      rw (e, fields_differ_refl rhs, all_equal_refl _ table_sets-Decides rhs.quant_table_sets)
        (all_equal_refl _ state_sets-Decides rhs.initial_states)),
)
