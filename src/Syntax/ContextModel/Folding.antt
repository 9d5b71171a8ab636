-- ===== src/Syntax/ContextModel/Folding.antt =====
-- What src/mffv1/context_model.cpp promises of a context: it is in the range of the table set, and a
-- picture and its negative share it.
use mffv.Common.{
  ℕ, zero, suc, ◌-◌, ◌%◌, ◌≤◌, ◌<◌, ◌≡◌, ◌≢◌, refl, ap, ◌∙◌, arith, List, [], ◌∷◌, true, false, not,
  ◌==◌, get_or, Bool-cases, inl, inr, ◌⊎◌,
}
use mffv.Common.Int.{ℤ, pos, negsuc, pos_part, ltb_ℤ, leb_ℤ, ◌+ℤ◌, ◌-ℤ◌, abs}
use mffv.Common.Bits.{bit_and_mask}
use mffv.Common.Status.{ok, fail, ErrorCode, make_error}
use mffv.Golomb.Context.{to_u64}
use mffv.Syntax.Stream.{QuantTableSet}
use mffv.Syntax.ContextModel.{
  NeighborSamples, ContextDecision, context_input_index, gradients, folded_from, derive_context,
}

abbrev neg : ℤ → ℤ
neg v = pos 0 -ℤ v

-- The samples of the negative picture.
abbrev pub negated : NeighborSamples → NeighborSamples
negated s = record {
  far_left = pos 0 -ℤ s.far_left;
  left = pos 0 -ℤ s.left;
  top = pos 0 -ℤ s.top;
  top_left = pos 0 -ℤ s.top_left;
  top_right = pos 0 -ℤ s.top_right;
  top_top = pos 0 -ℤ s.top_top;
}

-- Tables as the configuration parser mirrors them: apart from the entry 128, which is its own mirror
-- image, the entry of the negated index is the negated entry.
abbrev pub AllMirrored : List (List ℤ) → Type 0
AllMirrored [] = Unit {0}
AllMirrored (table ∷ tables) =
    ((index : ℕ)
      → index < 256
      → index ≢ 128
      → get_or table ((256 - index) % 256) (pos 0) ≡ pos 0 -ℤ get_or table index (pos 0))
    × AllMirrored tables

-- No gradient stands at the entry that has no mirror image.
abbrev pub AllOffCentre : List ℤ → Type 0
AllOffCentre [] = Unit {0}
AllOffCentre (value ∷ values) = (context_input_index value ≢ 128) × AllOffCentre values

pub context_input_index_lem : (v : ℤ) → context_input_index v ≡ to_u64 v % 256
unfolding context_input_index
context_input_index_lem v = bit_and_mask 8 (to_u64 v)

context_input_index-neg :
    (v : ℤ) → context_input_index (neg v) ≡ (256 - context_input_index v) % 256
unfolding ◌-ℤ◌
context_input_index-neg v =
    rw (context_input_index_lem v, context_input_index_lem (neg v)) (mirrored v)
  where
    mirrored : (v : ℤ) → to_u64 (neg v) % 256 ≡ (256 - to_u64 v % 256) % 256
    mirrored (pos zero) = refl
    mirrored (pos (suc n)) = ground arith
    mirrored (negsuc n) = ground arith

abbrev all_negated : List ℤ → List ℤ
all_negated [] = []
all_negated (v ∷ vs) = neg v ∷ all_negated vs

neg-sub : (a b : ℤ) → neg a -ℤ neg b ≡ neg (a -ℤ b)
unfolding ◌-ℤ◌
neg-sub a b = ground arith

neg-add : (a b : ℤ) → neg a +ℤ neg b ≡ neg (a +ℤ b)
unfolding ◌-ℤ◌ ◌+ℤ◌
neg-add a b = ground arith

gradients-negated : (s : NeighborSamples) → gradients (negated s) ≡ all_negated (gradients s)
unfolding gradients
gradients-negated s =
    rw
      (
        neg-sub s.left s.top_left,
        neg-sub s.top_left s.top,
        neg-sub s.top s.top_right,
        neg-sub s.far_left s.left,
        neg-sub s.top_top s.top,
      )
      refl

folded_from-negated :
    (tables : List (List ℤ)) (values : List ℤ) (folded : ℤ)
    → AllMirrored tables
    → AllOffCentre values
    → folded_from (neg folded) tables (all_negated values) ≡ neg (folded_from folded tables values)
unfolding folded_from
folded_from-negated tables [] folded h off = refl
folded_from-negated [] (v ∷ vs) folded h off = refl
folded_from-negated (table ∷ tables) (v ∷ vs) folded h off =
    let entry = get_or table (context_input_index v) (pos 0) in
    let small : context_input_index v < 256 = omega (arith, context_input_index_lem v) in
    let mirrored =
      ap (λ (i : ℕ). get_or table i (pos 0)) (context_input_index-neg v)
      ∙ h.0 (context_input_index v) small off.0 in
    let next = ap (λ (e : ℤ). neg folded +ℤ e) mirrored ∙ neg-add folded entry in
    ap (λ (e : ℤ). folded_from e tables (all_negated vs)) next
    ∙ folded_from-negated tables vs (folded +ℤ entry) h.1 off.1

-- The sum that decides, and the flag and the context that are read off it.
abbrev pub folded_gradients : QuantTableSet → NeighborSamples → ℤ
folded_gradients quant_tables samples = folded_from (pos 0) quant_tables.tables (gradients samples)

abbrev pub decision_of : ℤ → ContextDecision
decision_of folded = record {
  context = pos_part (abs folded);
  invert_difference = ltb_ℤ folded (pos 0);
}

in_range :
    (count : ℕ) (v : ℤ) → (count == 0) ≡ false → leb_ℤ (pos count) v ≡ false → pos_part v < count
in_range count v some h = ground arith

out_of_range : (count : ℕ) (v : ℤ) → leb_ℤ (pos count) v ≡ true → count ≤ pos_part v
out_of_range count v h = ground arith

-- On either side of the number of contexts.
pub derive_context_cases :
    (quant_tables : QuantTableSet) (samples : NeighborSamples) (decision : ContextDecision)
    → ((pos_part (abs (folded_gradients quant_tables samples)) < quant_tables.context_count)
        × (derive_context quant_tables samples decision
            ≡ ok tt (decision_of (folded_gradients quant_tables samples))))
      ⊎ ((quant_tables.context_count ≤ pos_part (abs (folded_gradients quant_tables samples)))
          × (kept : ContextDecision) × (derive_context quant_tables samples decision
              ≡ fail (make_error ErrorCode.invalid_state) kept)
          × (kept.context ≡ decision.context))
unfolding derive_context abs
derive_context_cases quant_tables samples decision =
    let count = quant_tables.context_count in
    let folded = folded_gradients quant_tables samples in
    elim (Bool-cases (count == 0)) [
      | inl none_given ↦ inr (ground (arith, none_given), decision, rw none_given refl, refl)
      | inr some_given ↦ elim (Bool-cases (ltb_ℤ folded (pos 0))) [
        | inl below ↦ elim (Bool-cases (leb_ℤ (pos count) (pos 0 -ℤ folded))) [
          | inl past ↦
              rw (some_given, below, past)
                (inr (out_of_range count (pos 0 -ℤ folded) past, _, refl, refl))
          | inr inside ↦
              rw (some_given, below, inside)
                (inl (in_range count (pos 0 -ℤ folded) some_given inside, refl))
        ]
        | inr not_below ↦ elim (Bool-cases (leb_ℤ (pos count) folded)) [
          | inl past ↦
              rw (some_given, not_below, past) (inr (out_of_range count folded past, _, refl, refl))
          | inr inside ↦
              rw (some_given, not_below, inside)
                (inl (in_range count folded some_given inside, refl))
        ]
      ]
    ]

folded_gradients-negated :
    (quant_tables : QuantTableSet) (samples : NeighborSamples)
    → AllMirrored quant_tables.tables
    → AllOffCentre (gradients samples)
    → folded_gradients quant_tables (negated samples) ≡ neg (folded_gradients quant_tables samples)
unfolding folded_from ◌-ℤ◌
folded_gradients-negated quant_tables samples h off =
    ap (folded_from (pos 0) quant_tables.tables) (gradients-negated samples)
    ∙ folded_from-negated quant_tables.tables (gradients samples) (pos 0) h off

abs-neg : (v : ℤ) → pos_part (abs (neg v)) ≡ pos_part (abs v)
unfolding abs ◌-ℤ◌
abs-neg v = ground arith

flag-neg : (v : ℤ) → v ≢ pos 0 → ltb_ℤ (neg v) (pos 0) ≡ not (ltb_ℤ v (pos 0))
unfolding ◌-ℤ◌
flag-neg (pos zero) h = absurd (h refl)
flag-neg (pos (suc n)) h = ground arith
flag-neg (negsuc n) h = ground arith

-- With tables that mirror every entry but 128, no gradient at that entry and a sum that is not 0
-- and has a context, the samples of the negative picture have the same context and the opposite
-- flag.
pub derive_context-negated :
    (quant_tables : QuantTableSet) (samples : NeighborSamples) (decision : ContextDecision)
    → AllMirrored quant_tables.tables
    → AllOffCentre (gradients samples)
    → folded_gradients quant_tables samples ≢ pos 0
    → pos_part (abs (folded_gradients quant_tables samples)) < quant_tables.context_count
    → (found : ContextDecision) × (derive_context quant_tables samples decision ≡ ok tt found)
      × (derive_context quant_tables (negated samples) decision
          ≡ ok tt (record found { invert_difference = not found.invert_difference }))
derive_context-negated quant_tables samples decision mirrored off some inside =
    let folded = folded_gradients quant_tables samples in
    let other = folded_gradients-negated quant_tables samples mirrored off in
    let same = abs-neg folded in
    let flag = flag-neg folded some in
    (
      decision_of folded,
      decided samples inside,
      decided (negated samples) (rw (other, same) inside)
          ∙ ap (λ (d : ContextDecision). ok tt d)
              (ap decision_of other
                ∙ (λ i. record { context = same i; invert_difference = flag i })),
    )
  where
    decided :
        (s : NeighborSamples)
        → pos_part (abs (folded_gradients quant_tables s)) < quant_tables.context_count
        → derive_context quant_tables s decision
          ≡ ok tt (decision_of (folded_gradients quant_tables s))
    decided s h = elim (derive_context_cases quant_tables s decision) [
      | inl (fits, e) ↦ e
      | inr (past, _, _, _) ↦ absurd (omega (arith, past, h))
    ]
