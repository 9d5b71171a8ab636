-- ===== src/Codec/Plane/Samples.antt =====
-- One sample, and one row, of a plane through the range coder.
use mffv.Common.{
  ℕ, zero, suc, ◌+◌, ◌-◌, ◌*◌, ◌^◌, ◌≤◌, ◌<◌, ◌≡◌, refl, ap, arith, List, [], ◌∷◌, Bool, true,
  false, ◌||◌, ltb, ◌==◌, leb, inl, inr, length,
}
use mffv.Common.Int.{ℤ, pos, negsuc, pos_part, neg_part, ltb_ℤ, ◌-ℤ◌, abs}
use mffv.Common.Int32.{wrap_int32}
use mffv.Common.Status.{Outcome, ok, fail, return}
use mffv.Syntax.Stream.{QuantTableSet}
use mffv.Syntax.Predictor.{difference}
use mffv.Syntax.Predictor.Lossless.{reconstructed_lem, wrap_sample_difference-InRange}
use mffv.Syntax.ContextModel.{NeighborSamples, ContextDecision, derive_context}
use mffv.Syntax.ContextModel.Folding.{derive_context_cases, folded_gradients, decision_of}
use mffv.Golomb.SignExtend.{InRange}
use mffv.Range.Coder.{Action}
use mffv.Range.Encoder.{EncoderAction}
use mffv.Range.Read.{read_signed}
use mffv.Range.Write.{write_signed}
use mffv.Range.Codes.{Codes, Codes-return, Codes->>=, Codes-of}
use mffv.Range.RoundTrip.{write_signed-Codes}
use mffv.Codec.Plane.{
  LineState, PlaneCoding, decode_range_line, decode_sample, encode_row, encode_sample, negate_if,
  neighbors, no_decision, predict, relocated, set_current, with_context,
}
use native.Mathlib.Nat.{pow-le-pow_right}

-- Every sample is below the bound.
abbrev pub AllBelow : ℕ → List ℕ → Type 0
AllBelow bound [] = Unit {0}
AllBelow bound (sample ∷ samples) = (sample < bound) × AllBelow bound samples

-- Whatever the neighbours are, the tables give a context of the set.
abbrev pub Covers : QuantTableSet → Type 0
Covers quant_tables =
    (n : NeighborSamples)
    → pos_part (abs (folded_gradients quant_tables n)) < quant_tables.context_count

derived :
    (quant_tables : QuantTableSet) (n : NeighborSamples)
    → Covers quant_tables
    → derive_context quant_tables n no_decision
      ≡ ok tt (decision_of (folded_gradients quant_tables n))
derived quant_tables n h = elim (derive_context_cases quant_tables n no_decision) [
  | inl (_, e) ↦ e
  | inr (past, _, _, _) ↦ absurd (omega (arith, past, h n))
]

negate_if_twice : (invert : Bool) (d : ℤ) → negate_if invert (negate_if invert d) ≡ d
unfolding ◌-ℤ◌
negate_if_twice true d = ground arith
negate_if_twice false d = refl

negate_if_bounds :
    (invert : Bool) (d : ℤ) (n : ℕ)
    → pos_part d ≤ n
    → neg_part d ≤ n
    → (pos_part (negate_if invert d) ≤ n) × (neg_part (negate_if invert d) ≤ n)
unfolding ◌-ℤ◌
negate_if_bounds true d n h k = (ground arith, ground arith)
negate_if_bounds false d n h k = (h, k)

-- A difference of at most 17 bits is small.
difference_bounds :
    (sample prediction : ℤ) (bits : ℕ)
    → 0 < bits
    → bits ≤ 17
    → (pos_part (difference sample prediction bits) ≤ 2 ^ 16)
      × (neg_part (difference sample prediction bits) ≤ 2 ^ 16)
unfolding difference
difference_bounds sample prediction zero h h' = absurd (omega arith)
difference_bounds sample prediction (suc b) h h' =
    let plain : (suc b == 0 || leb 31 (suc b)) ≡ false = ground arith in
    let half : 2 ^ b ≤ 2 ^ 16 = pow-le-pow_right {n = 2} (omega arith) {j = 16} (omega arith) in
    rw plain (
      in_range (2 ^ b) _ half
        (wrap_sample_difference-InRange (wrap_int32 (sample -ℤ prediction)) b (omega arith)))
  where
    in_range :
        (n : ℕ) (v : ℤ) → n ≤ 2 ^ 16 → InRange n v → (pos_part v ≤ 2 ^ 16) × (neg_part v ≤ 2 ^ 16)
    in_range n (pos m) le h = (omega arith, omega arith)
    in_range n (negsuc m) le h = (omega arith, omega arith)

-- A program for one context is one for a bank with more contexts.
Codes-more :
    {A B : Type 0} {bank context more : ℕ} (w : EncoderAction A) (r : Action B) {a : A} {b : B}
    {n : ℕ}
    → context ≤ more
    → Codes bank context w a r b n
    → Codes bank more w a r b n
Codes-more w r le h e ready b c room = h e ready b (omega (arith, le, c)) room

relocated-Codes :
    {A B : Type 0} {bank context : ℕ} (base : ℕ) (w : EncoderAction A) (r : Action B) {a : A}
    {b : B} {n : ℕ}
    → Codes bank context w a r b n
    → Codes bank context w a (relocated base r) b n
unfolding relocated
relocated-Codes base w r h e ready b c room =
    let (e', done, p) = h e ready b c room in
    (
      e',
      done,
      record {
        is_ready = p.is_ready;
        longer = p.longer;
        grown = p.grown;
        same_limit = p.same_limit;
        same_sizes = p.same_sizes;
        same_snapshots = p.same_snapshots;
        same_flags = p.same_flags;
        hits = p.hits;
        reads = λ payload c bytes hits step.
            let (c', read, step', kept) = p.reads payload c bytes hits step in
            (c', rw (relocated, read) refl, step', kept);
      },
    )

-- The context that the tables give is handed on.
with_context_lem :
    {S A : Type 0} (p : PlaneCoding) (line : LineState) (x : ℕ)
    (k : ℤ → ContextDecision → S → Outcome S A) (s : S)
    → Covers p.quant_tables
    → with_context p line x k s
      ≡ k
          (predict p.use_signed_16bit_prediction (neighbors line x))
          (decision_of (folded_gradients p.quant_tables (neighbors line x)))
          s
unfolding with_context
with_context_lem {S} {A} p line x k s covers =
    ap (λ (o : Outcome ContextDecision (Unit {0})). chosen o)
      (derived p.quant_tables (neighbors line x) covers)
  where
    chosen : Outcome ContextDecision (Unit {0}) → Outcome S A
    chosen o = elim o [
      | ok _ decision ↦ k (predict p.use_signed_16bit_prediction (neighbors line x)) decision s
      | fail status _ ↦ fail status s
    ]

-- The line with a row of samples in it, from a position on.
abbrev pub with_row : LineState → ℕ → List ℕ → LineState
with_row line x [] = line
with_row line x (sample ∷ samples) = with_row (set_current line x (pos sample)) (x + 1) samples

module _ (p : PlaneCoding) (base : ℕ) (covers : Covers p.quant_tables) (some_bits : 0 < p.bits)
    (few_bits : p.bits ≤ 17) where
  -- A sample is written with the context and the prediction that the decoder finds as well.
  sample_coded :
      (sample : ℕ) (line : LineState) (x : ℕ)
      → sample < 2 ^ p.bits
      → Codes p.context_bank
          (p.quant_tables.context_count - 1)
          (encode_sample p (pos sample) line x)
          (set_current line x (pos sample))
          (decode_sample p base line x)
          (set_current line x (pos sample))
          127
  unfolding encode_sample decode_sample
  sample_coded sample line x h =
      let n = neighbors line x in
      let decision = decision_of (folded_gradients p.quant_tables n) in
      let prediction = predict p.use_signed_16bit_prediction n in
      let d = difference (pos sample) prediction p.bits in
      let (low, high) = difference_bounds (pos sample) prediction p.bits some_bits few_bits in
      let (low', high') = negate_if_bounds decision.invert_difference d (2 ^ 16) low high in
      let back = negate_if_twice decision.invert_difference d in
      let inside : (ltb_ℤ d (negsuc (2 ^ 31 - 1)) || ltb_ℤ (pos (2 ^ 31 - 1)) d) ≡ false =
        ground (arith, low, high) in
      let exact = reconstructed_lem prediction sample p.bits (omega arith) (omega arith) h in
      let written =
        write_signed-Codes p.context_bank decision.context (negate_if decision.invert_difference d)
          (omega (arith, low')) (omega (arith, high')) in
      let last : decision.context ≤ p.quant_tables.context_count - 1 = omega (arith, covers n) in
      let reads =
        relocated-Codes base
          (write_signed p.context_bank decision.context (negate_if decision.invert_difference d))
          (read_signed p.context_bank decision.context) (Codes-more _ _ last written) in
      Codes-of {n = 127 + 0} (omega arith) (λ e. with_context_lem p line x _ e covers)
        (λ c. with_context_lem p line x _ c covers)
        (Codes->>=
          (write_signed p.context_bank decision.context (negate_if decision.invert_difference d))
          (λ _. return (set_current line x (pos sample)))
          (relocated base (read_signed p.context_bank decision.context)) _ 127 0 reads
          (rw (back, inside, exact)
            (Codes-return (set_current line x (pos sample)) (set_current line x (pos sample)))))

  pub row_coded :
      (samples : List ℕ) (x : ℕ) (line : LineState)
      → AllBelow (2 ^ p.bits) samples
      → Codes p.context_bank
          (p.quant_tables.context_count - 1)
          (encode_row p samples x line)
          (with_row line x samples)
          (decode_range_line p base (length samples) x line)
          (with_row line x samples)
          (127 * length samples)
  unfolding encode_row decode_range_line
  row_coded [] x line h = Codes-return line line
  row_coded (sample ∷ samples) x line h =
      let allowed : ltb (2 ^ p.bits - 1) sample ≡ false = ground (arith, h.0) in
      Codes-of {n = 127 + 127 * length samples} (omega arith) (λ e. rw allowed refl) (λ c. refl)
        (Codes->>= (encode_sample p (pos sample) line x) (encode_row p samples (x + 1))
          (decode_sample p base line x) (decode_range_line p base (length samples) (x + 1)) 127
          (127 * length samples) (sample_coded sample line x h.0)
          (row_coded samples (x + 1) (set_current line x (pos sample)) h.1))
