-- ===== src/Golomb/Run/Bounds.antt =====
-- The bounds that src/entropy/golomb_rice_run.cpp keeps.
use mffv.Common.{
  ℕ, ◌+◌, ◌-◌, ◌^◌, ◌≤◌, ◌<◌, ◌≡◌, refl, arith, leb, ltb, ◌==◌, Bool-cases, inl, inr, get_or,
  ==_iff,
}
use mffv.Common.Status.{Outcome, ok, fail, ◌>>=◌}
use mathlib.Core.Path.{subst}
use mffv.Bitstream.Reader.{BitReader, read_bit, read_bits}
use mffv.Golomb.Run.{
  GolombRiceRunState, RunRead, full_segment, interrupted_segment, log2_run, log2_run_size,
  pending_segment, read_golomb_rice_run_segment, step_back,
}

-- The segment stays in the row, the index in the table, and only a run that reaches the end of the
-- row leaves samples pending.
pub record IsInRow (row_remaining : ℕ) (n : RunRead) : Type 0 where
  pub inside : n.segment.count ≤ row_remaining
  pub in_table : n.state.run_index < log2_run_size
  pub pending_at_end : 0 < n.state.pending_count → n.segment.count ≡ row_remaining

-- What a success has.
abbrev OnOk : {S A : Type 0} → (A → Type 0) → Outcome S A → Type 0
OnOk P (ok a s) = P a
OnOk P (fail e s) = Unit {0}

OnOk->>= :
    {S A B : Type 0} (P : B → Type 0) (m : S → Outcome S A) (f : A → S → Outcome S B) (s : S)
    → ((a : A) (t : S) → OnOk P (f a t))
    → OnOk P ((m >>= f) s)
OnOk->>= {S} {A} {B} P m f s h = by_result (m s)
  where
    by_result : (o : Outcome S A) → OnOk P (((λ (_ : S). o) >>= f) s)
    by_result (ok a t) = h a t
    by_result (fail e t) = tt

module _ (state : GolombRiceRunState) (row_remaining : ℕ)
    (h : state.run_index < log2_run_size) where
  full_segment-IsInRow :
      (r : BitReader)
      → state.pending_count ≡ 0
      → OnOk (IsInRow row_remaining) (full_segment state row_remaining r)
  unfolding full_segment
  full_segment-IsInRow r none_pending =
      elim (Bool-cases (leb (2 ^ get_or log2_run state.run_index 0) row_remaining)) [
        | inl whole ↦ elim (Bool-cases (leb log2_run_size (state.run_index + 1))) [
          | inl last ↦ rw (whole, last) tt
          | inr more ↦
              rw (whole, more)
                (record {
                  inside = ground (arith, whole);
                  in_table = ground (arith, more);
                  pending_at_end = λ p. absurd (omega (arith, p, none_pending));
                })
        ]
        | inr past ↦
            rw past (record { inside = omega arith; in_table = h; pending_at_end = λ p. refl })
      ]

  step_back-lt : step_back state.run_index < log2_run_size
  unfolding step_back
  step_back-lt = ground (arith, h)

  interrupted_segment-IsInRow :
      (remainder : ℕ) (r : BitReader)
      → state.pending_count ≡ 0
      → OnOk (IsInRow row_remaining) (interrupted_segment state row_remaining remainder r)
  unfolding interrupted_segment
  interrupted_segment-IsInRow remainder r none_pending =
      elim (Bool-cases (ltb row_remaining remainder)) [
        | inl long ↦
            rw long
              (record { inside = omega arith; in_table = step_back-lt; pending_at_end = λ p. refl })
        | inr short ↦ rw short (record {
          inside = ground (arith, short);
          in_table = step_back-lt;
          pending_at_end = λ p. absurd (omega (arith, p, none_pending));
        })
      ]

  pending_segment-IsInRow :
      (r : BitReader) → OnOk (IsInRow row_remaining) (pending_segment state row_remaining r)
  unfolding pending_segment
  pending_segment-IsInRow r = record {
    inside = omega arith;
    in_table = h;
    pending_at_end = λ p. omega (arith, p);
  }

segment-IsInRow :
    (state : GolombRiceRunState) (x width : ℕ) (r : BitReader)
    → OnOk (IsInRow (width - x)) (read_golomb_rice_run_segment state x width r)
unfolding read_golomb_rice_run_segment
segment-IsInRow state x width r = elim (Bool-cases (leb log2_run_size state.run_index)) [
  | inl bad ↦ rw bad tt
  | inr good ↦
      let h : state.run_index < log2_run_size = ground (arith, good) in
      elim (Bool-cases (ltb width x)) [
        | inl outside ↦ rw (good, outside) tt
        | inr inside ↦ elim (Bool-cases (state.pending_count == 0)) [
          | inr some_pending ↦
              rw (good, inside, some_pending) (pending_segment-IsInRow state (width - x) h r)
          | inl none_pending ↦
              let none = (==_iff state.pending_count 0).0 none_pending in
              rw (good, inside, none_pending)
                (OnOk->>= (IsInRow (width - x)) read_bit _ r (λ prefix r'.
                  elim (Bool-cases (prefix == 0)) [
                    | inl zero_bit ↦ rw zero_bit (
                        OnOk->>= (IsInRow (width - x))
                          (read_bits (get_or log2_run state.run_index 0))
                          (interrupted_segment state (width - x)) r'
                          (λ remainder r''.
                            interrupted_segment-IsInRow state (width - x) h remainder r'' none))
                    | inr one_bit ↦ rw one_bit (full_segment-IsInRow state (width - x) h r' none)
                  ]))
        ]
      ]
]

-- When a run segment is read without a failure, it lies inside the row, the run index stays inside
-- the table, and samples stay pending only where the segment reaches the end of the row.
pub read_golomb_rice_run_segment-IsInRow :
    (state : GolombRiceRunState) (x width : ℕ) (r r' : BitReader) (n : RunRead)
    → read_golomb_rice_run_segment state x width r ≡ ok n r'
    → IsInRow (width - x) n
read_golomb_rice_run_segment-IsInRow state x width r r' n e =
    subst (OnOk (IsInRow (width - x))) e (segment-IsInRow state x width r)
