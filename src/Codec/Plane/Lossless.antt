-- ===== src/Codec/Plane/Lossless.antt =====
-- Whole planes: what src/codec/slice_encoder.cpp writes of a plane, src/codec/slice_decoder.cpp reads
-- back.
use mffv.Common.{
  ℕ, suc, ◌+◌, ◌-◌, ◌*◌, ◌^◌, ◌≤◌, ◌<◌, ◌≡◌, refl, ap, sym, ◌∙◌, arith, List, [], ◌∷◌, leb,
  Bool-cases, inl, inr, length, set, length-replicate,
}
use mffv.Common.Int.{ℤ, pos}
use mffv.Common.Status.{return, >>=-return}
use mffv.Range.Codes.{Codes, Codes-return, Codes->>=, Codes-of}
use mffv.Codec.Plane.{
  LineState, PlaneCoding, decode_plane, decode_range_line, encode_plane, encode_row, set_current,
  stored_row, stored_sample, swap_lines,
}
use mffv.Codec.Plane.Samples.{AllBelow, Covers, row_coded, with_row}
use native.Mathlib.Nat.{pow-le-pow_right}

-- Every row has the width, and every sample is below the bound.
abbrev pub AllRows : ℕ → ℕ → List (List ℕ) → Type 0
AllRows width bound [] = Unit {0}
AllRows width bound (row ∷ rows) =
    (length row ≡ width) × AllBelow bound row × AllRows width bound rows

-- Both lines that the next rows are written on have the width.
pub record IsLine (width : ℕ) (line : LineState) : Type 0 where
  pub wide_previous : length line.previous ≡ width
  pub wide_current : length line.current ≡ width

abbrev all_pos : List ℕ → List ℤ
all_pos [] = []
all_pos (n ∷ ns) = pos n ∷ all_pos ns

-- The rows of a plane, as the line that they leave.
abbrev pub after_rows : PlaneCoding → LineState → List (List ℕ) → LineState
after_rows p line [] = line
after_rows p line (row ∷ rows) = after_rows p (swap_lines (with_row line 0 row)) rows

set_all : List ℤ → ℕ → List ℕ → List ℤ
set_all vs x [] = vs
set_all vs x (n ∷ ns) = set_all (set vs x (pos n)) (x + 1) ns

with_row_lem :
    (line : LineState) (x : ℕ) (row : List ℕ)
    → with_row line x row ≡ record line { current = set_all line.current x row }
unfolding set_all set_current
with_row_lem line x [] = refl
with_row_lem line x (n ∷ ns) = with_row_lem (set_current line x (pos n)) (x + 1) ns

set_all_cons :
    (v : ℤ) (vs : List ℤ) (x : ℕ) (row : List ℕ)
    → set_all (v ∷ vs) (suc x) row ≡ v ∷ set_all vs x row
unfolding set_all
set_all_cons v vs x [] = refl
set_all_cons v vs x (n ∷ ns) =
    let e : suc x + 1 ≡ suc (x + 1) = omega arith in
    rw e (set_all_cons v (set vs x (pos n)) (x + 1) ns)

set_all_whole :
    (vs : List ℤ) (row : List ℕ) → length vs ≡ length row → set_all vs 0 row ≡ all_pos row
unfolding set_all
set_all_whole [] [] h = refl
set_all_whole [] (n ∷ ns) h = absurd (omega arith)
set_all_whole (v ∷ vs) [] h = absurd (omega arith)
set_all_whole (v ∷ vs) (n ∷ ns) h =
    set_all_cons (pos n) vs 0 ns ∙ ap (◌∷◌ (pos n)) (set_all_whole vs ns (omega arith))

stored_sample_lem : (bits n : ℕ) → bits ≤ 16 → n < 2 ^ bits → stored_sample bits (pos n) ≡ n
unfolding stored_sample
stored_sample_lem bits n h h' = elim (Bool-cases (leb bits 8)) [
  | inl small ↦
      let le : 2 ^ bits ≤ 2 ^ 8 =
        pow-le-pow_right {n = 2} (omega arith) {j = 8} (ground (arith, small)) in
      rw small (omega (arith, le))
  | inr large ↦
      let le : 2 ^ bits ≤ 2 ^ 16 = pow-le-pow_right {n = 2} (omega arith) {j = 16} (omega arith) in
      rw large (omega (arith, le))
]

stored_row_lem :
    (bits : ℕ) (row : List ℕ)
    → bits ≤ 16
    → AllBelow (2 ^ bits) row
    → stored_row bits (length row) (all_pos row) ≡ row
unfolding stored_row
stored_row_lem bits [] h below = refl
stored_row_lem bits (n ∷ ns) h below =
    rw (stored_sample_lem bits n h below.0) (ap (◌∷◌ n) (stored_row_lem bits ns h below.1))

-- The current line after a row is the row.
current_lem :
    (width : ℕ) (line : LineState) (row : List ℕ)
    → IsLine width line
    → length row ≡ width
    → (with_row line 0 row).current ≡ all_pos row
current_lem width line row h e =
    ap (λ (l : LineState). l.current) (with_row_lem line 0 row)
    ∙ set_all_whole line.current row (h.wide_current ∙ sym e)

length-all_pos : (row : List ℕ) → length (all_pos row) ≡ length row
length-all_pos [] = refl
length-all_pos (n ∷ ns) = ap suc (length-all_pos ns)

swap_lines-IsLine :
    (width : ℕ) (line : LineState) (row : List ℕ)
    → IsLine width line
    → length row ≡ width
    → IsLine width (swap_lines (with_row line 0 row))
unfolding swap_lines
swap_lines-IsLine width line row h e =
    let same : (with_row line 0 row).previous ≡ line.previous =
      ap (λ (l : LineState). l.previous) (with_row_lem line 0 row) in
    record {
      wide_previous = ap length (current_lem width line row h e) ∙ length-all_pos row ∙ e;
      wide_current =
          length-replicate (length (with_row line 0 row).previous)
            (with_row line 0 row).border_value
          ∙ ap length same
          ∙ h.wide_previous;
    }

-- When every neighbourhood has a context in the table set, rows of one width whose samples fit 1
-- to 16 bits are encoded on lines of that width without a failure whenever the encoder is ready,
-- has the bank and its contexts and has 127 bytes of room for each sample, and a decoder in step
-- reads the same rows, ends with the same line and stays in step.
pub decode_plane-encode_plane :
    (p : PlaneCoding) (base_offset width : ℕ) (rows : List (List ℕ)) (line : LineState)
    → Covers p.quant_tables
    → 0 < p.bits
    → p.bits ≤ 16
    → AllRows width (2 ^ p.bits) rows
    → IsLine width line
    → Codes p.context_bank
        (p.quant_tables.context_count - 1)
        (encode_plane p rows line)
        (after_rows p line rows)
        (decode_plane p base_offset width (length rows) line)
        (rows, after_rows p line rows)
        (127 * width * length rows)
unfolding encode_plane decode_plane
decode_plane-encode_plane p base width [] line covers some few h wide =
    Codes-of (omega arith) (λ e. refl) (λ c. refl) (Codes-return line ([], line))
decode_plane-encode_plane p base width (row ∷ rows) line covers some few h wide =
    let coded = with_row line 0 row in
    let more = 127 * width * length rows in
    let last = after_rows p (swap_lines coded) rows in
    let rest =
      decode_plane-encode_plane p base width rows (swap_lines coded) covers some few h.2
        (swap_lines-IsLine width line row wide h.0) in
    let stored : stored_row p.bits width coded.current ≡ row =
      rw (current_lem width line row wide h.0, ← h.0) (stored_row_lem p.bits row few h.1) in
    Codes-of {n = 127 * length row + (more + 0)} (omega (arith, h.0, wide)) (λ e. refl) (λ c. refl)
      (Codes->>= (encode_row p row 0 line) (λ l. encode_plane p rows (swap_lines l))
        (decode_range_line p base width 0 line) _ (127 * length row) (more + 0)
        (rw (← h.0) (row_coded p base covers some (omega (arith, few)) row 0 line h.1))
        (Codes-of {n = more + 0} (omega arith)
          (λ e. >>=-return (encode_plane p rows (swap_lines coded)) e) (λ c. refl)
          (Codes->>= (encode_plane p rows (swap_lines coded)) return
            (decode_plane p base width (length rows) (swap_lines coded))
            (λ (found : List (List ℕ) × LineState).
              return (stored_row p.bits width coded.current ∷ found.0, found.1))
            more 0 rest (rw stored (Codes-return last (row ∷ rows, last))))))
