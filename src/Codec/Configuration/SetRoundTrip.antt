-- ===== src/Codec/Configuration/SetRoundTrip.antt =====
-- A quantization table set through a channel of symbols.
use mffv.Common.{
  ℕ, ◌+◌, ◌*◌, ◌/◌, ◌%◌, ◌^◌, ◌≤◌, ◌≡◌, refl, ◌∙◌, sym, arith, List, [], ◌∷◌, true, false, not, ltb,
  ◌==◌, if◌then◌else◌, length,
}
use mffv.Common.Int.{ℤ}
use mffv.Common.Status.{ErrorCode, return, >>=-return}
use mffv.Codec.Symbols.{SymbolReader, SymbolWriter, Channel}
use mffv.Codec.Symbols.Steps.{reader_passes, writer_passes}
use mffv.Codec.Configuration.Contexts.{Nested}
use mffv.Codec.Configuration.Mirror.{mirrored-is_mirrored, take-mirrored}
use mffv.Codec.Configuration.Tables.{
  is_mirrored, mirrored, parse_quant_table, parse_quant_table_set, parse_runs, parse_tables,
  read_in_contexts, write_in_contexts, write_quant_table, write_quant_table_set, write_runs,
  write_tables,
}
use mffv.Codec.Configuration.Runs.{
  staircase, run_total, length-staircase_total, length-le-run_total, next_scale, last_scale,
  tables_of, set_of, AllFull, IsCodable, next_scale-le, last_scale-le, no_scale_overflow,
}
use mffv.Codec.Configuration.TableRoundTrip.{runs_coded}
use native.Mathlib.Nat.{le_trans, mul-le-mul}
use mathlib.Core.Path.{subst}

module _ {W R : Type 0} {writer : SymbolWriter W} {reader : SymbolReader R}
    (inner outer : Channel writer reader) (nested : Nested inner outer) where
  table_coded :
      (scale : ℕ) (lens : List ℕ)
      → 1 ≤ scale
      → scale ≤ 65536
      → run_total lens ≡ 128
      → inner.Codes
          (write_quant_table writer scale (mirrored (staircase scale 0 lens)))
          (length lens)
          (parse_quant_table reader scale)
          (mirrored (staircase scale 0 lens), length lens)
          (127 * length lens)
  unfolding write_quant_table parse_quant_table
  table_coded scale lens positive small full =
      let half = staircase scale 0 lens in
      let size : length half ≡ 128 = length-staircase_total scale 0 lens ∙ full in
      let short = length-le-run_total lens in
      let good : not (is_mirrored (mirrored half)) ≡ false =
        rw (mirrored-is_mirrored half size) refl in
      let fits : scale * length lens ≤ 65536 * 128 =
        mul-le-mul {m₂ = 128} small (omega (arith, short, full)) in
      let none : 0 + length lens ≡ length lens = omega arith in
      let coded =
        runs_coded inner scale 0 128 (2 ^ 31) [] lens positive (omega (arith, size))
          (omega (arith, short, full)) (omega (arith, short, full))
          (rw none (omega (arith, fits))) in
      writer_passes inner ErrorCode.invalid_state (not (is_mirrored (mirrored half))) good (
        subst
          (λ (entries : List ℤ).
            inner.Codes (write_runs writer 128 scale 0 entries) (length lens)
              (parse_quant_table reader scale) (mirrored half, length lens) (127 * length lens))
          (sym (take-mirrored half size))
          (inner.respects {n = 127 * length lens + 0} (omega arith)
            (λ e. >>=-return (write_runs writer 128 scale 0 half) e) (λ c. refl)
            (inner.composes (write_runs writer 128 scale 0 half) return
              (parse_runs reader (2 ^ 31) scale 0 [])
              (λ (entries, count). return (mirrored entries, count)) (127 * length lens) 0
              (rw none at coded) (inner.returns (length lens) (mirrored half, length lens)))))

  tables_coded :
      (scale : ℕ) (runs : List (List ℕ))
      → 1 ≤ scale
      → last_scale scale runs ≤ 65536
      → AllFull runs
      → outer.Codes
          (write_tables writer scale (tables_of scale runs))
          (last_scale scale runs)
          (parse_tables reader (length runs) scale)
          (tables_of scale runs, last_scale scale runs)
          (127 * 128 * length runs)
  unfolding write_tables parse_tables
  tables_coded scale [] positive small full = outer.returns scale ([], scale)
  tables_coded scale (lens ∷ runs) positive small full =
      let here : scale ≤ 65536 = le_trans (last_scale-le scale (lens ∷ runs) full) small in
      let small' : scale ≤ 65536 = here in
      let table = mirrored (staircase scale 0 lens) in
      let next = next_scale scale lens in
      let kept = no_scale_overflow scale lens full.0 here in
      let short = length-le-run_total lens in
      let rest =
        tables_coded next runs (le_trans positive (next_scale-le scale lens full.0)) small full.1 in
      outer.respects {n = 127 * length lens + (127 * 128 * length runs + 0)}
        (omega (arith, short, full.0)) (λ e. refl) (λ c. refl)
        (outer.composes (write_in_contexts writer (write_quant_table writer scale table)) _
          (read_in_contexts reader (parse_quant_table reader scale)) _ (127 * length lens)
          (127 * 128 * length runs + 0)
          (nested.scoped (table_coded scale lens positive here full.0))
          (writer_passes outer ErrorCode.invalid_state _ kept (
            reader_passes outer ErrorCode.syntax_error _ kept (
              outer.respects (omega arith)
                (λ e. >>=-return (write_tables writer next (tables_of next runs)) e) (λ c. refl)
                (outer.composes (write_tables writer next (tables_of next runs)) return
                  (parse_tables reader (length runs) next)
                  (λ (tables, last). return (table ∷ tables, last)) (127 * 128 * length runs) 0 rest
                  (outer.returns (last_scale next runs)
                    (table ∷ tables_of next runs, last_scale next runs)))))))

  -- Over every channel of symbols with an inner channel for independent contexts, a table set
  -- given by the lengths of its runs, five tables of 128 coded entries each with at most 32768
  -- contexts, is written in at most 81280 bytes, and the parser reads the same tables and the same
  -- number of contexts.
  pub parse_quant_table_set-write_quant_table_set-Codes :
      (runs : List (List ℕ))
      → IsCodable runs
      → outer.Codes
          (write_quant_table_set writer (set_of runs))
          tt
          (parse_quant_table_set reader)
          (set_of runs)
          81280
  unfolding write_quant_table_set parse_quant_table_set
  parse_quant_table_set-write_quant_table_set-Codes runs h =
      let last = last_scale 1 runs in
      let few : (last + 1) / 2 ≤ 32768 = h.few_contexts in
      let some : 1 ≤ last = last_scale-le 1 runs h.full in
      let same : not ((last + 1) / 2 == (last + 1) / 2 % 2 ^ 32) ≡ false = ground (arith, few) in
      let fits : (if (last + 1) / 2 == 0 then true else ltb 32768 ((last + 1) / 2)) ≡ false =
        ground (arith, few, some) in
      let five : 127 * 128 * length runs ≡ 81280 = omega (arith, h.five) in
      let tables : outer.Codes (write_tables writer 1 (tables_of 1 runs)) last
          (parse_tables reader 5 1) (tables_of 1 runs, last) (127 * 128 * length runs) =
        subst
          (λ (n : ℕ).
            outer.Codes (write_tables writer 1 (tables_of 1 runs)) last (parse_tables reader n 1)
              (tables_of 1 runs, last) (127 * 128 * length runs))
          h.five (tables_coded 1 runs (omega arith) (omega (arith, few)) h.full) in
      outer.respects {n = 127 * 128 * length runs + 0} (omega (arith, five)) (λ e. refl) (λ c. refl)
        (outer.composes (write_tables writer 1 (tables_of 1 runs)) _ (parse_tables reader 5 1) _
          (127 * 128 * length runs) 0 tables
          (outer.respects (omega arith) (λ e. rw same refl) (λ c. rw fits refl)
            (outer.returns tt (set_of runs))))
