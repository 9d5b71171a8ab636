-- ===== src/Codec/Configuration/Tables.antt =====
-- The quantization tables of a configuration: parse_quant_table and parse_quant_table_set of
-- src/mffv1/configuration_parser.cpp, write_quant_table and write_quant_table_set of
-- src/codec/configuration_record_writer.cpp. A scale is positive, so it is a number here.
use mffv.Common.{
  ℕ, zero, suc, ◌+◌, ◌-◌, ◌*◌, ◌/◌, ◌%◌, ◌^◌, List, [], ◌∷◌, ◌++◌, Bool, true, not, ◌&&◌, ltb, leb,
  ◌==◌, if◌then◌else◌, length, get_or, take, drop, replicate,
}
use Prim.Native.Nat.{min, max}
use mffv.Common.Int.{ℤ, pos, ◌-ℤ◌, eqb_ℤ}
use mffv.Common.Status.{ErrorCode, make_error, Outcome, ok, fail, ◌>>=◌, ◌>>◌, return, refuse}
use mffv.Syntax.Stream.{QuantTableSet}
use mffv.Codec.Symbols.{SymbolReader, SymbolWriter}

-- `std::numeric_limits<std::int32_t>::max()` and that of `std::int64_t`
abbrev pub max_int32 : ℕ
max_int32 = 2 ^ 31 - 1

abbrev pub max_int64 : ℕ
max_int64 = 2 ^ 63 - 1

unfoldable pub negated : ℤ → ℤ
negated v = pos 0 -ℤ v

-- The loop over the mirrors, from the entry `256 - n` on.
unfoldable pub mirror_tail : ℕ → List ℤ → List ℤ
unfolding negated
mirror_tail zero half = []
mirror_tail (suc n) half = negated (get_or half (suc n) (pos 0)) ∷ mirror_tail n half

-- The whole table: the entry 128 is negated as that of 127 is.
unfoldable pub mirrored : List ℤ → List ℤ
mirrored half = half ++ negated (get_or half 127 (pos 0)) ∷ mirror_tail 127 half

-- The next scale is `scale * (2 * len_count - 1)`.
unfoldable pub scale_overflows : ℕ → ℕ → Bool
scale_overflows scale len_count =
    let multiplier = 2 * len_count - 1 in
    if multiplier == 0 then true else ltb (max_int64 / multiplier) scale

module _ {R : Type 0} (reader : SymbolReader R) where
  -- The first 128 entries. `half` holds the entries written so far, so its length is `k`; `left`
  -- counts the values up to the one that the overflow test refuses whatever the scale is.
  unfoldable pub parse_runs : ℕ → ℕ → ℕ → List ℤ → R → Outcome R (List ℤ × ℕ)
  parse_runs zero scale value half =
      if leb 128 (length half)
      then return (half, value)
      else reader.read_unsigned >>= λ _. (λ r. fail (make_error ErrorCode.syntax_error) r)
  parse_runs (suc left) scale value half =
      if leb 128 (length half)
      then return (half, value)
      else reader.read_unsigned >>= λ len_minus_one.
          let remaining = 128 - length half in
          let len = min ((len_minus_one + 1) % 2 ^ 64) remaining in
          refuse ErrorCode.syntax_error (leb remaining len_minus_one && length half == 0)
          >> (refuse ErrorCode.syntax_error (ltb (max_int32 / max scale 1) value)
              >> parse_runs left scale (value + 1) (half ++ replicate len (pos (scale * value))))

  -- The value is the table and the number of its runs.
  unfoldable pub parse_quant_table : ℕ → R → Outcome R (List ℤ × ℕ)
  parse_quant_table scale =
      parse_runs (2 ^ 31) scale 0 [] >>= λ (half, len_count). return (mirrored half, len_count)

  -- A read between `begin_independent_scalar_contexts(1)` and its end, which is called in any case.
  unfoldable pub read_in_contexts : {A : Type 0} → (R → Outcome R A) → R → Outcome R A
  read_in_contexts m = reader.begin_independent_scalar_contexts 1 >> λ r. elim (m r) [
    | ok a r' ↦ (reader.end_independent_scalar_contexts >> return a) r'
    | fail status r' ↦ elim (reader.end_independent_scalar_contexts r') [
      | ok _ r'' ↦ fail status r''
      | fail _ r'' ↦ fail status r''
    ]
  ]

  -- The tables that are left, and the scale behind them.
  unfoldable pub parse_tables : ℕ → ℕ → R → Outcome R (List (List ℤ) × ℕ)
  parse_tables zero scale = return ([], scale)
  parse_tables (suc left) scale =
      read_in_contexts (parse_quant_table scale) >>= λ (table, len_count).
      refuse ErrorCode.syntax_error (scale_overflows scale len_count)
      >> (parse_tables left (scale * (2 * len_count - 1)) >>= λ (tables, last).
          return (table ∷ tables, last))

  unfoldable pub parse_quant_table_set : R → Outcome R QuantTableSet
  parse_quant_table_set = parse_tables 5 1 >>= λ (tables, scale).
      let context_count = (scale + 1) / 2 in
      refuse ErrorCode.syntax_error (if context_count == 0 then true else ltb 32768 context_count)
      >> return (record { tables = tables; context_count = context_count })

-- `validate_quant_table_mirror` of one table, with the mirrors from 1 to `mirror`.
unfoldable pub mirrors_agree : ℕ → List ℤ → Bool
unfolding negated
mirrors_agree zero table = true
mirrors_agree (suc n) table =
    mirrors_agree n table
    && eqb_ℤ (get_or table (256 - suc n) (pos 0)) (negated (get_or table (suc n) (pos 0)))

unfoldable pub is_mirrored : List ℤ → Bool
unfolding mirrors_agree negated
is_mirrored table =
    mirrors_agree 127 table && eqb_ℤ (get_or table 128 (pos 0)) (negated (get_or table 127 (pos 0)))

-- How many entries from here on hold the expected value.
unfoldable pub run_length : ℤ → List ℤ → ℕ
run_length expected [] = 0
run_length expected (entry ∷ entries) =
    if eqb_ℤ entry expected then suc (run_length expected entries) else 0

module _ {W : Type 0} (writer : SymbolWriter W) where
  -- The entries from `k` to 127, with the rounds left; each round takes an entry at least.
  unfoldable pub write_runs : ℕ → ℕ → ℕ → List ℤ → W → Outcome W ℕ
  write_runs left scale value [] = return value
  write_runs zero scale value (entry ∷ entries) = return value
  write_runs (suc left) scale value (entry ∷ entries) =
      let len = run_length (pos (scale * value)) (entry ∷ entries) in
      refuse ErrorCode.invalid_state (not (value == 0) && ltb (max_int64 / value) scale)
      >> (refuse ErrorCode.invalid_state (not (eqb_ℤ entry (pos (scale * value))))
          >> (refuse ErrorCode.invalid_state (len == 0)
              >> (writer.write_unsigned (len - 1)
                  >> write_runs left scale (value + 1) (drop len (entry ∷ entries)))))

  -- The value is the number of runs.
  unfoldable pub write_quant_table : ℕ → List ℤ → W → Outcome W ℕ
  write_quant_table scale table =
      refuse ErrorCode.invalid_state (not (is_mirrored table))
      >> write_runs 128 scale 0 (take 128 table)

  -- The end of the contexts is called in any case, and its failure wins.
  unfoldable pub write_in_contexts : {A : Type 0} → (W → Outcome W A) → W → Outcome W A
  write_in_contexts m = writer.begin_independent_scalar_contexts 1 >> λ w. elim (m w) [
    | ok a w' ↦ (writer.end_independent_scalar_contexts >> return a) w'
    | fail status w' ↦ elim (writer.end_independent_scalar_contexts w') [
      | ok _ w'' ↦ fail status w''
      | fail status' w'' ↦ fail status' w''
    ]
  ]

  -- The value is the scale behind the last table.
  unfoldable pub write_tables : ℕ → List (List ℤ) → W → Outcome W ℕ
  write_tables scale [] = return scale
  write_tables scale (table ∷ tables) =
      write_in_contexts (write_quant_table scale table) >>= λ len_count.
      refuse ErrorCode.invalid_state (scale_overflows scale len_count)
      >> write_tables (scale * (2 * len_count - 1)) tables

  unfoldable pub write_quant_table_set : QuantTableSet → W → Outcome W (Unit {0})
  write_quant_table_set table_set = write_tables 1 table_set.tables >>= λ scale.
      refuse ErrorCode.invalid_state (not (table_set.context_count == (scale + 1) / 2 % 2 ^ 32))
