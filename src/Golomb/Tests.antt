-- ===== src/Golomb/Tests.antt =====
-- The theorems on the Golomb-Rice code at concrete inputs.
use mffv.Common.{ℕ, ◌-◌, ◌*◌, ◌^◌, ◌<◌, ◌≡◌, refl, arith, false, List, [], ◌∷◌, ◌++◌, some, inl}
use mffv.Common.Int.{ℤ, pos, negsuc, ◌+ℤ◌, ◌-ℤ◌}
use mffv.Common.Cong.{Cong}
use mffv.Common.Status.{ok}
use mffv.Bitstream.Reader.{BitReader, open_reader, remaining_bits, total_bits, bit_at, read_bit}
use mffv.Bitstream.Content.{bits_of, bits_from, rest}
use mffv.Bitstream.RoundTrip.{reset-IsOpen}
use mffv.Bitstream.Writer.{BitWriter, reset}
use mffv.Bitstream.Writes.{Emits, IsAppended}
use mffv.Bitstream.Reads.{Reads, IsRead}
use mffv.Golomb.Reader.{read_signed}
use mffv.Golomb.Writer.{write_signed, fold_sign}
use mffv.Golomb.Code.{golomb_code}
use mffv.Golomb.Signed.{write_signed-Writes, read_signed-Reads}
use mffv.Golomb.Context.{
  GolombRiceContextState, initial_context, derive_k, sign_extend, update_state,
}
use mffv.Golomb.Valid.{IsValid, initial_context-IsValid, update_state-IsValid, derive_k_total}
use mffv.Golomb.Run.{
  RunRead, GolombRiceRunState, read_golomb_rice_run_segment, full_segment, log2_run,
}
use mffv.Golomb.Run.Bounds.{IsInRow, read_golomb_rice_run_segment-IsInRow}
use mffv.Golomb.SignExtend.{InRange, sign_extend_lem, sign_extend_shift}
use mffv.Golomb.Symbols.{write_symbols, read_symbols, read_symbols-write_symbols}

abbrev differences : List ℤ
differences = pos 3 ∷ negsuc 99 ∷ pos 127 ∷ negsuc 127 ∷ []

read_symbols-write_symbols_example :
    (code : List ℕ) × (s' : GolombRiceContextState) × Emits
      (write_symbols initial_context 8 differences)
      s'
      code
    × Reads (read_symbols initial_context 8 4) (differences, s') code
    × IsValid s'
read_symbols-write_symbols_example =
    read_symbols-write_symbols initial_context 7 differences initial_context-IsValid (omega arith)
      (omega arith, (omega arith, (omega arith, (omega arith, tt))))

update_state-IsValid_example : IsValid (update_state initial_context (negsuc 499))
update_state-IsValid_example =
    update_state-IsValid initial_context (negsuc 499) initial_context-IsValid
      (omega arith, omega arith)

derive_k_total_example : (k : ℕ) × (derive_k initial_context ≡ some k) × (k < 32)
derive_k_total_example = derive_k_total initial_context initial_context-IsValid

sign_extend_lem_example :
    InRange (2 ^ 7) (sign_extend (pos 200) 8) × Cong (2 ^ 7 * 2) (sign_extend (pos 200) 8) (pos 200)
sign_extend_lem_example = sign_extend_lem (pos 200) 7 (omega arith)

sign_extend_shift_example :
    sign_extend (sign_extend (pos 120 -ℤ negsuc 19) 8 +ℤ negsuc 19) 8 ≡ pos 120
sign_extend_shift_example = sign_extend_shift (pos 120) (negsuc 19) 7 (omega arith) (omega arith)

abbrev blank : BitWriter
blank = record { bytes = []; bit_position = 0; finalized = false; max_size = 1000 }

write_signed-Writes_example :
    (w' : BitWriter) × (write_signed 2 8 (negsuc 4) (reset blank) ≡ ok tt w')
    × IsAppended (reset blank) (golomb_code 2 8 (fold_sign (negsuc 4))) w'
write_signed-Writes_example =
    write_signed-Writes 2 8 (negsuc 4) (omega arith) (omega arith, omega arith)
      (unfold fold_sign in inl (omega arith)) (reset blank) (reset-IsOpen blank)
      (unfold reset in
        unfold golomb_code in unfold fold_sign in unfold bits_of in (omega arith, omega arith))

read_signed-Reads_example :
    (r' : BitReader) × (read_signed 2 8 (open_reader (40 ∷ [])) ≡ ok (negsuc 4) r')
    × IsRead (open_reader (40 ∷ [])) (golomb_code 2 8 (fold_sign (negsuc 4))) (0 ∷ 0 ∷ 0 ∷ []) r'
unfolding open_reader
read_signed-Reads_example =
    read_signed-Reads 2 8 (negsuc 4) (omega arith) (omega arith, omega arith)
      (unfold fold_sign in inl (omega arith)) (omega arith) (open_reader (40 ∷ [])) (0 ∷ 0 ∷ 0 ∷ [])
      (record { countable = omega arith; inside = omega arith }) one_byte
  where
    one_byte :
        rest (open_reader (40 ∷ [])) ≡ golomb_code 2 8 (fold_sign (negsuc 4)) ++ (0 ∷ 0 ∷ 0 ∷ [])
    one_byte =
        unfold rest in
        unfold remaining_bits in
        unfold total_bits in
        unfold bits_from in
        unfold bits_of in unfold bit_at in unfold golomb_code in unfold fold_sign in refl

-- The entry 8 of the table stands for runs of four samples, and three remain in the row.
abbrev in_entry_8 : GolombRiceRunState
in_entry_8 = record { run_index = 8; pending_count = 0 }

abbrev cut_run : RunRead
cut_run = record { state = in_entry_8; segment = record { count = 3; interrupted = false } }

abbrev after_one_bit : BitReader
after_one_bit = record (open_reader (128 ∷ [])) { bit_position = 1 }

read_golomb_rice_run_segment-IsInRow_example : IsInRow (8 - 5) cut_run
read_golomb_rice_run_segment-IsInRow_example =
    read_golomb_rice_run_segment-IsInRow in_entry_8 5 8 (open_reader (128 ∷ [])) after_one_bit
      cut_run
      (unfold read_golomb_rice_run_segment in
        unfold full_segment in
        unfold log2_run in
        unfold read_bit in
        unfold remaining_bits in unfold total_bits in unfold bit_at in unfold open_reader in refl)
