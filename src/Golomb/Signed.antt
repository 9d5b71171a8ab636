-- ===== src/Golomb/Signed.antt =====
-- `write_signed` and `read_signed`: every 32-bit value whose folded form is codable comes back.
use mffv.Common.{
  ℕ, ◌+◌, ◌-◌, ◌*◌, ◌^◌, ◌≤◌, ◌<◌, ◌≡◌, refl, ◌∙◌, arith, inr, ◌||◌, leb, ltb, ◌==◌, false,
}
use mffv.Common.Bits.{bit_and_mask}
use mffv.Common.Int.{ℤ, pos, negsuc}
use mffv.Common.Int32.{IsInt32}
use mffv.Common.Status.{Outcome, ok, ◌>>=◌, >>=-ok}
use mffv.Bitstream.Reader.{BitReader}
use mffv.Bitstream.Writer.{BitWriter}
use mffv.Bitstream.Writes.{Writes, Writes-of}
use mffv.Bitstream.Reads.{Reads}
use mffv.Golomb.Reader.{read_signed, read_unsigned, unfold_sign, checked_int32, add_start_offset}
use mffv.Golomb.Writer.{write_signed, write_unsigned, fold_sign}
use mffv.Golomb.Code.{golomb_code, IsCodable, write_unsigned-Writes, read_unsigned-Reads}

-- The parameters that both sides accept.
abbrev pub IsWidth : ℕ → Type 0
IsWidth bits = (1 ≤ bits) × (bits ≤ 31)

unfold_sign-fold_sign : (v : ℤ) → unfold_sign (fold_sign v) ≡ v
unfolding unfold_sign fold_sign
unfold_sign-fold_sign (pos n) = ground (arith, bit_and_mask 1 (n * 2))
unfold_sign-fold_sign (negsuc n) = ground (arith, bit_and_mask 1 (2 * (n + 1) - 1))

-- A value of `bits` signed bits folds to one of `bits` unsigned bits, which is always codable.
pub fold_sign-IsCodable :
    (k bits : ℕ) (v : ℤ) → fold_sign v < 2 ^ bits → IsCodable k bits (fold_sign v)
fold_sign-IsCodable k bits v h = inr (omega arith)

checked_int32_ok :
    (start : ℕ) (v : ℤ) (r : BitReader) → IsInt32 v → checked_int32 start v r ≡ ok v r
unfolding checked_int32
checked_int32_ok start (pos n) r h = ground arith
checked_int32_ok start (negsuc n) r h = ground arith

k_below : (k : ℕ) → k < 32 → leb 32 k ≡ false
k_below k h = ground arith

width_in_range : (bits : ℕ) → IsWidth bits → (bits == 0 || ltb 31 bits) ≡ false
width_in_range bits h = ground arith

module _ (k bits : ℕ) (v : ℤ) (k_small : k < 32) (wide : IsWidth bits)
    (c : IsCodable k bits (fold_sign v)) where
  -- For k below 32, a width of 1 to 31 bits and a value whose folding is codable, write_signed
  -- succeeds on every open writer with room and appends the code word of the folded value.
  pub write_signed-Writes : Writes (write_signed k bits v) (golomb_code k bits (fold_sign v))
  write_signed-Writes =
      Writes-of refl enters (write_unsigned-Writes k bits (fold_sign v) k_small wide.1 c)
    where
      enters : (w : BitWriter) → write_signed k bits v w ≡ write_unsigned k bits (fold_sign v) w
      enters w = unfold write_signed in ground (arith, k_small, wide)

  -- For k below 32, a width of 1 to 31 bits and a 32-bit value whose folding is codable,
  -- read_signed takes the value's code word off the front of any reader and returns the value.
  pub read_signed-Reads :
      IsInt32 v → Reads (read_signed k bits) v (golomb_code k bits (fold_sign v))
  read_signed-Reads small r tail i front =
      let (r', e, p) = read_unsigned-Reads k bits (fold_sign v) k_small wide.1 c r tail i front in
      (r', enters ∙ >>=-ok offset _ (rw e keeps) ∙ checks r', p)
    where
      offset : BitReader → Outcome BitReader ℕ
      offset r' = add_start_offset r.bit_position (read_unsigned k bits r')

      enters :
          read_signed k bits r
          ≡ (offset >>= λ folded. checked_int32 r.bit_position (unfold_sign folded)) r
      enters = unfold read_signed in rw (k_below k k_small, width_in_range bits wide)

      keeps :
          {r' : BitReader}
          → add_start_offset r.bit_position (ok (fold_sign v) r') ≡ ok (fold_sign v) r'
      keeps = unfold add_start_offset in refl

      checks :
          (r' : BitReader) → checked_int32 r.bit_position (unfold_sign (fold_sign v)) r' ≡ ok v r'
      checks r' = rw (unfold_sign-fold_sign v) (checked_int32_ok r.bit_position v r' small)
