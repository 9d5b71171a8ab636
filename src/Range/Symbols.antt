-- ===== src/Range/Symbols.antt =====
-- The symbols of both coders: the decisions of `write_symbol` are those that `read_symbol` asks for.
use mffv.Common.{
  ℕ, zero, suc, ◌+◌, ◌*◌, ◌/◌, ◌%◌, ◌^◌, ◌≤◌, ◌<◌, ◌≡◌, refl, ◌∙◌, sym, arith, Bool, true, false,
  not, List, [], ◌∷◌, ◌++◌, ◌==◌, if◌then◌else◌, bit_or, bit_and, add-zero,
}
use mffv.Common.Bits.{bit_and_mask, bit_or_fields}
use mffv.Common.Status.{◌>>=◌, ◌>>◌, return, >>=-ext, >>=-assoc}
use mffv.Range.Coder.{Action}
use mffv.Range.Read.{read_state, read_exponent, read_mantissa}
use mffv.Range.Encoder.{RangeEncoder}
use mffv.Range.Write.{
  write_state, Decision, exponent_decisions, mantissa_decisions, write_decisions,
}
use mffv.Range.Codes.{Codes, Codes-return, Codes->>=, Codes-of, write_state-Codes}
use mathlib.Core.Path.{subst}
use Prim.Native.Nat.{min}
use native.Mathlib.Nat.{pow-suc, div-one, div-div-eq-div-mul, div-le_self}

pub write_decisions-append :
    (bank context : ℕ) (ds es : List Decision) (e : RangeEncoder)
    → write_decisions bank context (ds ++ es) e
      ≡ (write_decisions bank context ds >> write_decisions bank context es) e
unfolding write_decisions
write_decisions-append bank context [] es e = refl
write_decisions-append bank context ((index, v) ∷ ds) es e =
    >>=-ext (write_state bank context index v) e
      (λ _ t. write_decisions-append bank context ds es t)
    ∙ sym (
        >>=-assoc (write_state bank context index v) (λ _. write_decisions bank context ds)
          (λ _. write_decisions bank context es) e)

module _ {bank context : ℕ} where
  -- One decision in front.
  pub one_more :
      {B : Type 0} (index : ℕ) (v : Bool) (ds : List Decision) (k : Bool → Action B) {b : B} (n : ℕ)
      → index < 32
      → Codes bank context (write_decisions bank context ds) tt (k v) b n
      → Codes bank context
          (write_decisions bank context ((index, v) ∷ ds))
          tt
          (read_state bank context index >>= k)
          b
          (suc n)
  unfolding write_decisions
  one_more index v ds k n inside rest =
      Codes-of (omega arith) (λ e. refl) (λ c. refl)
        (Codes->>= (write_state bank context index v) (λ _. write_decisions bank context ds)
          (read_state bank context index) k 1 n (write_state-Codes bank context index v inside)
          rest)

  pub nothing :
      {B : Type 0} (b : B) → Codes bank context (write_decisions bank context []) tt (return b) b 0
  unfolding write_decisions
  nothing b = Codes-return tt b

  pub exponent-Codes :
      (n left index : ℕ)
      → n ≤ left
      → Codes bank context
          (write_decisions bank context (exponent_decisions n index))
          tt
          (read_exponent bank context left index)
          (index + n)
          (suc n)
  unfolding exponent_decisions read_exponent
  exponent-Codes zero zero index le =
      one_more (1 + min index 9) false [] _ 0 (ground arith) (rw (add-zero index) (nothing index))
  exponent-Codes zero (suc left) index le =
      one_more (1 + min index 9) false [] _ 0 (ground arith) (rw (add-zero index) (nothing index))
  exponent-Codes (suc n) zero index le = absurd (omega arith)
  exponent-Codes (suc n) (suc left) index le =
      one_more (1 + min index 9) true (exponent_decisions n (index + 1)) _ (suc n) (ground arith) (
        subst
          (λ (total : ℕ).
            Codes bank context (write_decisions bank context (exponent_decisions n (index + 1))) tt
              (read_exponent bank context left (index + 1)) total (suc n))
          (omega arith) (exponent-Codes n left (index + 1) (omega arith)))

  pub mantissa-Codes :
      (i m : ℕ)
      → m < 2 ^ 64
      → Codes bank context
          (write_decisions bank context (mantissa_decisions i m))
          tt
          (read_mantissa bank context i (m / 2 ^ i))
          m
          i
  unfolding mantissa_decisions read_mantissa
  mantissa-Codes zero m h = rw (div-one m) (nothing m)
  mantissa-Codes (suc i) m h =
      let q = m / 2 ^ i in
      let half : m / 2 ^ suc i ≡ q / 2 = rw (pow-suc 2 i) (sym (div-div-eq-div-mul m (2 ^ i) 2)) in
      let small : q < 2 ^ 64 = omega (arith, div-le_self m (2 ^ i)) in
      one_more (22 + min i 9) (low_bit q) (mantissa_decisions i m) _ i (ground arith)
        (rw (half, with_bit q small) (mantissa-Codes i m h))
    where
      low_bit : ℕ → Bool
      low_bit q = not (bit_and q 1 == 0)

      with_bit : (q : ℕ) → q < 2 ^ 64 → bit_or (q / 2 * 2 % 2 ^ 64) (if low_bit q then 1 else 0) ≡ q
      with_bit q h =
          ground (arith, bit_and_mask 1 q, bit_or_fields 1 (q / 2) 0, bit_or_fields 1 (q / 2) 1)
