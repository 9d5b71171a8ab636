-- ===== src/Golomb/Symbols.antt =====
-- `write_golomb_rice_symbol` and `read_golomb_rice_symbol` under an adaptive state: a sequence of
-- differences is read back as it was written, and both sides end in the same state.
use mffv.Common.{
  ℕ, zero, suc, ◌^◌, ◌<◌, ◌≡◌, refl, arith, false, ◌||◌, List, [], ◌∷◌, ◌++◌, append-nil, length,
  some, ◌==◌, ltb,
}
use mffv.Common.Int.{ℤ, pos, negsuc, ◌+ℤ◌, ◌-ℤ◌}
use mffv.Common.Status.{Outcome, return, ◌>>=◌}
use mffv.Bitstream.Reader.{BitReader}
use mffv.Bitstream.Writer.{BitWriter}
use mffv.Bitstream.Writes.{Emits, Emits-return, Emits->>=, Emits-of}
use mffv.Bitstream.Reads.{Reads, Reads-return, Reads->>=, Reads-of}
use mffv.Golomb.Reader.{read_signed}
use mffv.Golomb.Writer.{write_signed, fold_sign}
use mffv.Golomb.Code.{golomb_code, IsCodable}
use mffv.Common.Int32.{IsInt32}
use mffv.Golomb.Signed.{write_signed-Writes, read_signed-Reads, fold_sign-IsCodable}
use mffv.Golomb.Context.{
  GolombRiceContextState, derive_k, is_inverted, complement_if, sign_extend, update_state,
  read_golomb_rice_symbol, write_golomb_rice_symbol,
}
use mffv.Golomb.SignExtend.{
  InRange, sign_extend_lem, sign_extend_shift, complement_if_lem, fold_sign-lt,
}
use mffv.Golomb.Valid.{IsValid, IsSmall, validate_state_lem, update_state-IsValid, derive_k_total}
use native.Mathlib.Nat.{pow-suc, pow-le-pow_right}

-- The value that the state is updated with, and the state after it.
unfoldable pub adaptive : GolombRiceContextState → ℕ → ℤ → ℤ
adaptive s bits v = sign_extend (v -ℤ s.bias) bits

unfoldable pub after : GolombRiceContextState → ℕ → ℤ → GolombRiceContextState
after s bits v = update_state s (adaptive s bits v)

InRange-IsSmall : (b : ℕ) (v : ℤ) → b < 31 → InRange (2 ^ b) v → IsSmall v
InRange-IsSmall b (pos n) h r =
    omega (arith, pow-le-pow_right {n = 2} (omega arith) {i = b} {j = 30} (omega arith))
InRange-IsSmall b (negsuc n) h r =
    omega (arith, pow-le-pow_right {n = 2} (omega arith) {i = b} {j = 30} (omega arith))

InRange-IsInt32 : (b : ℕ) (v : ℤ) → b < 31 → InRange (2 ^ b) v → IsInt32 v
InRange-IsInt32 b (pos n) h r =
    omega (arith, pow-le-pow_right {n = 2} (omega arith) {i = b} {j = 30} (omega arith))
InRange-IsInt32 b (negsuc n) h r =
    omega (arith, pow-le-pow_right {n = 2} (omega arith) {i = b} {j = 30} (omega arith))

width_in_range : (b : ℕ) → b < 31 → (suc b == 0 || ltb 31 (suc b)) ≡ false
width_in_range b h = ground arith

module _ (s : GolombRiceContextState) (b : ℕ) (v : ℤ) (ready : IsValid s) (narrow : b < 31)
    (fits : InRange (2 ^ b) v) where
  coded : ℤ
  coded = complement_if (is_inverted s) (adaptive s (suc b) v)

  coded_fits : InRange (2 ^ b) coded × (complement_if (is_inverted s) coded ≡ adaptive s (suc b) v)
  unfolding coded adaptive
  coded_fits =
      complement_if_lem (is_inverted s) (2 ^ b) (adaptive s (suc b) v)
        (sign_extend_lem (v -ℤ s.bias) b narrow).0

  codable : (k : ℕ) → IsCodable k (suc b) (fold_sign coded)
  codable k =
      fold_sign-IsCodable k (suc b) coded
        (rw (pow-suc 2 b) (fold_sign-lt (2 ^ b) coded coded_fits.0))

  after-IsValid : IsValid (after s (suc b) v)
  unfolding after adaptive
  after-IsValid =
      update_state-IsValid s (adaptive s (suc b) v) ready
        (InRange-IsSmall b (adaptive s (suc b) v) narrow (sign_extend_lem (v -ℤ s.bias) b narrow).0)

  write_symbol-Emits :
      (k : ℕ)
      → derive_k s ≡ some k
      → k < 32
      → Emits
          (write_golomb_rice_symbol s (suc b) v)
          (after s (suc b) v)
          (golomb_code k (suc b) (fold_sign coded))
  write_symbol-Emits k e small =
      Emits-of (append-nil (golomb_code k (suc b) (fold_sign coded))) enters (
        Emits->>= (write_signed k (suc b) coded) (λ _. return (after s (suc b) v))
          (golomb_code k (suc b) (fold_sign coded)) []
          (write_signed-Writes k (suc b) coded small (omega arith) (codable k))
          (Emits-return (after s (suc b) v)))
    where
      enters :
          (w : BitWriter)
          → write_golomb_rice_symbol s (suc b) v w
            ≡ (write_signed k (suc b) coded >>= λ _. return (after s (suc b) v)) w
      enters w =
          unfold write_golomb_rice_symbol coded after adaptive in
          rw (validate_state_lem s ready, width_in_range b narrow, e) refl

  read_symbol-Reads :
      (k : ℕ)
      → derive_k s ≡ some k
      → k < 32
      → Reads
          (read_golomb_rice_symbol s (suc b))
          (v, after s (suc b) v)
          (golomb_code k (suc b) (fold_sign coded))
  read_symbol-Reads k e small =
      Reads-of result (append-nil (golomb_code k (suc b) (fold_sign coded))) enters (
        Reads->>= (read_signed k (suc b)) decode (golomb_code k (suc b) (fold_sign coded)) []
          (read_signed-Reads k (suc b) coded small (omega arith) (codable k)
            (InRange-IsInt32 b coded narrow coded_fits.0))
          (Reads-return (decoded coded)))
    where
      decoded : ℤ → ℤ × GolombRiceContextState
      decoded c =
          let value = complement_if (is_inverted s) c in
          (sign_extend (value +ℤ s.bias) (suc b), update_state s value)

      decode : ℤ → BitReader → Outcome BitReader (ℤ × GolombRiceContextState)
      decode c = return (decoded c)

      result : decoded coded ≡ (v, after s (suc b) v)
      result =
          unfold after in
          rw (coded_fits.1) (unfold adaptive in rw (sign_extend_shift v s.bias b narrow fits) refl)

      enters :
          (r : BitReader)
          → read_golomb_rice_symbol s (suc b) r ≡ (read_signed k (suc b) >>= decode) r
      enters r =
          unfold read_golomb_rice_symbol in
          rw (validate_state_lem s ready, width_in_range b narrow, e) refl

-- Codes a sequence of differences in one context; `read_symbols` is given their number.
unfoldable pub write_symbols :
    GolombRiceContextState → ℕ → List ℤ → BitWriter → Outcome BitWriter GolombRiceContextState
write_symbols s bits [] = return s
write_symbols s bits (v ∷ vs) = do s' ← write_golomb_rice_symbol s bits v; write_symbols s' bits vs

unfoldable pub read_symbols :
    GolombRiceContextState → ℕ → ℕ → BitReader → Outcome BitReader (List ℤ × GolombRiceContextState)
read_symbols s bits zero = return ([], s)
read_symbols s bits (suc n) = do
  (v, s') ← read_golomb_rice_symbol s bits
  (vs, s'') ← read_symbols s' bits n
  return (v ∷ vs, s'')

abbrev pub AllInRange : ℕ → List ℤ → Type 0
AllInRange half [] = Unit
AllInRange half (v ∷ vs) = InRange half v × AllInRange half vs

-- From every valid state and at every width of 1 to 31 bits, every sequence of differences of that
-- width has a code: writing appends it to any open writer with room, reading takes it off the
-- front of any reader and returns the same differences, and both sides end in the same valid
-- state.
pub read_symbols-write_symbols :
    (s : GolombRiceContextState) (b : ℕ) (vs : List ℤ)
    → IsValid s
    → b < 31
    → AllInRange (2 ^ b) vs
    → (code : List ℕ) × (s' : GolombRiceContextState) × Emits (write_symbols s (suc b) vs) s' code
      × Reads (read_symbols s (suc b) (length vs)) (vs, s') code
      × IsValid s'
unfolding write_symbols read_symbols
read_symbols-write_symbols s b [] ready narrow fits =
    ([], s, Emits-return s, Reads-return ([], s), ready)
read_symbols-write_symbols s b (v ∷ vs) ready narrow (fit, fits) =
    let (k, e, small) = derive_k_total s ready in
    let first = golomb_code k (suc b) (fold_sign (coded s b v ready narrow fit)) in
    let s₁ = after s (suc b) v in
    let (code, s', writes, reads, valid) =
      read_symbols-write_symbols s₁ b vs (after-IsValid s b v ready narrow fit) narrow fits in
    (
      first ++ code,
      s',
      Emits->>= (write_golomb_rice_symbol s (suc b) v) (λ t. write_symbols t (suc b) vs) first code
          (write_symbol-Emits s b v ready narrow fit k e small) writes,
      Reads->>= (read_golomb_rice_symbol s (suc b)) _ first code
          (read_symbol-Reads s b v ready narrow fit k e small)
          (Reads-of refl (append-nil code) (λ r. refl)
            (Reads->>= (read_symbols s₁ (suc b) (length vs)) (λ p. return (v ∷ p.0, p.1)) code []
              reads (Reads-return (v ∷ vs, s')))),
      valid,
    )
