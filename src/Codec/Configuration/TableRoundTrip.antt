-- ===== src/Codec/Configuration/TableRoundTrip.antt =====
-- A quantization table through a channel of symbols.
use mffv.Common.{
  ℕ, zero, suc, ◌+◌, ◌-◌, ◌*◌, ◌/◌, ◌%◌, ◌^◌, ◌≤◌, ◌<◌, ◌≡◌, refl, ap, ◌∙◌, arith, List, [], ◌∷◌,
  ◌++◌, append_assoc, append-nil, true, false, not, ◌&&◌, ltb, leb, ◌==◌, length, replicate,
  length-append, length-replicate,
}
use Prim.Native.Nat.{min, max}
use mffv.Common.Int.{ℤ, pos, eqb_ℤ}
use mffv.Common.Status.{ErrorCode, Outcome, ◌>>=◌, ◌>>◌, return, refuse}
use mffv.Codec.Symbols.{SymbolReader, SymbolWriter, Channel}
use mffv.Codec.Symbols.Steps.{then_unsigned, reader_passes}
use mffv.Codec.Configuration.Tables.{max_int32, max_int64, parse_runs, write_runs, run_length}
use mffv.Codec.Configuration.Runs.{staircase, run_length_lem, drop-replicate}
use native.Mathlib.Nat.{mul_comm, le-div_iff_mul-le, mul-le-mul_left, le_trans}
use mathlib.Core.Path.{subst}
use mffv.Common.{Bool-cases, inl, inr}

-- The tests of a value that fits.
value_fits : (scale value bound : ℕ) → scale * value ≤ bound → 1 ≤ value → scale ≤ bound / value
value_fits scale value bound h pos_value = (le-div_iff_mul-le pos_value).1 h

no_overflow :
    (scale value bound : ℕ)
    → scale * value ≤ bound
    → (not (value == 0) && ltb (bound / value) scale) ≡ false
no_overflow scale value bound h = elim (Bool-cases (value == 0)) [
  | inl none ↦ rw none refl
  | inr some ↦
      let p : 1 ≤ value = ground (arith, some) in
      rw some (ground (arith, value_fits scale value bound h p))
]

value_allowed :
    (scale value : ℕ)
    → 1 ≤ scale
    → scale * value ≤ max_int32
    → ltb (max_int32 / max scale 1) value ≡ false
value_allowed scale value positive small =
    let same : max scale 1 ≡ scale = omega (arith, positive) in
    let turned : value * scale ≤ max_int32 = omega (arith, small, mul_comm value scale) in
    rw same (ground (arith, (le-div_iff_mul-le positive).1 turned))

eqb_self : (n : ℕ) → eqb_ℤ (pos n) (pos n) ≡ true
eqb_self n = ground arith

module _ {W R : Type 0} {writer : SymbolWriter W} {reader : SymbolReader R}
    (channel : Channel writer reader) where
  -- Behind 128 entries both sides return.
  ended :
      (scale value left : ℕ) (half : List ℤ)
      → length half ≡ 128
      → (c : R) → parse_runs reader left scale value half c ≡ return (half, value) c
  unfolding parse_runs
  ended scale value zero half full c = rw full refl
  ended scale value (suc left) half full c = rw full refl

  write_step :
      (scale value left len : ℕ) (lens : List ℕ)
      → 1 ≤ scale
      → scale * value ≤ max_int32
      → (w : W)
      → write_runs writer (suc left) scale value (staircase scale value (len ∷ lens)) w
        ≡ (writer.write_unsigned len
              >> write_runs writer left scale (value + 1) (staircase scale (value + 1) lens))
            w
  unfolding write_runs
  write_step scale value left len lens positive small w =
      let entry = pos (scale * value) in
      let counted : run_length entry (staircase scale value (len ∷ lens)) ≡ suc len =
        run_length_lem scale value len lens positive in
      let fits : (not (value == 0) && ltb (max_int64 / value) scale) ≡ false =
        no_overflow scale value max_int64 (omega (arith, small)) in
      let some : (suc len == 0) ≡ false = ground arith in
      let again : suc len - 1 ≡ len = omega arith in
      rw
        (
          fits,
          eqb_self (scale * value),
          counted,
          drop-replicate len entry (staircase scale (value + 1) lens),
          some,
          again,
        )
        refl

  -- What parse_runs does with a length.
  abbrev next_run : ℕ → ℕ → ℕ → List ℤ → ℕ → R → Outcome R (List ℤ × ℕ)
  next_run left scale value half = λ len_minus_one.
      refuse ErrorCode.syntax_error (leb (128 - length half) len_minus_one && length half == 0)
      >> (refuse ErrorCode.syntax_error (ltb (max_int32 / max scale 1) value)
          >> parse_runs reader left scale (value + 1) (
              half
              ++ replicate (min ((len_minus_one + 1) % 2 ^ 64) (128 - length half))
                  (pos (scale * value))))

  read_step :
      (scale value left : ℕ) (half : List ℤ)
      → length half < 128
      → (c : R)
      → parse_runs reader (suc left) scale value half c
        ≡ (reader.read_unsigned >>= next_run left scale value half) c
  unfolding parse_runs
  read_step scale value left half short c =
      let more : leb 128 (length half) ≡ false = ground (arith, short) in rw more refl

  pub runs_coded :
      (scale value left left' : ℕ) (half : List ℤ) (lens : List ℕ)
      → 1 ≤ scale
      → length half + length (staircase scale value lens) ≡ 128
      → length lens ≤ left
      → length lens ≤ left'
      → scale * (value + length lens) ≤ max_int32
      → channel.Codes
          (write_runs writer left scale value (staircase scale value lens))
          (value + length lens)
          (parse_runs reader left' scale value half)
          (half ++ staircase scale value lens, value + length lens)
          (127 * length lens)
  unfolding write_runs
  runs_coded scale value left left' half [] positive full l l' small =
      let same : half ++ [] ≡ half = append-nil half in
      let same' : value + 0 ≡ value = omega arith in
      rw (same, same')
        (channel.respects (omega arith) (λ e. refl)
          (λ c. ended scale value left' half (omega (arith, full)) c)
          (channel.returns value (half, value)))
  runs_coded scale value (suc left) (suc left') half (len ∷ lens) positive full l l' small =
      let entry = pos (scale * value) in
      let entries = staircase scale (value + 1) lens in
      let half' = half ++ replicate (suc len) entry in
      let size : length (replicate (suc len) entry ++ entries) ≡ suc len + length entries =
        length-append (replicate (suc len) entry) entries
        ∙ ap (λ (n : ℕ). n + length entries) (length-replicate (suc len) entry) in
      let size' : length half' ≡ length half + suc len =
        length-append half (replicate (suc len) entry)
        ∙ ap (λ (n : ℕ). length half + n) (length-replicate (suc len) entry) in
      let one_less : scale * (value + 1 + length lens) ≤ max_int32 =
        subst (λ (n : ℕ). scale * n ≤ max_int32) (omega arith) small in
      let now : scale * value ≤ max_int32 = le_trans (mul-le-mul_left scale (omega arith)) small in
      let whole : min ((len + 1) % 2 ^ 64) (128 - length half) ≡ suc len =
        omega (arith, full, size) in
      let inside : (leb (128 - length half) len && length half == 0) ≡ false =
        ground (arith, full, size) in
      let rest =
        runs_coded scale (value + 1) left left' half' lens positive
          (omega (arith, full, size, size')) (omega (arith, l)) (omega (arith, l')) one_less in
      let joined : half' ++ entries ≡ half ++ (replicate (suc len) entry ++ entries) =
        append_assoc half (replicate (suc len) entry) entries in
      let sum : value + 1 + length lens ≡ value + suc (length lens) = omega arith in
      channel.respects {n = 127 + 127 * length lens} (omega arith)
        (λ w. write_step scale value left len lens positive now w)
        (λ c. read_step scale value left' half (omega (arith, full, size)) c)
        (then_unsigned channel len (next_run left' scale value half) (127 * length lens)
          (omega (arith, full, size))
          (reader_passes channel _ _ inside (
            reader_passes channel _ _ (value_allowed scale value positive now) (
              rw whole (
                subst
                  (λ (p : List ℤ × ℕ).
                    channel.Codes (write_runs writer left scale (value + 1) entries) p.1
                      (parse_runs reader left' scale (value + 1) half') p (127 * length lens))
                  (λ i. (joined i, sum i)) rest)))))
  runs_coded scale value zero left' half (len ∷ lens) positive full l l' small =
      absurd (omega arith)
  runs_coded scale value (suc left) zero half (len ∷ lens) positive full l l' small =
      absurd (omega arith)
