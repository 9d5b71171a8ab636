-- ===== src/Range/Decisions.antt =====
-- `write_symbol` of src/entropy/range_encoder.cpp: a whole symbol against `read_symbol` of
-- src/entropy/range_coder.cpp.
use mffv.Common.{
  ℕ, zero, suc, ◌+◌, ◌-◌, ◌*◌, ◌/◌, ◌%◌, ◌^◌, ◌≤◌, ◌<◌, ◌≡◌, refl, ap, ◌∙◌, arith, Bool, true,
  false, List, [], ◌++◌, ltb, leb, if◌then◌else◌, Bool-cases, inl, inr, zero-add,
}
use mffv.Common.Int.{ℤ, pos, ◌-ℤ◌}
use mffv.Common.Status.{ok, ◌>>=◌}
use mffv.Range.Coder.{RangeCoder, Action}
use mffv.Range.Read.{read_exponent, read_mantissa, read_sign, read_nonzero, zero_symbol}
use mffv.Range.Write.{
  Decision, exponent_decisions, mantissa_decisions, sign_decisions, log2_loop, log2,
  write_decisions,
}
use mffv.Range.Codes.{Codes, Codes->>=, Codes-of}
use mffv.Range.Symbols.{one_more, nothing, exponent-Codes, mantissa-Codes, write_decisions-append}
use Prim.Native.Nat.{min}
use native.Mathlib.Nat.{pow-suc, one-le-pow, pow-le-pow_right, mul-add-div, div-eq_of_lt}

log2_loop_lem :
    (fuel m : ℕ)
    → 0 < m
    → m < 2 ^ fuel
    → (2 ^ log2_loop fuel m ≤ m) × (m < 2 ^ suc (log2_loop fuel m)) × (log2_loop fuel m < fuel)
unfolding log2_loop
log2_loop_lem zero m h b = absurd (omega arith)
log2_loop_lem (suc fuel) m h b = elim (Bool-cases (ltb m 2)) [
  | inl small ↦ rw small (ground (arith, small), ground (arith, small), omega arith)
  | inr big ↦ rw big (
      let k = log2_loop fuel (m / 2) in
      let (low, high, less) =
        log2_loop_lem fuel (m / 2) (ground (arith, big)) (omega (arith, pow-suc 2 fuel)) in
      (
        omega (arith, low, pow-suc 2 k),
        omega (arith, high, pow-suc 2 (suc k), pow-suc 2 k),
        omega (arith, less),
      ))
]

leading : (m p : ℕ) → 0 < p → p ≤ m → m < p * 2 → m / p ≡ 1
leading m p h a b =
    let split : m ≡ p * 1 + (m - p) = omega arith in
    ap (λ (t : ℕ). t / p) split
    ∙ mul-add-div h 1 (m - p)
    ∙ ap (λ (t : ℕ). 1 + t) (div-eq_of_lt (omega arith))

top_exponent : (k m : ℕ) → 2 ^ k ≤ m → m < 2 ^ 63 → k ≤ 62
top_exponent k m low b = elim (Bool-cases (leb k 62)) [
  | inl e ↦ ground (arith, e)
  | inr e ↦ absurd (
      omega (
        arith,
        pow-le-pow_right {n = 2} (omega arith) {i = 63} {j = k} (ground (arith, e)),
        low,
        b,
      ))
]

-- The exponent is that of the leading bit.
pub log2_lem : (m : ℕ) → 0 < m → m < 2 ^ 63 → (m / 2 ^ log2 m ≡ 1) × (log2 m ≤ 62)
unfolding log2
log2_lem m h b =
    let k = log2_loop 64 m in
    let (low, high, less) = log2_loop_lem 64 m h (omega arith) in
    (
      leading m (2 ^ k) (one-le-pow k 2 (omega arith)) low (omega (arith, high, pow-suc 2 k)),
      top_exponent k m low b,
    )

-- The value of a symbol.
abbrev pub symbol_value : Bool → ℕ → Bool → ℤ
symbol_value is_signed magnitude negative =
    if is_signed
    then (if negative then pos 0 -ℤ pos magnitude else pos magnitude)
    else pos magnitude

plain_zero : (c : RangeCoder) → c.legacy_zero_symbol_carry ≡ false → zero_symbol c ≡ ok (pos 0) c
unfolding zero_symbol
plain_zero c e =
    ap
      (λ (b : Bool).
        if b then ok (pos 0) (record c { low = (c.low + 1) % 2 ^ 32 }) else ok (pos 0) c)
      e

module _ {bank context : ℕ} where
  sign-Codes :
      (is_signed : Bool) (exponent m : ℕ) (negative : Bool)
      → Codes bank context
          (write_decisions bank context (sign_decisions is_signed exponent negative))
          tt
          (read_sign bank context is_signed exponent m)
          (symbol_value is_signed m negative)
          1
  unfolding sign_decisions read_sign
  sign-Codes true exponent m negative =
      one_more (11 + min exponent 10) negative [] _ 0 (ground arith) (nothing _)
  sign-Codes false exponent m negative =
      Codes-of (omega arith) (λ e. refl) (λ c. refl) (nothing (pos m))

  appended-Codes :
      {B B' : Type 0} (ds es : List Decision) (r : Action B) (k : B → Action B') {b : B} {b' : B'}
      (n m : ℕ)
      → Codes bank context (write_decisions bank context ds) tt r b n
      → Codes bank context (write_decisions bank context es) tt (k b) b' m
      → Codes bank context (write_decisions bank context (ds ++ es)) tt (r >>= k) b' (n + m)
  appended-Codes ds es r k n m first second =
      Codes-of (omega arith) (write_decisions-append bank context ds es) (λ c. refl)
        (Codes->>= (write_decisions bank context ds) (λ _. write_decisions bank context es) r k n m
          first second)

  pub nonzero-Codes :
      (is_signed : Bool) (m : ℕ) (negative : Bool)
      → 0 < m
      → m < 2 ^ 63
      → let k = log2 m in
        Codes bank context
          (write_decisions bank context (
            exponent_decisions k 0
            ++ (mantissa_decisions k m ++ sign_decisions is_signed k negative)))
          tt
          (read_nonzero bank context is_signed)
          (symbol_value is_signed m negative)
          (suc k + (k + 1))
  nonzero-Codes is_signed m negative positive small =
      let k = log2 m in
      let (top, le) = log2_lem m positive small in
      let fits : ltb (2 ^ 63 - 1) m ≡ false = ground (arith, small) in
      unfold read_nonzero in
      appended-Codes (exponent_decisions k 0)
        (mantissa_decisions k m ++ sign_decisions is_signed k negative)
        (read_exponent bank context 62 0) _ (suc k) (k + 1)
        (rw zero-add at (exponent-Codes {bank = bank} {context = context} k 62 0 le))
        (appended-Codes (mantissa_decisions k m) (sign_decisions is_signed k negative)
          (read_mantissa bank context k 1) _ k 1
          (rw top at (mantissa-Codes {bank = bank} {context = context} k m (omega (arith, small))))
          (rw fits (sign-Codes is_signed k m negative)))

  pub zero-Codes : Codes bank context (write_decisions bank context []) tt zero_symbol (pos 0) 0
  zero-Codes e ready h h' room =
      let (e', done, p) = nothing (pos 0) e ready h h' room in
      (
        e',
        done,
        record {
          is_ready = p.is_ready;
          same_limit = p.same_limit;
          same_sizes = p.same_sizes;
          same_snapshots = p.same_snapshots;
          same_flags = p.same_flags;
          hits = p.hits;
          longer = p.longer;
          grown = p.grown;
          reads = λ payload c bytes l step.
              let (c', read, step', kept) = p.reads payload c bytes l step in
              (c', plain_zero c step.follows.no_legacy_carry ∙ read, step', kept);
        },
      )
