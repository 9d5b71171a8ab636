-- ===== src/Range/RoundTrip.antt =====
-- `write_unsigned` and `write_signed` of src/entropy/range_encoder.cpp against `read_unsigned` and
-- `read_signed` of src/entropy/range_coder.cpp.
use mffv.Common.{
  ℕ, ◌+◌, ◌-◌, ◌^◌, ◌≤◌, ◌<◌, ◌≡◌, refl, ap, ◌∙◌, arith, Bool, true, false, List, [], length,
  get_or, ltb, leb, ◌==◌, if◌then◌else◌, Bool-cases, inl, inr, add-zero,
}
use mathlib.Core.Path.{subst}
use mffv.Common.Int.{ℤ, pos, negsuc, ◌-ℤ◌, pos_part, neg_part}
use mffv.Common.Status.{
  ErrorCode, make_error, Outcome, ok, fail, ◌>>=◌, ◌>>◌, return, >>=-ok, >>=-tt,
}
use mffv.Range.Contexts.{context_at}
use mffv.Range.Coder.{RangeCoder, Action}
use mffv.Range.Read.{read_state, read_nonzero, read_symbol, zero_symbol, read_unsigned, read_signed}
use mffv.Range.Encoder.{RangeEncoder, EncoderAction, require_open}
use mffv.Range.Write.{
  Decision, decisions, write_decisions, commit, write_symbol, write_unsigned, write_signed,
}
use mffv.Range.Codes.{Codes, Codes-of, IsReady, Codes->>=, Codes-return}
use mffv.Range.Symbols.{one_more}
use mffv.Range.Decisions.{log2_lem, symbol_value, nonzero-Codes, zero-Codes}
use mffv.Range.Trial.{decisions-AllBelow, length-decisions, trial_lem}

-- What `read_symbol` does after its guards.
abbrev unguarded : ℕ → ℕ → Bool → Action ℤ
unguarded bank context is_signed = read_state bank context 0 >>= λ bit.
    if bit then zero_symbol else read_nonzero bank context is_signed

zero_value : (s v : Bool) → symbol_value s 0 v ≡ pos 0
unfolding ◌-ℤ◌
zero_value true true = refl
zero_value true false = refl
zero_value false v = refl

decisions-Codes :
    (bank context : ℕ) (s : Bool) (m : ℕ) (v : Bool)
    → m < 2 ^ 63
    → Codes bank context
        (write_decisions bank context (decisions s m v))
        tt
        (unguarded bank context s)
        (symbol_value s m v)
        127
unfolding decisions
decisions-Codes bank context s m v h = elim (Bool-cases (m == 0)) [
  | inl e ↦
      let none_left : m ≡ 0 = ground (arith, e) in
      rw (none_left, zero_value s v)
        (Codes-of (omega arith) (λ e. refl) (λ c. refl)
          (one_more 0 true [] (λ bit. if bit then zero_symbol else read_nonzero bank context s) 0
            (omega arith) zero-Codes))
  | inr e ↦ rw e (
      Codes-of (omega (arith, (log2_lem m (ground (arith, e)) h).1)) (λ e. refl) (λ c. refl)
        (one_more 0 false _ (λ bit. if bit then zero_symbol else read_nonzero bank context s) _
          (omega arith) (nonzero-Codes s m v (ground (arith, e)) h)))
]

commit_ok :
    (bank context : ℕ) (ds : List Decision) (e e' : RangeEncoder)
    → write_decisions bank context ds e ≡ ok tt e'
    → commit bank context ds e ≡ ok tt e'
unfolding commit
commit_ok bank context ds e e' h = ap (λ (o : Outcome RangeEncoder (Unit {0})). recode o) h
  where
    recode : Outcome RangeEncoder (Unit {0}) → Outcome RangeEncoder (Unit {0})
    recode o = elim o [
      | ok _ e' ↦ ok tt e'
      | fail _ e' ↦ fail (make_error ErrorCode.internal_error) e'
    ]

read_symbol_opens :
    (bank context : ℕ) (s : Bool) (c : RangeCoder)
    → bank < length c.scalar.bank_sizes
    → context < get_or c.scalar.bank_sizes bank 0
    → read_symbol bank context s c ≡ unguarded bank context s c
unfolding read_symbol
read_symbol_opens bank context s c b h =
    let e₁ : leb (length c.scalar.bank_sizes) bank ≡ false = ground (arith, b) in
    let e₂ : leb (get_or c.scalar.bank_sizes bank 0) context ≡ false = ground (arith, h) in
    rw (e₁, e₂) refl

write_symbol_opens :
    (bank context : ℕ) (s : Bool) (m : ℕ) (v : Bool) (e : RangeEncoder)
    → m < 2 ^ 63
    → IsReady e
    → bank < length e.scalar.bank_sizes
    → context < get_or e.scalar.bank_sizes bank 0
    → length e.low_bytes + 127 ≤ e.max_size
    → write_symbol bank context s m v e ≡ commit bank context (decisions s m v) e
unfolding write_symbol context_at
write_symbol_opens bank context s m v e small ready b h room =
    let e₁ : leb (length e.scalar.bank_sizes) bank ≡ false = ground (arith, b) in
    let e₂ : leb (get_or e.scalar.bank_sizes bank 0) context ≡ false = ground (arith, h) in
    let inside = ready.live_scalar.layout bank context b h in
    let (n, tried, bound) =
      trial_lem e.state_transition (decisions s m v) (context_at e.scalar bank context) e.range 0
        ready.live_table (decisions-AllBelow s m v) (ready.live_scalar.full _ inside)
        (λ i lt. ready.live_scalar.live _ i inside lt) ready.interval.range_low
        ready.interval.range_high in
    let enough : ltb (e.max_size - length e.low_bytes) n ≡ false =
      ground (arith, room, bound, length-decisions s m v small) in
    rw (e₁, e₂, tried, enough) refl

-- On every ready encoder with the bank, the context and room for 127 bytes, write_symbol succeeds
-- for a magnitude below 2^63, and read_symbol on a decoder in step reads the signed value back and
-- stays in step.
pub write_symbol-Codes :
    (bank context : ℕ) (s : Bool) (m : ℕ) (v : Bool)
    → m < 2 ^ 63
    → Codes bank context
        (write_symbol bank context s m v)
        tt
        (read_symbol bank context s)
        (symbol_value s m v)
        127
write_symbol-Codes bank context s m v small e ready b h room =
    let (e', done, p) = decisions-Codes bank context s m v small e ready b h room in
    (
      e',
      write_symbol_opens bank context s m v e small ready b h room
          ∙ commit_ok bank context (decisions s m v) e e' done,
      record {
        is_ready = p.is_ready;
        longer = p.longer;
        grown = p.grown;
        same_limit = p.same_limit;
        same_sizes = p.same_sizes;
        same_snapshots = p.same_snapshots;
        same_flags = p.same_flags;
        hits = p.hits;
        reads = λ payload c bytes l step.
            let (c', read, step', kept) = p.reads payload c bytes l step in
            let sizes = ap (λ s. s.bank_sizes) step.same_scalar in
            (c', read_symbol_opens bank context s c (rw sizes b) (rw sizes h) ∙ read, step', kept);
      },
    )

pub require_open_lem : (e : RangeEncoder) → IsReady e → require_open e ≡ ok tt e
unfolding require_open
require_open_lem e ready = ap opened ready.is_open.0 ∙ ap closed ready.is_open.1
  where
    refused : Outcome RangeEncoder (Unit {0})
    refused = fail (make_error ErrorCode.invalid_state) e

    opened : Bool → Outcome RangeEncoder (Unit {0})
    opened b = if b then (if e.finalized then refused else ok tt e) else refused

    closed : Bool → Outcome RangeEncoder (Unit {0})
    closed b = if b then refused else ok tt e

guarded :
    {bank context : ℕ} {B : Type 0} (w : EncoderAction (Unit {0})) (r : Action B) {b : B} {n : ℕ}
    → Codes bank context w tt r b n
    → Codes bank context (require_open >> w) tt r b n
guarded w r h e ready l l' room =
    let (e', done, p) = h e ready l l' room in
    (e', >>=-ok require_open (λ _. w) (require_open_lem e ready) ∙ done, p)

-- Every unsigned value below 2^63 is written, and read back.
pub write_unsigned-Codes :
    (bank context v : ℕ)
    → v < 2 ^ 63
    → Codes bank context (write_unsigned bank context v) tt (read_unsigned bank context) v 127
write_unsigned-Codes bank context v h =
    let fits : ltb (2 ^ 63 - 1) v ≡ false = ground (arith, h) in
    unfold write_unsigned in
    unfold read_unsigned in
    guarded _ (read_unsigned bank context) (
      rw fits (
        Codes-of (omega arith) (λ e. closes e) (λ c. refl)
          (Codes->>= (write_symbol bank context false v false) (λ _. return tt)
            (read_symbol bank context false) (λ z. return (pos_part z)) 127 0
            (write_symbol-Codes bank context false v false h) (Codes-return tt v))))
  where
    closes :
        (e : RangeEncoder)
        → write_symbol bank context false v false e
          ≡ (write_symbol bank context false v false >>= λ _. return tt) e
    closes e = >>=-tt (write_symbol bank context false v false) e

int64_value : (v : ℤ) → symbol_value true (pos_part v + neg_part v) (ltb 0 (neg_part v)) ≡ v
unfolding ◌-ℤ◌
int64_value (pos n) = rw (add-zero n) refl
int64_value (negsuc n) = ground arith

one_sign : (v : ℤ) → pos_part v < 2 ^ 63 → neg_part v < 2 ^ 63 → pos_part v + neg_part v < 2 ^ 63
one_sign (pos n) h h' = omega arith
one_sign (negsuc n) h h' = omega arith

-- Every 64-bit signed value but the smallest is written, and read back.
pub write_signed-Codes :
    (bank context : ℕ) (v : ℤ)
    → pos_part v < 2 ^ 63
    → neg_part v < 2 ^ 63
    → Codes bank context (write_signed bank context v) tt (read_signed bank context) v 127
write_signed-Codes bank context v h h' =
    let fits : leb (2 ^ 63) (neg_part v) ≡ false = ground (arith, h') in
    unfold write_signed in
    guarded _ (read_signed bank context) (
      rw fits (
        subst
          (λ (z : ℤ).
            Codes bank context
              (write_symbol bank context true (pos_part v + neg_part v) (ltb 0 (neg_part v))) tt
              (read_signed bank context) z 127)
          (int64_value v)
          (unfold read_signed in
            write_symbol-Codes bank context true (pos_part v + neg_part v) (ltb 0 (neg_part v))
              (one_sign v h h'))))
