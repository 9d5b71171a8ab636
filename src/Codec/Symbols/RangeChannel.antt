-- ===== src/Codec/Symbols/RangeChannel.antt =====
-- The range coder of src/entropy/range_encoder.cpp and src/entropy/range_coder.cpp behind the symbol
-- interfaces: the calls without a context use the first context of the first bank.
use mffv.Common.{ℕ, suc, ◌≤◌, ◌≡◌, ◌∙◌, sym, arith, Bool, length, get_or, ◌||◌, leb, ◌==◌, false}
use mffv.Common.Status.{>>=-ok, ok-injective}
use mffv.Range.Coder.{RangeCoder, Action, set_state_transition}
use mffv.Range.Coder
use mffv.Range.Encoder.{EncoderAction, RangeEncoder, require_open}
use mffv.Range.Encoder
use mffv.Range.Read.{read_bool, read_unsigned, read_signed}
use mffv.Range.Write.{write_bool, write_unsigned, write_signed}
use mathlib.Core.Path.{subst}
use mffv.Range.Follow.{Hits}
use mffv.Range.Codes.{InStep, Codes, Codes-return, Codes->>=, Codes-of, write_state-Codes}
use mffv.Range.RoundTrip.{write_unsigned-Codes, write_signed-Codes, require_open_lem}
use mffv.Codec.Symbols.{SymbolReader, SymbolWriter, Channel}

abbrev pub range_reader : SymbolReader RangeCoder
range_reader = record {
  read_bool = read_bool;
  read_unsigned = read_unsigned 0 0;
  read_signed = read_signed 0 0;
  read_signed_in = read_signed 0;
  begin_independent_scalar_contexts = mffv.Range.Coder.begin_independent_scalar_contexts;
  end_independent_scalar_contexts = mffv.Range.Coder.end_independent_scalar_contexts;
  set_state_transition = set_state_transition;
  byte_position = λ c. c.byte_position;
}

abbrev pub range_writer : SymbolWriter RangeEncoder
range_writer = record {
  write_bool = write_bool;
  write_unsigned = write_unsigned 0 0;
  write_signed = write_signed 0 0;
  write_unsigned_in = write_unsigned 0;
  write_signed_in = write_signed 0;
  begin_independent_scalar_contexts = mffv.Range.Encoder.begin_independent_scalar_contexts;
  end_independent_scalar_contexts = mffv.Range.Encoder.end_independent_scalar_contexts;
}

pub write_bool-Codes : (v : Bool) → Codes 0 0 (write_bool v) tt read_bool v 127
write_bool-Codes v e ready h h' room =
    let some : (leb (length e.scalar.bank_sizes) 0 || get_or e.scalar.bank_sizes 0 0 == 0) ≡ false =
      ground (arith, h, h') in
    let (e', done, p) =
      write_state-Codes 0 0 0 v (omega arith) e ready h h' (omega (arith, room)) in
    (
      e',
      (unfold write_bool in >>=-ok require_open _ (require_open_lem e ready) ∙ rw some done),
      record {
        is_ready = p.is_ready;
        longer = p.longer;
        grown = omega (arith, p.grown);
        same_limit = p.same_limit;
        same_sizes = p.same_sizes;
        same_snapshots = p.same_snapshots;
        same_flags = p.same_flags;
        hits = p.hits;
        reads = λ payload c bytes hits step.
            let (c', read, step', kept) = p.reads payload c bytes hits step in
            let some' : (leb (length c.scalar.bank_sizes) 0 || get_or c.scalar.bank_sizes 0 0 == 0)
                ≡ false =
              rw step.same_scalar some in
            (c', (unfold read_bool in rw some' read), step', kept);
      },
    )

-- Programs on one context of the first bank are programs on a bank with more contexts.
pub widened :
    {A B : Type 0} (context last : ℕ) {w : EncoderAction A} {r : Action B} {a : A} {b : B} {n : ℕ}
    → context ≤ last
    → Codes 0 context w a r b n
    → Codes 0 last w a r b n
widened context last le h e ready inside inside' room =
    h e ready inside (omega (arith, inside', le)) room

-- The writing program ends in one state, whatever the reading one has noted.
pub noted :
    {A B : Type 0} (last : ℕ) {w : EncoderAction A} (r : ℕ → Action B) {a : A} {b : B} {n : ℕ}
    → ((offset : ℕ) → Codes 0 last w a (r offset) b n)
    → Codes 0 last w a (λ c. r c.byte_position c) b n
noted {A} {B} last {w} r {a} {b} {n} h e ready inside inside' room =
    let (e', done, p) = h 0 e ready inside inside' room in
    (
      e',
      done,
      record {
        is_ready = p.is_ready;
        longer = p.longer;
        grown = p.grown;
        same_limit = p.same_limit;
        same_sizes = p.same_sizes;
        same_snapshots = p.same_snapshots;
        same_flags = p.same_flags;
        hits = p.hits;
        reads = λ payload c bytes hits step.
            let (e'', done', q) = h c.byte_position e ready inside inside' room in
            let same : e' ≡ e'' = (ok-injective (sym done ∙ done')).1 in
            let (c', read, step', kept) =
              q.reads payload c bytes (subst (λ (x : RangeEncoder). Hits x payload) same hits)
                step in
            (c', read, subst (λ (x : RangeEncoder). InStep c' x payload) (sym same) step', kept);
      },
    )

-- The first bank has `last + 1` contexts at least.
unfoldable pub range_channel : ℕ → Channel range_writer range_reader
range_channel last = record {
  Codes = Codes 0 last;
  returns = Codes-return;
  composes = Codes->>=;
  respects = Codes-of;
  locates = noted last;
  contexts = suc last;
  bool_coded = λ v. widened 0 last (omega arith) (write_bool-Codes v);
  unsigned_coded = λ v h. widened 0 last (omega arith) (write_unsigned-Codes 0 0 v h);
  signed_coded = λ v h h'. widened 0 last (omega arith) (write_signed-Codes 0 0 v h h');
  signed_in_coded = λ context v l h h'.
      widened context last (omega (arith, l)) (write_signed-Codes 0 context v h h');
}
