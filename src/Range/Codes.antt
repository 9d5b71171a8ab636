-- ===== src/Range/Codes.antt =====
-- Programs of the encoder and of the decoder that run in step, and how they compose.
use mffv.Common.{
  ℕ, ◌+◌, ◌≤◌, ◌<◌, ◌≡◌, refl, ap, ◌∙◌, sym, arith, Bool, true, false, List, length, get_or, inl,
  inr,
}
use mffv.Common.Status.{ok, ◌>>=◌, return, >>=-ok}
use mffv.Range.Coder.{RangeCoder, Action}
use mffv.Range.Contexts.{ScalarContexts, state_at, set_state}
use mffv.Range.Read.{read_rac, read_state}
use mffv.Range.Encoder.{RangeEncoder, EncoderAction}
use mffv.Range.Write.{next_state, write_rac, write_state}
use mffv.Range.Steps.{IsBytes, IsInterval, IsWritten}
use mffv.Range.Follow.{Hits, Follows, Hits-before}
use mffv.Range.Decide.{read_rac-write_rac}
use mffv.Range.Live.{
  IsLive, IsLiveTable, IsLiveScalar, set_state-IsLiveScalar, state_at-IsLive, write_rac_total,
}
use mathlib.Core.Path.{subst}

pub record IsReady (e : RangeEncoder) : Type 0 where
  pub interval : IsInterval e
  pub is_open : (e.initialized ≡ true) × (e.finalized ≡ false)
  pub live_table : IsLiveTable e.state_transition
  pub live_scalar : IsLiveScalar e.scalar

-- The decoder's registers and its states are those of the encoder.
pub record InStep (c : RangeCoder) (e : RangeEncoder) (payload : List ℕ) : Type 0 where
  pub follows : Follows c e payload
  pub same_scalar : c.scalar ≡ e.scalar

-- From `e` to `e'` the encoder has written what `r` reads back as `b`, in at most `n` bytes.
pub record IsCoded {B : Type 0} (r : Action B) (b : B) (n : ℕ) (e e' : RangeEncoder) : Type 0 where
  pub is_ready : IsReady e'
  pub longer : length e.low_bytes ≤ length e'.low_bytes
  pub grown : length e'.low_bytes ≤ length e.low_bytes + n
  pub same_limit : e'.max_size ≡ e.max_size
  pub same_sizes : e'.scalar.bank_sizes ≡ e.scalar.bank_sizes
  pub same_snapshots : e'.snapshots ≡ e.snapshots
  pub same_flags : (e'.initialized ≡ e.initialized) × (e'.finalized ≡ e.finalized)
  pub hits : (payload : List ℕ) → IsBytes payload → Hits e' payload → Hits e payload
  pub reads :
      (payload : List ℕ) (c : RangeCoder)
      → IsBytes payload
      → Hits e' payload
      → InStep c e payload
      → (c' : RangeCoder) × (r c ≡ ok b c') × InStep c' e' payload × (c'.snapshots ≡ c.snapshots)

-- On every encoder that is ready, has a bank and a context of these numbers and has room for `n`
-- bytes, `w` succeeds with `a`, and what it writes `r` reads back as `b`.
abbrev pub Codes : {A B : Type 0} → ℕ → ℕ → EncoderAction A → A → Action B → B → ℕ → Type 0
Codes bank context w a r b n =
    (e : RangeEncoder)
    → IsReady e
    → bank < length e.scalar.bank_sizes
    → context < get_or e.scalar.bank_sizes bank 0
    → length e.low_bytes + n ≤ e.max_size
    → (e' : RangeEncoder) × (w e ≡ ok a e') × IsCoded r b n e e'

module _ {bank context : ℕ} where
  pub Codes-return : {A B : Type 0} (a : A) (b : B) → Codes bank context (return a) a (return b) b 0
  Codes-return a b e ready h h' room = (
    e,
    refl,
    record {
      is_ready = ready;
      longer = omega arith;
      grown = omega arith;
      same_limit = refl;
      same_sizes = refl;
      same_snapshots = refl;
      same_flags = (refl, refl);
      hits = λ payload bytes h. h;
      reads = λ payload c bytes h step. (c, refl, step, refl);
    },
  )

  -- One program after another.
  pub Codes->>= :
      {A A' B B' : Type 0} (w : EncoderAction A) (f : A → EncoderAction A') (r : Action B)
      (k : B → Action B') {a : A} {a' : A'} {b : B} {b' : B'} (n m : ℕ)
      → Codes bank context w a r b n
      → Codes bank context (f a) a' (k b) b' m
      → Codes bank context (w >>= f) a' (r >>= k) b' (n + m)
  Codes->>= w f r k n m first second e ready h h' room =
      let (e', done, p) = first e ready h h' (omega arith) in
      let (e'', done', q) =
        second e' p.is_ready (rw p.same_sizes h) (rw p.same_sizes h')
          (omega (arith, p.grown, p.same_limit)) in
      (
        e'',
        >>=-ok w f done ∙ done',
        record {
          is_ready = q.is_ready;
          longer = omega (arith, p.longer, q.longer);
          grown = omega (arith, p.grown, q.grown);
          same_limit = q.same_limit ∙ p.same_limit;
          same_sizes = q.same_sizes ∙ p.same_sizes;
          same_snapshots = q.same_snapshots ∙ p.same_snapshots;
          same_flags = (q.same_flags.0 ∙ p.same_flags.0, q.same_flags.1 ∙ p.same_flags.1);
          hits = λ payload bytes l. p.hits payload bytes (q.hits payload bytes l);
          reads = λ payload c bytes l step.
              let (c', read, step', kept) = p.reads payload c bytes (q.hits payload bytes l) step in
              let (c'', read', step'', kept') = q.reads payload c' bytes l step' in
              (c'', >>=-ok r k read ∙ read', step'', kept' ∙ kept);
        },
      )

  -- Both programs, and the bound, up to equality.
  pub Codes-of :
      {A B : Type 0} {w w' : EncoderAction A} {r r' : Action B} {a : A} {b : B} {n m : ℕ}
      → n ≤ m
      → ((e : RangeEncoder) → w' e ≡ w e)
      → ((c : RangeCoder) → r' c ≡ r c)
      → Codes bank context w a r b n
      → Codes bank context w' a r' b m
  Codes-of le same same' h e ready l l' room =
      let (e', done, p) = h e ready l l' (omega (arith, le)) in
      (
        e',
        same e ∙ done,
        record {
          is_ready = p.is_ready;
          same_limit = p.same_limit;
          same_sizes = p.same_sizes;
          same_snapshots = p.same_snapshots;
          same_flags = p.same_flags;
          hits = p.hits;
          longer = p.longer;
          grown = omega (arith, p.grown, le);
          reads = λ payload c bytes l step.
              let (c', read, step', kept) = p.reads payload c bytes l step in
              (c', same' c ∙ read, step', kept);
        },
      )

rac_coded :
    (e e' : RangeEncoder) (state : ℕ) (v : Bool)
    → IsReady e
    → IsLive state
    → IsWritten e state v e'
    → (payload : List ℕ) → IsBytes payload
    → Hits e' payload
    → Hits e payload
rac_coded e e' state v ready l w payload bytes hits =
    (Hits-before e e' state v payload ready.interval (omega (arith, l.1)) bytes w hits).0

read_state_of :
    (c c' : RangeCoder) (bank context index : ℕ) (v : Bool) (state' : ℕ) (s : ScalarContexts)
    → c.scalar ≡ s
    → read_rac (state_at s bank context index) c ≡ ok (v, state') c'
    → read_state bank context index c
      ≡ ok v (record c' { scalar = set_state c'.scalar bank context index state' })
unfolding read_state
read_state_of c c' bank context index v state' s same h =
    >>=-ok (read_rac (state_at c.scalar bank context index)) _ (
      subst (λ (t : ScalarContexts). read_rac (state_at t bank context index) c ≡ ok (v, state') c')
        (sym same) h)

-- A decision on a state of a context.
pub write_state-Codes :
    (bank context index : ℕ) (v : Bool)
    → index < 32
    → Codes bank context (write_state bank context index v) tt (read_state bank context index) v 1
write_state-Codes bank context index v inside e ready b c room =
    let (e', done, w) = write_rac_total e state v ready.interval live (omega (arith, room)) in
    let after = record e' { scalar = set_state e'.scalar bank context index state' } in
    (
      after,
      (unfold write_state in >>=-ok (write_rac state v) _ done),
      record {
        is_ready = record {
          interval = record {
            range_low = w.is_interval.range_low;
            range_high = w.is_interval.range_high;
            inside = w.is_interval.inside;
            bytes = w.is_interval.bytes;
          };
          is_open = (w.same_flags.0 ∙ ready.is_open.0, w.same_flags.1 ∙ ready.is_open.1);
          live_table = rw w.same_table ready.live_table;
          live_scalar = rw w.same_scalar (
              set_state-IsLiveScalar e.scalar bank context index state' ready.live_scalar b c inside
                (ready.live_table state v live));
        };
        longer = elim w.moved [
          | inl (_, _, len, _) ↦ omega (arith, len)
          | inr (_, _, len, _) ↦ omega (arith, len)
        ];
        grown = elim w.moved [
          | inl (_, _, len, _) ↦ omega (arith, len)
          | inr (_, _, len, _) ↦ omega (arith, len)
        ];
        same_limit = w.same_limit;
        same_sizes = unfold set_state in ap (λ s. s.bank_sizes) w.same_scalar;
        same_snapshots = w.same_snapshots;
        same_flags = w.same_flags;
        hits = λ payload bytes hits.
            rac_coded e e' state v ready live w payload bytes
              (record { from_low = hits.from_low; below_high = hits.below_high });
        reads = λ payload c' bytes hits step.
            let (c'', read, f, s, kept) =
              read_rac-write_rac c' e e' state v payload step.follows ready.interval
                (omega (arith, live.1)) bytes w
                (record { from_low = hits.from_low; below_high = hits.below_high }) in
            (
              record c'' {
                scalar =
                    set_state c''.scalar bank context index
                      (next_state c'.state_transition state v);
              },
              read_state_of c' c'' bank context index v _ e.scalar step.same_scalar read,
              record {
                follows = record {
                  initialized = f.initialized;
                  no_legacy_arithmetic = f.no_legacy_arithmetic;
                  no_legacy_carry = f.no_legacy_carry;
                  same_payload = f.same_payload;
                  same_range = f.same_range;
                  distance = f.distance;
                  position = f.position;
                  at_end = f.at_end;
                  same_table = f.same_table;
                };
                same_scalar = rw (s, step.same_scalar, step.follows.same_table, w.same_scalar) refl;
              },
              kept,
            );
      },
    )
  where
    state : ℕ
    state = state_at e.scalar bank context index

    live : IsLive state
    live = state_at-IsLive e.scalar bank context index ready.live_scalar b c inside

    state' : ℕ
    state' = next_state e.state_transition state v
