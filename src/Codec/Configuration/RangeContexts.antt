-- ===== src/Codec/Configuration/RangeContexts.antt =====
-- The independent contexts of the range coder: what is coded between their begin and their end
-- leaves the contexts around it alone, on both sides.
use mffv.Common.{
  ℕ, Bool, if◌then◌else◌, ◌+◌, ◌≤◌, ◌≡◌, refl, ap, ◌∙◌, arith, length, true, List, [], ◌∷◌,
}
use mffv.Common.Status.{ErrorCode, make_error, Outcome, ok, fail, return, >>=-ok}
use mffv.Range.Contexts.{ScalarContexts}
use mffv.Range.Coder.{RangeCoder, Action}
use mffv.Range.Coder
use mffv.Range.Encoder.{RangeEncoder, EncoderAction, require_open}
use mffv.Range.Encoder
use mffv.Range.Codes.{Codes, IsCoded, IsReady}
use mffv.Range.Live.{IsLiveScalar}
use mffv.Range.Follow.{Follows}
use mffv.Range.Reset.{
  decoder_init, encoder_init, one_bank, one_bank-IsLiveScalar, one_bank_checked, one_bank_encoder,
}
use mffv.Range.RoundTrip.{require_open_lem}
use mffv.Codec.Symbols.RangeChannel.{range_channel, range_reader, range_writer}
use mffv.Codec.Configuration.Contexts.{Nested}
use mffv.Codec.Configuration.Tables.{read_in_contexts, write_in_contexts}

-- The encoder behind the begin, and one whose contexts are exchanged.
abbrev pushed : RangeEncoder → RangeEncoder
pushed e = record e { scalar = one_bank 1 128; snapshots = e.scalar ∷ e.snapshots }

abbrev pushed_coder : RangeCoder → RangeCoder
pushed_coder c = record c { scalar = one_bank 1 128; snapshots = c.scalar ∷ c.snapshots }

exchanged-IsReady :
    (e : RangeEncoder) (scalar : ScalarContexts) (snapshots : List ScalarContexts)
    → IsReady e
    → IsLiveScalar scalar
    → IsReady (record e { scalar = scalar; snapshots = snapshots })
exchanged-IsReady e scalar snapshots ready live = record {
  interval = record {
    range_low = ready.interval.range_low;
    range_high = ready.interval.range_high;
    inside = ready.interval.inside;
    bytes = ready.interval.bytes;
  };
  is_open = ready.is_open;
  live_table = ready.live_table;
  live_scalar = live;
}

begin_written :
    (e : RangeEncoder)
    → IsReady e
    → Encoder.begin_independent_scalar_contexts 1 e ≡ ok tt (pushed e)
unfolding Encoder.begin_independent_scalar_contexts Encoder.push_independent
begin_written e ready =
    >>=-ok require_open (λ _. Encoder.push_independent 1) (require_open_lem e ready)
    ∙ ap opened (
        encoder_init (1 ∷ []) 128 (record e { snapshots = e.scalar ∷ e.snapshots }) (one_bank 1 128)
          (one_bank_encoder 1 128 (omega arith) (omega arith)))
  where
    opened : Outcome RangeEncoder (Unit {0}) → Outcome RangeEncoder (Unit {0})
    opened o = elim o [
      | ok _ e' ↦ ok tt e'
      | fail status e' ↦ fail status (record e' { scalar = e.scalar; snapshots = e.snapshots })
    ]

end_written :
    (e : RangeEncoder) (scalar : ScalarContexts) (older : List ScalarContexts)
    → IsReady e
    → e.snapshots ≡ scalar ∷ older
    → Encoder.end_independent_scalar_contexts e
      ≡ ok tt (record e { scalar = scalar; snapshots = older })
unfolding Encoder.end_independent_scalar_contexts Encoder.pop_snapshot
end_written e scalar older ready h =
    >>=-ok require_open (λ _ e'. Encoder.pop_snapshot e'.snapshots e') (require_open_lem e ready)
    ∙ ap (λ (s : List ScalarContexts). Encoder.pop_snapshot s e) h

begin_read :
    (c : RangeCoder)
    → c.initialized ≡ true
    → Coder.begin_independent_scalar_contexts 1 c ≡ ok tt (pushed_coder c)
unfolding Coder.begin_independent_scalar_contexts
begin_read c h =
    ap guarded h
    ∙ ap opened (
        decoder_init (1 ∷ []) 128 (record c { snapshots = c.scalar ∷ c.snapshots }) (one_bank 1 128)
          (one_bank_checked 1 128 (omega arith) (omega arith)))
  where
    opened : Outcome RangeCoder (Unit {0}) → Outcome RangeCoder (Unit {0})
    opened o = elim o [
      | ok _ c' ↦ ok tt c'
      | fail status c' ↦ fail status (record c' { scalar = c.scalar; snapshots = c.snapshots })
    ]

    guarded : Bool → Outcome RangeCoder (Unit {0})
    guarded initialized =
        if initialized
        then opened
            (Coder.init_contexts (1 ∷ []) [] 128 (record c { snapshots = c.scalar ∷ c.snapshots }))
        else fail (make_error ErrorCode.invalid_state) c

require_initialized_lem :
    (c : RangeCoder) → c.initialized ≡ true → Coder.require_initialized c ≡ ok tt c
unfolding Coder.require_initialized
require_initialized_lem c h = ap guarded h
  where
    guarded : Bool → Outcome RangeCoder (Unit {0})
    guarded initialized =
        if initialized then ok tt c else fail (make_error ErrorCode.invalid_state) c

end_read :
    (c : RangeCoder) (scalar : ScalarContexts) (older : List ScalarContexts)
    → c.initialized ≡ true
    → c.snapshots ≡ scalar ∷ older
    → Coder.end_independent_scalar_contexts c
      ≡ ok tt (record c { scalar = scalar; snapshots = older })
unfolding Coder.end_independent_scalar_contexts Coder.pop_snapshot
end_read c scalar older h h' =
    >>=-ok Coder.require_initialized (λ _ c'. Coder.pop_snapshot c'.snapshots c')
      (require_initialized_lem c h)
    ∙ ap (λ (s : List ScalarContexts). Coder.pop_snapshot s c) h'

exchanged-Follows :
    (c : RangeCoder) (e : RangeEncoder) (payload : List ℕ) (s s' : ScalarContexts)
    (l l' : List ScalarContexts)
    → Follows c e payload
    → Follows
        (record c { scalar = s; snapshots = l })
        (record e { scalar = s'; snapshots = l' })
        payload
exchanged-Follows c e payload s s' l l' f = record {
  initialized = f.initialized;
  no_legacy_arithmetic = f.no_legacy_arithmetic;
  no_legacy_carry = f.no_legacy_carry;
  same_payload = f.same_payload;
  same_range = f.same_range;
  distance = f.distance;
  position = f.position;
  at_end = f.at_end;
  same_table = f.same_table;
}

module _ {A : Type 0} (a : A) where
  written :
      (w : EncoderAction A) (e e' : RangeEncoder)
      → IsReady e
      → IsReady e'
      → e'.snapshots ≡ e.scalar ∷ e.snapshots
      → w (pushed e) ≡ ok a e'
      → write_in_contexts range_writer w e
        ≡ ok a (record e' { scalar = e.scalar; snapshots = e.snapshots })
  unfolding write_in_contexts
  written w e e' ready ready' same done =
      >>=-ok (Encoder.begin_independent_scalar_contexts 1) _ (begin_written e ready)
      ∙ rw done (
          >>=-ok Encoder.end_independent_scalar_contexts (λ _. return a)
            (end_written e' e.scalar e.snapshots ready' same))

  read :
      (r : Action A) (c c' : RangeCoder)
      → c.initialized ≡ true
      → c'.initialized ≡ true
      → c'.snapshots ≡ c.scalar ∷ c.snapshots
      → r (pushed_coder c) ≡ ok a c'
      → read_in_contexts range_reader r c
        ≡ ok a (record c' { scalar = c.scalar; snapshots = c.snapshots })
  unfolding read_in_contexts
  read r c c' on on' same done =
      >>=-ok (Coder.begin_independent_scalar_contexts 1) _ (begin_read c on)
      ∙ rw done (
          >>=-ok Coder.end_independent_scalar_contexts (λ _. return a)
            (end_read c' c.scalar c.snapshots on' same))

-- On the range coder, programs that are related on one context are run by both sides between the
-- begin and the end of independent contexts: every ready encoder with room succeeds and has behind
-- it the very contexts that it had before, and a decoder in step reads the value back, stays in
-- step, and so has its own contexts again.
pub write_in_contexts-IsCoded :
    {A B : Type 0} (w : EncoderAction A) (r : Action B) (a : A) (b : B) (n : ℕ)
    → Codes 0 0 w a r b n
    → (e : RangeEncoder) → IsReady e
    → length e.low_bytes + n ≤ e.max_size
    → (e' : RangeEncoder) × (write_in_contexts range_writer w e ≡ ok a e')
      × (e'.scalar ≡ e.scalar)
      × IsCoded (read_in_contexts range_reader r) b n e e'
write_in_contexts-IsCoded w r a b n inner e ready room =
    let live = one_bank-IsLiveScalar 1 128 (omega arith) in
    let (e', done, p) =
      inner (pushed e) (exchanged-IsReady e (one_bank 1 128) (e.scalar ∷ e.snapshots) ready live)
        (omega arith) (omega arith) room in
    (
      record e' { scalar = e.scalar; snapshots = e.snapshots },
      written a w e e' ready p.is_ready p.same_snapshots done,
      refl,
      record {
        is_ready = exchanged-IsReady e' e.scalar e.snapshots p.is_ready ready.live_scalar;
        longer = p.longer;
        grown = p.grown;
        same_limit = p.same_limit;
        same_sizes = refl;
        same_snapshots = refl;
        same_flags = p.same_flags;
        hits = λ payload bytes hits.
            let q =
              p.hits payload bytes
                (record { from_low = hits.from_low; below_high = hits.below_high }) in
            record { from_low = q.from_low; below_high = q.below_high };
        reads = λ payload c bytes hits step.
            let (c', got, step', kept) =
              p.reads payload (pushed_coder c) bytes
                (record { from_low = hits.from_low; below_high = hits.below_high })
                (record {
                  follows =
                      exchanged-Follows c e payload (one_bank 1 128) (one_bank 1 128)
                        (c.scalar ∷ c.snapshots) (e.scalar ∷ e.snapshots) step.follows;
                  same_scalar = refl;
                }) in
            (
              record c' { scalar = c.scalar; snapshots = c.snapshots },
              read b r c c' step.follows.initialized step'.follows.initialized kept got,
              record {
                follows =
                    exchanged-Follows c' e' payload c.scalar e.scalar c.snapshots e.snapshots
                      step'.follows;
                same_scalar = step.same_scalar;
              },
              refl,
            );
      },
    )

module _ {A B : Type 0} {w : EncoderAction A} {r : Action B} {a : A} {b : B} {n : ℕ} where
  scoped-Codes :
      (last : ℕ)
      → Codes 0 0 w a r b n
      → Codes 0 last (write_in_contexts range_writer w) a (read_in_contexts range_reader r) b n
  scoped-Codes last inner e ready h h' room =
      let (e', done, _, p) = write_in_contexts-IsCoded w r a b n inner e ready room in (e', done, p)

-- On the range coder, programs that are related on one context are related on a bank of any size
-- when both sides run them in contexts of their own.
pub range_channel-Nested : (last : ℕ) → Nested (range_channel 0) (range_channel last)
unfolding range_channel
range_channel-Nested last = record { scoped = scoped-Codes last }
