-- ===== src/Range/Session.antt =====
-- A whole payload: src/entropy/range_encoder.cpp writes a list of symbols and closes it,
-- src/entropy/range_coder.cpp is reset on the bytes and reads the list back.
use mffv.Common.{
  ℕ, ◌+◌, ◌*◌, ◌^◌, ◌≤◌, ◌<◌, ◌≡◌, refl, ◌∙◌, arith, true, false, List, [], ◌∷◌, length,
}
use mffv.Common.Int.{ℤ, pos_part, neg_part}
use mffv.Common.Status.{ok, ◌>>=◌, ◌>>◌, return, >>=-ok, >>=-tt}
use mffv.Range.Coder.{RangeCoder, Action, reset_one}
use mffv.Range.Read.{read_unsigned, read_signed}
use mffv.Range.Encoder.{RangeEncoder, EncoderAction, new_encoder, reset_counts}
use mffv.Range.Write.{write_unsigned, write_signed}
use mffv.Range.Finish.{finalize_closed}
use mffv.Range.Live.{IsLive}
use mffv.Range.Codes.{Codes, Codes-return, Codes->>=, Codes-of}
use mffv.Range.RoundTrip.{write_unsigned-Codes, write_signed-Codes, require_open_lem}
use mffv.Range.Reset.{fresh, fresh-IsReady, reset_counts_lem, reset_one_lem, start-InStep}
use mffv.Range.Closing.{finalize_closed_lem}

-- A symbol as the code writes it.
pub data Symbol : Type 0 where
  unsigned : ℕ → Symbol
  signed : ℤ → Symbol

-- The values that the encoder accepts.
abbrev pub IsEncodable : Symbol → Type 0
IsEncodable (unsigned v) = v < 2 ^ 63
IsEncodable (signed v) = (pos_part v < 2 ^ 63) × (neg_part v < 2 ^ 63)

abbrev pub AllEncodable : List Symbol → Type 0
AllEncodable [] = Unit {0}
AllEncodable (s ∷ ss) = IsEncodable s × AllEncodable ss

abbrev pub write_one : ℕ → ℕ → Symbol → EncoderAction (Unit {0})
write_one bank context (unsigned v) = write_unsigned bank context v
write_one bank context (signed v) = write_signed bank context v

abbrev pub write_all : ℕ → ℕ → List Symbol → EncoderAction (Unit {0})
write_all bank context [] = return tt
write_all bank context (s ∷ ss) = write_one bank context s >> write_all bank context ss

-- The decoder knows of each symbol only whether it is signed.
abbrev pub read_one : ℕ → ℕ → Symbol → Action Symbol
read_one bank context (unsigned _) = read_unsigned bank context >>= λ v. return (unsigned v)
read_one bank context (signed _) = read_signed bank context >>= λ v. return (signed v)

abbrev pub read_all : ℕ → ℕ → List Symbol → Action (List Symbol)
read_all bank context [] = return []
read_all bank context (s ∷ ss) =
    read_one bank context s >>= λ v. read_all bank context ss >>= λ vs. return (v ∷ vs)

one-Codes :
    (bank context : ℕ) (s : Symbol)
    → IsEncodable s
    → Codes bank context (write_one bank context s) tt (read_one bank context s) s 127
one-Codes bank context (unsigned v) h =
    Codes-of (omega arith) (λ e. >>=-tt (write_unsigned bank context v) e) (λ c. refl)
      (Codes->>= (write_unsigned bank context v) (λ _. return tt) (read_unsigned bank context)
        (λ z. return (unsigned z)) 127 0 (write_unsigned-Codes bank context v h)
        (Codes-return tt (unsigned v)))
one-Codes bank context (signed v) h =
    Codes-of (omega arith) (λ e. >>=-tt (write_signed bank context v) e) (λ c. refl)
      (Codes->>= (write_signed bank context v) (λ _. return tt) (read_signed bank context)
        (λ z. return (signed z)) 127 0 (write_signed-Codes bank context v h.0 h.1)
        (Codes-return tt (signed v)))

-- A list of symbols.
pub all-Codes :
    (bank context : ℕ) (ss : List Symbol)
    → AllEncodable ss
    → Codes bank context
        (write_all bank context ss)
        tt
        (read_all bank context ss)
        ss
        (127 * length ss)
all-Codes bank context [] h = Codes-return tt []
all-Codes bank context (s ∷ ss) h =
    Codes-of (omega arith) (λ e. refl) (λ c. refl)
      (Codes->>= (write_one bank context s) (λ _. write_all bank context ss)
        (read_one bank context s) _ 127 (127 * length ss + 0) (one-Codes bank context s h.0)
        (Codes-of (omega arith) (λ e. >>=-tt (write_all bank context ss) e) (λ c. refl)
          (Codes->>= (write_all bank context ss) (λ _. return tt) (read_all bank context ss)
            (λ vs. return (s ∷ vs)) (127 * length ss) 0 (all-Codes bank context ss h.1)
            (Codes-return tt (s ∷ ss)))))

-- The encoder is reset, writes the symbols and closes the payload.
abbrev pub encode : ℕ → ℕ → ℕ → List Symbol → EncoderAction (List ℕ)
encode count state context ss =
    reset_counts (count ∷ []) state >> write_all 0 context ss >> finalize_closed

-- The decoder is reset on the payload and reads as many symbols.
abbrev pub decode : ℕ → ℕ → ℕ → List Symbol → List ℕ → Action (List Symbol)
decode count state context ss payload = reset_one payload count state >> read_all 0 context ss

-- Whenever the buffer may grow to 2 bytes and 127 more per symbol, an encoder reset to one bank of
-- at most 32768 contexts with a live initial state writes every list of unsigned values below 2^63
-- and signed values of magnitude below 2^63 without a failure and closes the payload, and a
-- decoder without legacy modes, reset on those bytes, reads the same list back.
pub decode-encode :
    (e : RangeEncoder) (c : RangeCoder) (count state context : ℕ) (ss : List Symbol)
    → 0 < count
    → count ≤ 32768
    → context < count
    → IsLive state
    → 2 + 127 * length ss ≤ e.max_size
    → AllEncodable ss
    → c.legacy_v0_arithmetic ≡ false
    → c.legacy_zero_symbol_carry ≡ false
    → (payload : List ℕ) × (e' : RangeEncoder) × (c' : RangeCoder) × (encode count state context ss
          e
        ≡ ok payload e')
      × (decode count state context ss payload c ≡ ok ss c')
unfolding new_encoder
decode-encode e c count state context ss h h' inside live room encodable v0 carry =
    let e₀ = fresh e.max_size count state in
    let ready = fresh-IsReady e.max_size count state live in
    let (e₁, written, p) = all-Codes 0 context ss encodable e₀ ready (omega arith) inside room in
    let (payload, closed, hits, bytes, long) =
      finalize_closed_lem e₁ p.is_ready.interval p.longer (require_open_lem e₁ p.is_ready) in
    let step =
      start-InStep c e.max_size count state payload v0 carry long (p.hits payload bytes hits) in
    let (c', read, _, _) = p.reads payload _ bytes hits step in
    (
      payload,
      record e₁ { finalized = true },
      c',
      >>=-ok (reset_counts (count ∷ []) state >> write_all 0 context ss) (λ _. finalize_closed)
            (>>=-ok (reset_counts (count ∷ []) state) (λ _. write_all 0 context ss)
                (reset_counts_lem e count state h h')
              ∙ written)
          ∙ closed,
      >>=-ok (reset_one payload count state) (λ _. read_all 0 context ss)
            (reset_one_lem c payload count state h h' long)
          ∙ read,
    )
