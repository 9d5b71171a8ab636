-- ===== src/Codec/Symbols/Steps.antt =====
-- Steps of programs that a channel relates: one value and what follows it, and the tests between.
use mffv.Common.{ℕ, ◌+◌, ◌^◌, ◌<◌, ◌≡◌, refl, arith, Bool, false}
use mffv.Common.Int.{ℤ, pos_part, neg_part}
use mffv.Common.Status.{ErrorCode, Outcome, ◌>>=◌, ◌>>◌, return, refuse, >>=-tt}
use mffv.Codec.Symbols.{SymbolReader, SymbolWriter, Channel}

module _ {W R : Type 0} {writer : SymbolWriter W} {reader : SymbolReader R}
    (channel : Channel writer reader) where
  -- One value, and what follows it.
  pub then_unsigned :
      {A B : Type 0} (v : ℕ) {w : W → Outcome W A} (k : ℕ → R → Outcome R B) (m : ℕ) {a : A} {b : B}
      → v < 2 ^ 63
      → channel.Codes w a (k v) b m
      → channel.Codes (writer.write_unsigned v >> w) a (reader.read_unsigned >>= k) b (127 + m)
  then_unsigned v {w} k m h rest =
      channel.composes (writer.write_unsigned v) (λ _. w) reader.read_unsigned k 127 m
        (channel.unsigned_coded v h) rest

  pub then_bool :
      {A B : Type 0} (v : Bool) {w : W → Outcome W A} (k : Bool → R → Outcome R B) (m : ℕ) {a : A}
      {b : B}
      → channel.Codes w a (k v) b m
      → channel.Codes (writer.write_bool v >> w) a (reader.read_bool >>= k) b (127 + m)
  then_bool v {w} k m rest =
      channel.composes (writer.write_bool v) (λ _. w) reader.read_bool k 127 m
        (channel.bool_coded v) rest

  pub then_signed :
      {A B : Type 0} (v : ℤ) {w : W → Outcome W A} (k : ℤ → R → Outcome R B) (m : ℕ) {a : A} {b : B}
      → pos_part v < 2 ^ 63
      → neg_part v < 2 ^ 63
      → channel.Codes w a (k v) b m
      → channel.Codes (writer.write_signed v >> w) a (reader.read_signed >>= k) b (127 + m)
  then_signed v {w} k m h h' rest =
      channel.composes (writer.write_signed v) (λ _. w) reader.read_signed k 127 m
        (channel.signed_coded v h h') rest

  -- The last value, with nothing behind it on the writing side.
  pub last_unsigned :
      {B : Type 0} (v : ℕ) (k : ℕ → R → Outcome R B) {b : B}
      → v < 2 ^ 63
      → channel.Codes (return tt) tt (k v) b 0
      → channel.Codes (writer.write_unsigned v) tt (reader.read_unsigned >>= k) b 127
  last_unsigned v k h rest =
      channel.respects {n = 127 + 0} (omega arith) (λ e. >>=-tt (writer.write_unsigned v) e)
        (λ c. refl) (then_unsigned v k 0 h rest)

  -- A test of the reader, or of the writer, that lets the value pass.
  pub reader_passes :
      {A B : Type 0} (code : ErrorCode) (refused : Bool) {w : W → Outcome W A} {k : R → Outcome R B}
      {a : A} {b : B} {m : ℕ}
      → refused ≡ false
      → channel.Codes w a k b m
      → channel.Codes w a (refuse code refused >> k) b m
  reader_passes code refused h rest =
      channel.respects (omega arith) (λ e. refl) (λ c. rw h refl) rest

  pub writer_passes :
      {A B : Type 0} (code : ErrorCode) (refused : Bool) {w : W → Outcome W A} {k : R → Outcome R B}
      {a : A} {b : B} {m : ℕ}
      → refused ≡ false
      → channel.Codes w a k b m
      → channel.Codes (refuse code refused >> w) a k b m
  writer_passes code refused h rest =
      channel.respects (omega arith) (λ e. rw h refl) (λ c. refl) rest

  -- A reader that hands its value on, as the code does.
  pub then_return :
      {A B B' : Type 0} {w : W → Outcome W A} {r : R → Outcome R B} (f : B → B') {a : A} {b : B}
      {m : ℕ}
      → channel.Codes w a r b m
      → channel.Codes (w >>= return) a (r >>= λ b. return (f b)) (f b) (m + 0)
  then_return {w = w} {r = r} f {a} {b} {m} h =
      channel.composes w return r (λ b. return (f b)) m 0 h (channel.returns a (f b))
