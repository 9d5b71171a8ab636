-- ===== src/Codec/Configuration/Contexts.antt =====
-- The independent contexts that a quantization table is coded in.
use mffv.Common.{ℕ}
use mffv.Common.Status.{Outcome}
use mffv.Codec.Symbols.{SymbolReader, SymbolWriter, Channel}
use mffv.Codec.Configuration.Tables.{read_in_contexts, write_in_contexts}

-- Programs that the inner channel relates are related by the outer one when they run in contexts
-- of their own.
pub record Nested {W R : Type 0} {writer : SymbolWriter W} {reader : SymbolReader R}
    (inner outer : Channel writer reader) : Type 1 where
  pub scoped :
      {A B : Type 0} {w : W → Outcome W A} {r : R → Outcome R B} {a : A} {b : B} {n : ℕ}
      → inner.Codes w a r b n
      → outer.Codes (write_in_contexts writer w) a (read_in_contexts reader r) b n
