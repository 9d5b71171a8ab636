-- ===== src/Codec/Symbols.antt =====
-- src/entropy/symbol_reader.hpp and src/entropy/symbol_writer.hpp: the interfaces between the syntax
-- and the entropy coders, and the contract between a writer and its reader.
pub mod RangeChannel
pub mod Steps
use mffv.Common.{ℕ, zero, suc, ◌+◌, ◌*◌, ◌^◌, ◌≤◌, ◌<◌, ◌≡◌, Bool, List, [], ◌∷◌}
use mffv.Common.Int.{ℤ, pos_part, neg_part}
use mffv.Common.Status.{Outcome, ◌>>=◌, return}
use mffv.Range.Transition.{StateTransitionTable}

pub record SymbolReader (R : Type 0) : Type 0 where
  pub read_bool : R → Outcome R Bool
  pub read_unsigned : R → Outcome R ℕ
  pub read_signed : R → Outcome R ℤ
  pub read_signed_in : ℕ → R → Outcome R ℤ
  pub begin_independent_scalar_contexts : ℕ → R → Outcome R (Unit {0})
  pub end_independent_scalar_contexts : R → Outcome R (Unit {0})
  pub set_state_transition : StateTransitionTable → R → Outcome R (Unit {0})
  pub byte_position : R → ℕ

pub record SymbolWriter (W : Type 0) : Type 0 where
  pub write_bool : Bool → W → Outcome W (Unit {0})
  pub write_unsigned : ℕ → W → Outcome W (Unit {0})
  pub write_signed : ℤ → W → Outcome W (Unit {0})
  pub write_unsigned_in : ℕ → ℕ → W → Outcome W (Unit {0})
  pub write_signed_in : ℕ → ℤ → W → Outcome W (Unit {0})
  pub begin_independent_scalar_contexts : ℕ → W → Outcome W (Unit {0})
  pub end_independent_scalar_contexts : W → Outcome W (Unit {0})

-- A predicate on programs of the two sides: with room for `n` bytes the writing program succeeds
-- with `a`, and the reading program reads `b` back.
pub record Channel {W R : Type 0} (writer : SymbolWriter W) (reader : SymbolReader R) : Type 1 where
  pub Codes : {A B : Type 0} → (W → Outcome W A) → A → (R → Outcome R B) → B → ℕ → Type 0
  pub returns : {A B : Type 0} (a : A) (b : B) → Codes (return a) a (return b) b 0
  pub composes :
      {A A' B B' : Type 0} (w : W → Outcome W A) (f : A → W → Outcome W A') (r : R → Outcome R B)
      (k : B → R → Outcome R B') {a : A} {a' : A'} {b : B} {b' : B'} (n m : ℕ)
      → Codes w a r b n
      → Codes (f a) a' (k b) b' m
      → Codes (w >>= f) a' (r >>= k) b' (n + m)
  pub respects :
      {A B : Type 0} {w w' : W → Outcome W A} {r r' : R → Outcome R B} {a : A} {b : B} {n m : ℕ}
      → n ≤ m
      → ((e : W) → w' e ≡ w e)
      → ((c : R) → r' c ≡ r c)
      → Codes w a r b n
      → Codes w' a r' b m
  -- A reading program that notes where it starts.
  pub locates :
      {A B : Type 0} {w : W → Outcome W A} (r : ℕ → R → Outcome R B) {a : A} {b : B} {n : ℕ}
      → ((offset : ℕ) → Codes w a (r offset) b n)
      → Codes w a (λ c. r (reader.byte_position c) c) b n
  -- The contexts that a signed value may name.
  pub contexts : ℕ
  pub bool_coded : (v : Bool) → Codes (writer.write_bool v) tt reader.read_bool v 127
  pub unsigned_coded :
      (v : ℕ) → v < 2 ^ 63 → Codes (writer.write_unsigned v) tt reader.read_unsigned v 127
  pub signed_coded :
      (v : ℤ)
      → pos_part v < 2 ^ 63
      → neg_part v < 2 ^ 63
      → Codes (writer.write_signed v) tt reader.read_signed v 127
  pub signed_in_coded :
      (context : ℕ) (v : ℤ)
      → context < contexts
      → pos_part v < 2 ^ 63
      → neg_part v < 2 ^ 63
      → Codes (writer.write_signed_in context v) tt (reader.read_signed_in context) v 127
