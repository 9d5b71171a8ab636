-- ===== src/Codec/Configuration/StateSetsRoundTrip.antt =====
-- The sets of initial states through a channel of symbols.
use mffv.Common.{
  ℕ, suc, ◌+◌, ◌*◌, ◌≤◌, ◌≡◌, refl, arith, List, [], ◌∷◌, false, not, ◌==◌, if◌then◌else◌, length,
}
use mffv.Common.Status.{return, >>=-assoc}
use mffv.Syntax.Stream.{InitialState, InitialStateSet, QuantTableSet}
use mffv.Codec.Symbols.{SymbolReader, SymbolWriter, Channel}
use mffv.Codec.Symbols.Steps.{then_bool}
use mffv.Codec.Configuration.Parser.{first_prediction, parse_contexts, parse_initial_states}
use mffv.Codec.Configuration.Writer.{
  any_state_count_wrong, write_contexts, write_initial_state_set, write_state_sets, write_uncoded,
}
use mffv.Codec.Configuration.StatesRoundTrip.{AllStates, consed, contexts_coded}

-- States of a byte in every set.
abbrev pub AllStateSets : List InitialStateSet → Type 0
AllStateSets [] = Unit {0}
AllStateSets (state_set ∷ state_sets) =
    AllStates first_prediction state_set.contexts × AllStateSets state_sets

-- The bytes that the sets may need.
abbrev pub states_room : List InitialStateSet → ℕ
states_room [] = 0
states_room (state_set ∷ state_sets) =
    127 + (4064 * length state_set.contexts + states_room state_sets)

-- A set without states for each table set.
abbrev pub blank_sets : List QuantTableSet → List InitialStateSet
blank_sets [] = []
blank_sets (table_set ∷ table_sets) = record { contexts = [] } ∷ blank_sets table_sets

count_fits :
    (state_set : InitialStateSet) (table_set : QuantTableSet) (state_sets : List InitialStateSet)
    (table_sets : List QuantTableSet)
    → any_state_count_wrong (state_set ∷ state_sets) (table_set ∷ table_sets) ≡ false
    → (any_state_count_wrong state_sets table_sets ≡ false)
      × ((length state_set.contexts == 0) ≡ false
          → length state_set.contexts ≡ table_set.context_count)
unfolding any_state_count_wrong
count_fits state_set table_set state_sets table_sets h =
    (ground (arith, h), λ some. ground (arith, h, some))

module _ {W R : Type 0} {writer : SymbolWriter W} {reader : SymbolReader R}
    (channel : Channel writer reader) (wide : 32 ≤ channel.contexts) where
  -- The contexts of a set, behind the bit that announces them.
  contexts_of :
      (contexts : List InitialState) (context_count : ℕ)
      → AllStates first_prediction contexts
      → ((length contexts == 0) ≡ false → length contexts ≡ context_count)
      → channel.Codes
          (if not (length contexts == 0)
            then write_contexts writer contexts first_prediction
            else return tt)
          tt
          (if not (length contexts == 0)
            then parse_contexts reader context_count first_prediction
            else return [])
          contexts
          (4064 * length contexts)
  contexts_of [] context_count states fits = channel.returns tt []
  contexts_of (first ∷ contexts) context_count states fits =
      let some : (suc (length contexts) == 0) ≡ false = ground arith in
      rw (some, ← fits some)
        (contexts_coded channel (first ∷ contexts) first_prediction wide (omega arith) states)

  pub state_sets_coded :
      (state_sets : List InitialStateSet) (table_sets : List QuantTableSet)
      → length state_sets ≡ length table_sets
      → any_state_count_wrong state_sets table_sets ≡ false
      → AllStateSets state_sets
      → channel.Codes
          (write_state_sets writer state_sets)
          tt
          (parse_initial_states reader table_sets)
          state_sets
          (states_room state_sets)
  unfolding write_state_sets write_initial_state_set parse_initial_states
  state_sets_coded [] [] same fits states = channel.returns tt []
  state_sets_coded (state_set ∷ state_sets) (table_set ∷ table_sets) same fits (states, more) =
      let (fits', counted) = count_fits state_set table_set state_sets table_sets fits in
      let coded = not (length state_set.contexts == 0) in
      let contexts =
        if coded then write_contexts writer state_set.contexts first_prediction else return tt in
      let n = 4064 * length state_set.contexts in
      let m = states_room state_sets in
      channel.respects {n = 127 + (n + m)} (omega arith)
        (λ e.
          >>=-assoc (writer.write_bool coded) (λ _. contexts)
            (λ _. write_state_sets writer state_sets) e)
        (λ c. refl)
        (then_bool channel coded _ (n + m) (
          channel.composes contexts (λ _. write_state_sets writer state_sets) _ _ n m
            (contexts_of state_set.contexts table_set.context_count states counted)
            (consed channel state_set
              (state_sets_coded state_sets table_sets (omega (arith, same)) fits' more))))
  state_sets_coded [] (table_set ∷ table_sets) same fits states = absurd (omega (arith, same))
  state_sets_coded (state_set ∷ state_sets) [] same fits states = absurd (omega (arith, same))

  pub uncoded :
      (table_sets : List QuantTableSet)
      → channel.Codes
          (write_uncoded writer table_sets)
          tt
          (parse_initial_states reader table_sets)
          (blank_sets table_sets)
          (127 * length table_sets)
  unfolding write_uncoded parse_initial_states
  uncoded [] = channel.returns tt []
  uncoded (table_set ∷ table_sets) =
      channel.respects {n = 127 + 127 * length table_sets} (omega arith) (λ e. refl) (λ c. refl)
        (then_bool channel false _ (127 * length table_sets)
          (consed channel (record { contexts = [] }) (uncoded table_sets)))
