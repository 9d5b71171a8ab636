-- ===== src/Codec/Configuration/StatesRoundTrip.antt =====
-- The state transition table and the initial states through a channel of symbols.
use mffv.Common.{
  ℕ, ◌+◌, ◌*◌, ◌%◌, ◌^◌, ◌≤◌, ◌<◌, ◌≡◌, refl, arith, List, [], ◌∷◌, false, ◌||◌, length,
}
use mffv.Common.Int.{pos, ◌+ℤ◌, ◌-ℤ◌, pos_part, neg_part, ltb_ℤ}
use mffv.Common.Status.{ErrorCode, Outcome, ◌>>=◌, return, >>=-tt}
use mffv.Syntax.Stream.{InitialState}
use mffv.Codec.Symbols.{SymbolReader, SymbolWriter, Channel}
use mffv.Codec.Symbols.Steps.{reader_passes, then_signed}
use mffv.Codec.Configuration.Parser.{parse_contexts, parse_state, parse_transitions, to_byte}
use mffv.Codec.Configuration.Writer.{write_contexts, write_initial_state, write_transitions}

-- Bytes of equal number.
abbrev pub AreBytes : List ℕ → List ℕ → Type 0
AreBytes [] [] = Unit {0}
AreBytes (a ∷ as') (b ∷ bs) = (a < 256) × (b < 256) × AreBytes as' bs
AreBytes [] (b ∷ bs) = ⊥
AreBytes (a ∷ as') [] = ⊥

-- Contexts of 32 states each.
abbrev pub AllStates : InitialState → List InitialState → Type 0
AllStates prediction [] = Unit {0}
AllStates prediction (states ∷ contexts) = AreBytes states prediction × AllStates states contexts

same_length : (a b : List ℕ) → AreBytes a b → length a ≡ length b
same_length [] [] h = refl
same_length (a ∷ as') (b ∷ bs) (h, h', more) = omega (arith, same_length as' bs more)
same_length [] (b ∷ bs) h = absurd h
same_length (a ∷ as') [] h = absurd h

delta_small :
    (a b : ℕ)
    → a < 256
    → b < 256
    → (pos_part (pos a -ℤ pos b) < 2 ^ 63) × (neg_part (pos a -ℤ pos b) < 2 ^ 63)
unfolding ◌-ℤ◌
delta_small a b h h' = (ground (arith, h), ground (arith, h'))

delta_back : (a b : ℕ) → pos b +ℤ (pos a -ℤ pos b) ≡ pos a
unfolding ◌+ℤ◌ ◌-ℤ◌
delta_back a b = ground arith

delta_byte : (a b : ℕ) → a < 256 → b < 256 → (b + to_byte (pos a -ℤ pos b)) % 256 ≡ a
unfolding to_byte ◌-ℤ◌
delta_byte a b h h' = ground (arith, h, h')

module _ {W R : Type 0} {writer : SymbolWriter W} {reader : SymbolReader R}
    (channel : Channel writer reader) where
  -- A list that is read behind a first value.
  pub consed :
      {A : Type 0} {w : W → Outcome W (Unit {0})} {r : R → Outcome R (List A)} (x : A) {xs : List A}
      {n : ℕ}
      → channel.Codes w tt r xs n
      → channel.Codes w tt (r >>= λ ys. return (x ∷ ys)) (x ∷ xs) n
  consed {w = w} {r = r} x {xs} {n} h =
      channel.respects {n = n + 0} (omega arith) (λ e. >>=-tt w e) (λ c. refl)
        (channel.composes w (λ _. return tt) r (λ ys. return (x ∷ ys)) n 0 h
          (channel.returns tt (x ∷ xs)))

  pub transitions_coded :
      (states defaults : List ℕ)
      → AreBytes states defaults
      → channel.Codes
          (write_transitions writer states defaults)
          tt
          (parse_transitions reader defaults)
          states
          (127 * length states)
  unfolding write_transitions parse_transitions
  transitions_coded [] [] h = channel.returns tt []
  transitions_coded (state ∷ states) (default ∷ defaults) (h, h', more) =
      let back = delta_back state default in
      let small = delta_small state default h h' in
      let inside : (ltb_ℤ (pos state) (pos 0) || ltb_ℤ (pos 255) (pos state)) ≡ false =
        ground (arith, h) in
      channel.respects {n = 127 + 127 * length states} (omega arith) (λ e. refl) (λ c. refl)
        (then_signed channel (pos state -ℤ pos default) _ (127 * length states) small.0 small.1 (
          rw back (
            reader_passes channel ErrorCode.syntax_error _ inside
              (consed state (transitions_coded states defaults more)))))
  transitions_coded [] (default ∷ defaults) h = absurd h
  transitions_coded (state ∷ states) [] h = absurd h

  pub state_coded :
      (state_index : ℕ) (states predictions : InitialState)
      → AreBytes states predictions
      → state_index + length states ≤ channel.contexts
      → channel.Codes
          (write_initial_state writer state_index states predictions)
          tt
          (parse_state reader state_index predictions)
          states
          (127 * length states)
  unfolding write_initial_state parse_state
  state_coded state_index [] [] h inside = channel.returns tt []
  state_coded state_index (state ∷ states) (prediction ∷ predictions) (h, h', more) inside =
      let back = delta_byte state prediction h h' in
      let small = delta_small state prediction h h' in
      let delta = pos state -ℤ pos prediction in
      channel.respects {n = 127 + 127 * length states} (omega arith) (λ e. refl) (λ c. refl)
        (channel.composes (writer.write_signed_in state_index delta) _
          (reader.read_signed_in state_index) _ 127 (127 * length states)
          (channel.signed_in_coded state_index delta (omega (arith, inside)) small.0 small.1)
          (rw back (
            consed state
              (state_coded (state_index + 1) states predictions more (omega (arith, inside))))))
  state_coded state_index [] (prediction ∷ predictions) h inside = absurd h
  state_coded state_index (state ∷ states) [] h inside = absurd h

  pub contexts_coded :
      (contexts : List InitialState) (prediction : InitialState)
      → length prediction ≤ channel.contexts
      → length prediction ≤ 32
      → AllStates prediction contexts
      → channel.Codes
          (write_contexts writer contexts prediction)
          tt
          (parse_contexts reader (length contexts) prediction)
          contexts
          (4064 * length contexts)
  unfolding write_contexts parse_contexts
  contexts_coded [] prediction inside short h = channel.returns tt []
  contexts_coded (states ∷ contexts) prediction inside short (h, more) =
      let same = same_length states prediction h in
      channel.respects {n = 127 * length states + 4064 * length contexts}
        (omega (arith, same, short)) (λ e. refl) (λ c. refl)
        (channel.composes (write_initial_state writer 0 states prediction) _
          (parse_state reader 0 prediction) _ (127 * length states) (4064 * length contexts)
          (state_coded 0 states prediction h (omega (arith, same, inside)))
          (consed states (
            contexts_coded contexts states (omega (arith, same, inside))
              (omega (arith, same, short)) more)))
