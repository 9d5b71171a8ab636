-- ===== src/Codec/Configuration/EntropyRoundTrip.antt =====
-- The entropy mode of a configuration, with the transitions of a custom range code.
use mffv.Common.{
  ◌+◌, ◌*◌, ◌≡◌, refl, arith, ◌++◌, true, false, if◌then◌else◌, length, take, drop, sym, Bool-cases,
  inl, inr,
}
use mffv.Common.Status.{◌>>◌, return, >>=-tt}
use mffv.Range.Transition.{StateTransitionTable, default_state_transition}
use mffv.Syntax.Stream.{EntropyMode, StreamParameters, is_range}
use mffv.Codec.Symbols.{SymbolReader, SymbolWriter, Channel}
use mffv.Codec.Symbols.Steps.{then_unsigned}
use mffv.Codec.Configuration.Parser.{parse_entropy_mode, parse_transitions}
use mffv.Codec.Configuration.Writer.{
  write_transitions, has_custom_state_transition, write_entropy_mode,
}
use mffv.Codec.Configuration.StatesRoundTrip.{AreBytes, transitions_coded}
use mathlib.Core.Path.{subst}

-- The transitions that the parser gives a stream.
abbrev pub decoded_transition : StreamParameters → StateTransitionTable
decoded_transition stream =
    if has_custom_state_transition stream then stream.state_transition else default_state_transition

mode_of : (mode : EntropyMode) → is_range mode ≡ false → mode ≡ EntropyMode.golomb_rice
unfolding is_range
mode_of EntropyMode.golomb_rice h = refl
mode_of EntropyMode.range h = cc

range_of : (mode : EntropyMode) → is_range mode ≡ true → mode ≡ EntropyMode.range
unfolding is_range
range_of EntropyMode.golomb_rice h = cc
range_of EntropyMode.range h = refl

not_custom :
    (stream : StreamParameters)
    → is_range stream.entropy_mode ≡ false
    → has_custom_state_transition stream ≡ false
unfolding has_custom_state_transition
not_custom stream h = rw h refl

module _ {W R : Type 0} {writer : SymbolWriter W} {reader : SymbolReader R}
    (channel : Channel writer reader) where
  -- The three kinds of entropy coding.
  golomb_coded :
      (s : StreamParameters)
      → channel.Codes
          (writer.write_unsigned 0 >> return tt)
          tt
          (parse_entropy_mode reader s)
          (record s { entropy_mode = EntropyMode.golomb_rice }, false)
          127
  unfolding parse_entropy_mode
  golomb_coded s =
      then_unsigned channel 0 _ 0 (omega arith)
        (channel.returns tt (record s { entropy_mode = EntropyMode.golomb_rice }, false))

  range_coded :
      (s : StreamParameters)
      → channel.Codes
          (writer.write_unsigned 1 >> return tt)
          tt
          (parse_entropy_mode reader s)
          (record s { entropy_mode = EntropyMode.range }, false)
          127
  unfolding parse_entropy_mode
  range_coded s =
      then_unsigned channel 1 _ 0 (omega arith)
        (channel.returns tt (record s { entropy_mode = EntropyMode.range }, false))

  custom_coded :
      (s : StreamParameters) (states : StateTransitionTable)
      → AreBytes states (drop 1 s.state_transition)
      → channel.Codes
          (writer.write_unsigned 2 >> write_transitions writer states (drop 1 s.state_transition))
          tt
          (parse_entropy_mode reader s)
          (
            record s {
              entropy_mode = EntropyMode.range;
              state_transition = take 1 s.state_transition ++ states;
            },
            true,
          )
          (127 + 127 * length states)
  unfolding parse_entropy_mode
  custom_coded s states bytes = then_unsigned channel 2 _ (127 * length states) (omega arith) (
      channel.respects {n = 127 * length states + 0} (omega arith)
        (λ e. >>=-tt (write_transitions writer states (drop 1 s.state_transition)) e) (λ c. refl)
        (channel.composes _ (λ _. return tt) (parse_transitions reader (drop 1 s.state_transition))
          _ (127 * length states) 0
          (transitions_coded channel states (drop 1 s.state_transition) bytes)
          (channel.returns tt _)))

  pub entropy_coded :
      (s stream : StreamParameters)
      → AreBytes (drop 1 stream.state_transition) (drop 1 default_state_transition)
      → take 1 default_state_transition ++ drop 1 stream.state_transition ≡ stream.state_transition
      → channel.Codes
          (write_entropy_mode writer stream)
          tt
          (parse_entropy_mode reader (record s { state_transition = default_state_transition }))
          (
            record s {
              entropy_mode = stream.entropy_mode;
              state_transition = decoded_transition stream;
            },
            has_custom_state_transition stream,
          )
          (127 + 127 * length (drop 1 stream.state_transition))
  unfolding write_entropy_mode
  entropy_coded s stream bytes first =
      let start = record s { state_transition = default_state_transition } in
      let states = drop 1 stream.state_transition in
      elim (Bool-cases (is_range stream.entropy_mode)) [
        | inl range ↦ elim (Bool-cases (has_custom_state_transition stream)) [
          | inl custom ↦
              let back = sym (range_of stream.entropy_mode range) in
              rw (range, custom)
                (subst
                  (λ (t : StreamParameters).
                    channel.Codes
                      (writer.write_unsigned 2
                        >> write_transitions writer states (drop 1 default_state_transition))
                      tt (parse_entropy_mode reader start) (t, true) (127 + 127 * length states))
                  (λ i. record s { entropy_mode = back i; state_transition = first i })
                  (custom_coded start states bytes))
          | inr plain ↦
              rw (range, plain)
                (channel.respects {n = 127} (omega arith) (λ e. refl) (λ c. refl)
                  (subst
                    (λ (mode : EntropyMode).
                      channel.Codes (writer.write_unsigned 1 >> return tt) tt
                        (parse_entropy_mode reader start)
                        (record start { entropy_mode = mode }, false) 127)
                    (sym (range_of stream.entropy_mode range)) (range_coded start)))
        ]
        | inr golomb ↦
            let plain = not_custom stream golomb in
            rw (golomb, plain)
              (channel.respects {n = 127} (omega arith) (λ e. refl) (λ c. refl)
                (subst
                  (λ (mode : EntropyMode).
                    channel.Codes (writer.write_unsigned 0 >> return tt) tt
                      (parse_entropy_mode reader start)
                      (record start { entropy_mode = mode }, false) 127)
                  (sym (mode_of stream.entropy_mode golomb)) (golomb_coded start)))
      ]
