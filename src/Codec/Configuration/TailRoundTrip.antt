-- ===== src/Codec/Configuration/TailRoundTrip.antt =====
-- What a configuration has behind its tables: the initial states and the two flags.
use mffv.Common.{
  ℕ, ◌+◌, ◌*◌, ◌^◌, ◌≤◌, ◌<◌, ◌≡◌, refl, arith, Bool, true, false, ltb, ◌==◌, if◌then◌else◌, length,
  Bool-cases, inl, inr,
}
use mffv.Common.Int.{pos}
use mffv.Common.Status.{ErrorCode, ◌>>◌, return}
use mffv.Syntax.Stream.{StreamParameters}
use mffv.Codec.Symbols.{SymbolReader, SymbolWriter, Channel}
use mffv.Codec.Symbols.Steps.{then_unsigned, last_unsigned, reader_passes}
use mffv.Codec.Configuration.Accepted.{IsAccepted}
use mffv.Codec.Configuration.Parser.{parse_initial_states, parse_version3_tail}
use mffv.Codec.Configuration.Writer.{write_state_sets, write_tail, write_uncoded}
use mffv.Codec.Configuration.ParameterSteps.{decoded_states}
use mffv.Codec.Configuration.StateSetsRoundTrip.{
  AllStateSets, state_sets_coded, states_room, uncoded,
}
use mathlib.Core.Path.{subst}

flag_read : (b : Bool) → ((if b then 1 else 0) == 1) ≡ b
flag_read true = refl
flag_read false = refl

flag_allowed : (b : Bool) → ltb 1 (if b then 1 else 0) ≡ false
flag_allowed true = refl
flag_allowed false = refl

flag_small : (b : Bool) → (if b then 1 else 0) < 2 ^ 63
flag_small true = omega arith
flag_small false = omega arith

module _ {W R : Type 0} {writer : SymbolWriter W} {reader : SymbolReader R}
    (channel : Channel writer reader) where
  states_coded :
      (stream : StreamParameters)
      → 32 ≤ channel.contexts
      → IsAccepted stream
      → AllStateSets stream.initial_states
      → channel.Codes
          (if length stream.initial_states == 0
            then write_uncoded writer stream.quant_table_sets
            else write_state_sets writer stream.initial_states)
          tt
          (parse_initial_states reader stream.quant_table_sets)
          (decoded_states stream)
          (1016 + states_room stream.initial_states)
  states_coded stream wide a bytes =
      let few : length stream.quant_table_sets ≤ 8 = ground (arith, a.sets) in
      elim (Bool-cases (length stream.initial_states == 0)) [
        | inl none ↦ rw none (
            channel.respects {n = 127 * length stream.quant_table_sets} (omega (arith, few))
              (λ e. refl) (λ c. refl) (uncoded channel wide stream.quant_table_sets))
        | inr some ↦
            let same : length stream.initial_states ≡ length stream.quant_table_sets =
              ground (arith, a.state_sets, some) in
            rw some (
              channel.respects {n = states_room stream.initial_states} (omega arith) (λ e. refl)
                (λ c. refl)
                (state_sets_coded channel wide stream.initial_states stream.quant_table_sets same
                  a.state_counts bytes))
      ]

  pub tail_coded :
      (s stream : StreamParameters)
      → 32 ≤ channel.contexts
      → IsAccepted stream
      → AllStateSets stream.initial_states
      → channel.Codes
          (write_tail writer stream)
          tt
          (parse_version3_tail reader
            (record s { version = pos 3; quant_table_sets = stream.quant_table_sets }))
          (record s {
            version = pos 3;
            quant_table_sets = stream.quant_table_sets;
            initial_states = decoded_states stream;
            error_status_enabled = stream.error_status_enabled;
            intra_only = stream.intra_only;
          })
          (1270 + states_room stream.initial_states)
  unfolding write_tail parse_version3_tail
  tail_coded s stream wide a bytes =
      let ec : ℕ = if stream.error_status_enabled then 1 else 0 in
      let intra : ℕ = if stream.intra_only then 1 else 0 in
      let restored : tail_of ec intra ≡ tail_of_stream = λ i. record s {
        version = pos 3;
        quant_table_sets = stream.quant_table_sets;
        initial_states = decoded_states stream;
        error_status_enabled = flag_read stream.error_status_enabled i;
        intra_only = flag_read stream.intra_only i;
      } in
      channel.respects {n = 1016 + states_room stream.initial_states + 254} (omega arith)
        (λ e. refl) (λ c. refl)
        (channel.composes _ (λ _. writer.write_unsigned ec >> writer.write_unsigned intra)
          (parse_initial_states reader stream.quant_table_sets) _
          (1016 + states_room stream.initial_states) 254 (states_coded stream wide a bytes)
          (then_unsigned channel ec _ 127 (flag_small stream.error_status_enabled) (
            reader_passes channel ErrorCode.unsupported_feature (ltb 1 ec)
              (flag_allowed stream.error_status_enabled)
              (last_unsigned channel intra _ (flag_small stream.intra_only) (
                reader_passes channel ErrorCode.unsupported_feature (ltb 1 intra)
                  (flag_allowed stream.intra_only)
                  (subst
                    (λ (t : StreamParameters).
                      channel.Codes (return tt) tt (return (tail_of ec intra)) t 0)
                    restored (channel.returns tt (tail_of ec intra))))))))
    where
      tail_of : ℕ → ℕ → StreamParameters
      tail_of ec intra = record s {
        version = pos 3;
        quant_table_sets = stream.quant_table_sets;
        initial_states = decoded_states stream;
        error_status_enabled = ec == 1;
        intra_only = intra == 1;
      }

      tail_of_stream : StreamParameters
      tail_of_stream = record s {
        version = pos 3;
        quant_table_sets = stream.quant_table_sets;
        initial_states = decoded_states stream;
        error_status_enabled = stream.error_status_enabled;
        intra_only = stream.intra_only;
      }
