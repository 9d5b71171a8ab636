-- ===== src/Codec/Configuration/RecordRoundTrip.antt =====
-- Whole configuration records, bytes and CRC: write of
-- src/codec/configuration_record_writer.cpp and parse of src/codec/configuration_record_parser.cpp.
use mffv.Common.{
  ℕ, ◌+◌, ◌-◌, ◌≤◌, ◌≡◌, refl, ◌∙◌, sym, arith, List, [], ◌∷◌, Bool, true, false, length, ◌==◌,
  append-nil, if◌then◌else◌,
}
use mffv.Common.Status.{ok, Outcome, ◌>>=◌, ◌>>◌, return, >>=-assoc, >>=-ok}
use mathlib.Core.Path.{subst}
use mffv.Range.Coder.{RangeCoder, new_coder, reset_one, require_initialized, set_state_transition}
use mffv.Range.Encoder.{RangeEncoder, new_encoder, require_open, reset_counts}
use mffv.Range.Contexts.{default_initial_state}
use mffv.Range.Finish.{finalize}
use mffv.Range.Read.{read_unsigned}
use mffv.Range.Write.{write_unsigned}
use mffv.Range.Steps.{IsBytes}
use mffv.Range.Follow.{Hits}
use mffv.Range.Codes.{IsCoded}
use mffv.Range.RoundTrip.{require_open_lem, write_unsigned-Codes}
use mffv.Range.Reset.{fresh, fresh-IsReady, reset_counts_lem, reset_one_lem, start-InStep}
use mffv.Syntax.Stream.{StreamParameters}
use mffv.Codec.Symbols.RangeChannel.{range_channel, range_reader, range_writer}
use mffv.Codec.Configuration.RangeContexts.{range_channel-Nested}
use mffv.Codec.Configuration.Accepted.{IsAccepted, accepted_anywhere, validate_initial_profile_lem}
use mffv.Codec.Configuration.Parser.{new_stream, parse_symbols, parse_version, parse_versioned}
use mffv.Codec.Configuration.Parser
use mffv.Codec.Configuration.Writer.{
  has_custom_state_transition, validate_initial_profile, write_parameters, write_symbols,
  write_versioned,
}
use mffv.Codec.Configuration.ParameterSteps.{version_coded}
use mffv.Codec.Configuration.RoundTrip.{
  IsWritable, decoded, parameters_room, versioned, versioned_coded,
}
use mffv.Codec.Configuration.Record.{append_crc_parity, check_record, state_count}
use mffv.Codec.Configuration.Record
use mffv.Codec.Configuration.RecordParity.{
  Hits-append, append_crc_parity_lem, check_record_lem, length-with_crc, with_crc, with_crc-IsBytes,
}
use mffv.Codec.Configuration.RecordVersion.{same_version}

-- The encoder after the version and after the rest, and what each step leaves.
record IsWriting (stream : StreamParameters) (n max_size : ℕ) (e₁ e₂ : RangeEncoder) : Type 0 where
  version_written : write_unsigned 0 0 3 (fresh max_size 32 128) ≡ ok tt e₁
  rest_written : write_versioned range_writer stream e₁ ≡ ok tt e₂
  version_coded :
      IsCoded (parse_version range_reader new_stream) versioned 127 (fresh max_size 32 128) e₁
  rest_coded :
      IsCoded
        (parse_versioned range_reader versioned)
        (decoded stream, has_custom_state_transition stream)
        n
        e₁
        e₂

writing :
    (stream : StreamParameters) (runs : List (List (List ℕ))) (max_size : ℕ)
    → IsWritable stream runs
    → 2 + parameters_room stream runs ≤ max_size
    → (e₁ : RangeEncoder) × (e₂ : RangeEncoder) × IsWriting stream
        (parameters_room stream runs - 127)
        max_size
        e₁
        e₂
unfolding range_channel new_encoder
writing stream runs max_size h room =
    let a = validate_initial_profile_lem stream tt h.accepted in
    let ready = fresh-IsReady max_size 32 128 (omega arith, omega arith) in
    let (e₁, done, p) =
      version_coded (range_channel 31) new_stream (fresh max_size 32 128) ready (omega arith)
        (omega arith) (omega (arith, room)) in
    let (e₂, done', q) =
      versioned_coded (range_channel 0) (range_channel 31) (range_channel-Nested 31) (omega arith)
        stream runs a h e₁ p.is_ready (rw p.same_sizes (omega arith))
        (rw p.same_sizes (omega arith)) (omega (arith, room, p.grown, p.same_limit)) in
    (
      e₁,
      e₂,
      record { version_written = done; rest_written = done'; version_coded = p; rest_coded = q },
    )

module _ (stream : StreamParameters) (n max_size : ℕ) (e₁ e₂ : RangeEncoder)
    (w : IsWriting stream n max_size e₁ e₂) where
  -- The record is the bytes of the encoder and their CRC.
  record_written :
      (e : RangeEncoder)
      → IsAccepted stream
      → e.max_size ≡ max_size
      → length e₂.low_bytes + 4 ≤ max_size
      → Record.write stream e ≡ ok (with_crc e₂.low_bytes) (record e₂ { finalized = true })
  unfolding Record.write write_parameters write_symbols finalize
  record_written e a same room =
      let parameters : write_parameters range_writer stream (fresh e.max_size 32 128) ≡ ok tt e₂ =
        rw same (
          >>=-ok (validate_initial_profile stream) (λ _. write_symbols range_writer stream)
            (accepted_anywhere stream a (fresh max_size 32 128))
          ∙ >>=-ok (write_unsigned 0 0 3) (λ _. write_versioned range_writer stream)
              w.version_written
          ∙ w.rest_written) in
      >>=-ok (validate_initial_profile stream) _ (accepted_anywhere stream a e)
      ∙ >>=-ok (reset_counts (state_count ∷ []) default_initial_state) _
          (reset_counts_lem e 32 128 (omega arith) (omega arith))
      ∙ >>=-ok (write_parameters range_writer stream) _ parameters
      ∙ >>=-ok finalize (append_crc_parity e.max_size)
          (>>=-ok require_open _ (require_open_lem e₂ w.rest_coded.is_ready))
      ∙ append_crc_parity_lem e₂.low_bytes w.rest_coded.is_ready.interval.bytes e.max_size _
          (rw same room)

  -- The probe reads the version.
  version_read :
      (record_bytes : List ℕ)
      → 129 ≤ max_size
      → IsBytes record_bytes
      → 2 ≤ length record_bytes
      → Hits e₂ record_bytes
      → (c : RangeCoder) × ((reset_one record_bytes 1 default_initial_state >> read_unsigned 0 0)
            new_coder
          ≡ ok 3 c)
  unfolding new_encoder new_coder
  version_read record_bytes room bytes long hits =
      let (e', done, p) =
        write_unsigned-Codes 0 0 3 (omega arith) (fresh max_size 1 128)
          (fresh-IsReady max_size 1 128 (omega arith, omega arith)) (omega arith) (omega arith)
          (omega (arith, room)) in
      let same = same_version max_size e₁ e' w.version_written done in
      let h = w.rest_coded.hits record_bytes bytes hits in
      let hits' : Hits e' record_bytes = record {
        from_low = rw (← same.1) h.from_low;
        below_high = rw (← same.1, ← same.0) h.below_high;
      } in
      let step =
        start-InStep new_coder max_size 1 128 record_bytes refl refl long
          (p.hits record_bytes bytes hits') in
      let (c, read, _, _) = p.reads record_bytes _ bytes hits' step in
      (
        c,
        >>=-ok (reset_one record_bytes 1 default_initial_state) (λ _. read_unsigned 0 0)
              (reset_one_lem new_coder record_bytes 1 128 (omega arith) (omega arith) long)
            ∙ read,
      )

  -- The second reader reads all of it.
  payload_read :
      (payload : List ℕ)
      → IsBytes payload
      → 2 ≤ length payload
      → Hits e₂ payload
      → (c : RangeCoder) × ((reset_one payload state_count default_initial_state
              >> Parser.parse range_reader)
            new_coder
          ≡ ok (decoded stream) c)
  unfolding new_encoder new_coder Parser.parse parse_symbols set_state_transition
  payload_read payload bytes long hits =
      let h = w.rest_coded.hits payload bytes hits in
      let step =
        start-InStep new_coder max_size 32 128 payload refl refl long
          (w.version_coded.hits payload bytes h) in
      let (c₁, read, step₁, _) = w.version_coded.reads payload _ bytes h step in
      let (c₂, read', step₂, _) = w.rest_coded.reads payload c₁ bytes hits step₁ in
      let custom = has_custom_state_transition stream in
      let (c₃, done) = last_call custom c₂ step₂.follows.initialized in
      (
        c₃,
        >>=-ok (reset_one payload state_count default_initial_state)
              (λ _. Parser.parse range_reader)
              (reset_one_lem new_coder payload 32 128 (omega arith) (omega arith) long)
            ∙ >>=-ok (parse_symbols range_reader) _ (
                >>=-ok (parse_version range_reader new_stream) (parse_versioned range_reader) read
                ∙ read')
            ∙ done,
      )
    where
      last_call :
          (custom : Bool) (c : RangeCoder)
          → c.initialized ≡ true
          → (c' : RangeCoder) × (((if custom
                    then set_state_transition (decoded stream).state_transition
                    else return tt)
                  >> return (decoded stream))
                c
              ≡ ok (decoded stream) c')
      last_call true c ready = (
        record c { state_transition = (decoded stream).state_transition },
        unfold require_initialized in rw ready refl,
      )
      last_call false c ready = (c, refl)

-- What the parser does with the version of the probe.
abbrev behind_version : List ℕ → ℕ → RangeCoder → Outcome RangeCoder StreamParameters
behind_version record_bytes version = check_record version record_bytes >>= λ payload probe.
    (reset_one payload state_count default_initial_state >> Parser.parse range_reader) new_coder

-- Any encoder whose buffer has room for the parameters, the first two bytes and the CRC writes a
-- configuration record of a stream that the checks of the writer accept, whose tables are made of
-- runs, whose states and transitions are bytes, whose first transition is the default one and
-- whose slice grid is below 2^32; parsing the record succeeds and gives the stream without its
-- dimensions, with a set of initial states for each table set and with the default transitions
-- where none are coded.
pub parse-write :
    (stream : StreamParameters) (runs : List (List (List ℕ))) (e : RangeEncoder)
    → IsWritable stream runs
    → 6 + parameters_room stream runs ≤ e.max_size
    → (record_bytes : List ℕ) × (e' : RangeEncoder) × (c : RangeCoder) × (Record.write stream e
        ≡ ok record_bytes e')
      × (Record.parse record_bytes ≡ ok (decoded stream) c)
unfolding Record.parse
parse-write stream runs e h room =
    let a = validate_initial_profile_lem stream tt h.accepted in
    let n = parameters_room stream runs - 127 in
    let (e₁, e₂, w) = writing stream runs e.max_size h (omega (arith, room)) in
    let payload = e₂.low_bytes in
    let bytes = w.rest_coded.is_ready.interval.bytes in
    let long : 2 ≤ length payload = omega (arith, w.version_coded.longer, w.rest_coded.longer) in
    let small : length payload + 4 ≤ e.max_size =
      omega (arith, room, w.version_coded.grown, w.rest_coded.grown) in
    let record_bytes = with_crc payload in
    let size = length-with_crc payload bytes in
    let (probe, version_3) =
      version_read stream n e.max_size e₁ e₂ w record_bytes (omega (arith, room))
        (with_crc-IsBytes payload bytes) (omega (arith, size, long))
        (Hits-append e₂ _ w.rest_coded.is_ready.interval) in
    let (c, done) =
      payload_read stream n e.max_size e₁ e₂ w payload bytes long
        (subst (Hits e₂) (append-nil payload) (Hits-append e₂ [] w.rest_coded.is_ready.interval)) in
    let nonempty : (length record_bytes == 0) ≡ false = ground (arith, size) in
    (
      record_bytes,
      record e₂ { finalized = true },
      c,
      record_written stream n e.max_size e₁ e₂ w e a refl small,
      rw nonempty (
          sym (
            >>=-assoc (reset_one record_bytes 1 default_initial_state) (λ _. read_unsigned 0 0)
              (behind_version record_bytes) new_coder)
          ∙ >>=-ok (reset_one record_bytes 1 default_initial_state >> read_unsigned 0 0)
              (behind_version record_bytes) version_3
          ∙ >>=-ok (check_record 3 record_bytes) _ (check_record_lem payload bytes probe)
          ∙ done),
    )
