-- ===== src/Range/Tests.antt =====
-- The theorems on the range coder at concrete inputs.
use mffv.Common.{
  ℕ, ◌+◌, ◌≤◌, ◌<◌, ◌≡◌, refl, arith, true, false, List, [], ◌∷◌, length, some, inl, inr,
}
use mffv.Common.Int.{pos, negsuc, ◌-ℤ◌}
use mffv.Common.Status.{ok}
use mffv.Range.Transition.{default_state_transition}
use mffv.Range.Contexts.{context_at, copy_at}
use mffv.Range.Coder.{new_coder, start_registers}
use mffv.Range.Encoder.{RangeEncoder, new_encoder}
use mffv.Range.Write.{next_state, write_rac, decisions, trial, add_carry, write_symbol}
use mffv.Range.Read.{read_symbol}
use mffv.Range.Finish.{finalize_closed}
use mffv.Range.Prefix.{IsAdded, add_carry_lem, prefix, value}
use mffv.Range.Steps.{IsBytes, IsWritten}
use mffv.Range.Follow.{Hits}
use mffv.Range.Decide.{IsDecided, read_rac-write_rac}
use mffv.Range.Live.{IsLive, write_rac_total}
use mffv.Range.Codes.{IsReady, IsCoded}
use mffv.Range.Trial.{decisions-AllBelow, trial_lem}
use mffv.Range.RoundTrip.{require_open_lem, write_symbol-Codes}
use mffv.Range.Closing.{finalize_closed_lem}
use mffv.Range.Start.{default_table-IsLive}
use mffv.Range.Reset.{fresh, fresh-IsReady, one_bank, start-InStep}
use mffv.Range.Session.{Symbol, unsigned, signed, encode, decode, decode-encode}

abbrev symbols : List Symbol
symbols = unsigned 5 ∷ signed (negsuc 2) ∷ unsigned 0 ∷ signed (pos 300) ∷ []

IsLive-128 : IsLive 128
IsLive-128 = (omega arith, omega arith)

decode-encode_example :
    (payload : _) × (e' : _) × (c' : _) × (encode 2 128 1 symbols (new_encoder 1000)
      ≡ ok payload e')
    × (decode 2 128 1 symbols payload new_coder ≡ ok symbols c')
decode-encode_example =
    decode-encode (new_encoder 1000) new_coder 2 128 1 symbols (omega arith) (omega arith)
      (omega arith) IsLive-128 (unfold new_encoder in omega arith)
      (omega arith, ((omega arith, omega arith), (omega arith, ((omega arith, omega arith), tt))))
      (unfold new_coder in refl) (unfold new_coder in refl)

abbrev start : RangeEncoder
start = fresh 1000 1 128

ready : IsReady start
ready = fresh-IsReady 1000 1 128 IsLive-128

write_rac_total_example :
    (e' : RangeEncoder) × (write_rac 128 true start
      ≡ ok (next_state start.state_transition 128 true) e')
    × IsWritten start 128 true e'
write_rac_total_example =
    write_rac_total start 128 true ready.interval IsLive-128 (unfold new_encoder in omega arith)

add_carry_lem_example : IsAdded 2 0x1ff (1 ∷ 200 ∷ []) (add_carry 2 0x1ff (1 ∷ 200 ∷ []))
add_carry_lem_example = add_carry_lem 2 0x1ff (1 ∷ 200 ∷ []) (omega arith)

finalize_closed_lem_example :
    (payload : List ℕ) × (finalize_closed start ≡ ok payload (record start { finalized = true }))
    × Hits start payload
    × IsBytes payload
    × (2 ≤ length payload)
finalize_closed_lem_example =
    finalize_closed_lem start ready.interval (omega arith) (require_open_lem start ready)

default_table-IsLive_example : IsLive (next_state default_state_transition 8 false)
default_table-IsLive_example = default_table-IsLive 8 false (omega arith, omega arith)

one_context : 0 < length start.scalar.contexts
unfolding copy_at
one_context = omega arith

trial_lem_example :
    (n : ℕ) × (trial default_state_transition
        (decisions true 5 true)
        (context_at start.scalar 0 0)
        0xff00
        0
      ≡ some n)
    × (n ≤ 0 + length (decisions true 5 true))
trial_lem_example =
    trial_lem default_state_transition (decisions true 5 true) (context_at start.scalar 0 0) 0xff00
      0 default_table-IsLive (decisions-AllBelow true 5 true)
      (unfold context_at in ready.live_scalar.full 0 one_context)
      (λ i h. unfold context_at in ready.live_scalar.live 0 i one_context h) (omega arith)
      (omega arith)

write_symbol-Codes_example :
    (e' : RangeEncoder) × (write_symbol 0 0 true 7 true start ≡ ok tt e')
    × IsCoded (read_symbol 0 0 true) (negsuc 6) 127 start e'
unfolding ◌-ℤ◌ new_encoder
write_symbol-Codes_example =
    write_symbol-Codes 0 0 true 7 true (omega arith) start ready (omega arith) (omega arith)
      (omega arith)

-- The two zero bytes that a fresh encoder starts from.
zero-IsBytes : IsBytes (0 ∷ 0 ∷ [])
zero-IsBytes = ready.interval.bytes

room : length start.low_bytes < start.max_size
unfolding new_encoder
room = omega arith

abbrev after_zero : RangeEncoder
after_zero = (write_rac_total start 128 false ready.interval IsLive-128 room).0

written : IsWritten start 128 false after_zero
written = (write_rac_total start 128 false ready.interval IsLive-128 room).2

start-Hits : Hits start (0 ∷ 0 ∷ [])
start-Hits =
    unfold value in
    unfold prefix in
    unfold new_encoder in record { from_low = omega arith; below_high = omega arith }

after-Hits : Hits after_zero (0 ∷ 0 ∷ [])
after-Hits = elim written.moved [
  | inl (narrow, _, _, _) ↦ absurd (omega (arith, narrow))
  | inr (_, range, len, val) ↦
      let zeros : prefix (0 ∷ 0 ∷ []) (length after_zero.low_bytes) ≡ 0 =
        rw len (unfold prefix in refl) in
      let none_yet : value start.low_bytes ≡ 0 = unfold value in unfold prefix in omega arith in
      record {
        from_low = omega (arith, zeros, val, none_yet);
        below_high = omega (arith, zeros, range);
      }
]

read_rac-write_rac_example :
    IsDecided
      (start_registers
        (0 ∷ 0 ∷ [])
        default_state_transition
        (record new_coder { scalar = one_bank 1 128 }))
      after_zero
      128
      false
      (0 ∷ 0 ∷ [])
unfolding new_coder
read_rac-write_rac_example =
    read_rac-write_rac _ start after_zero 128 false (0 ∷ 0 ∷ [])
      (start-InStep new_coder 1000 1 128 (0 ∷ 0 ∷ []) refl refl (omega arith) start-Hits).follows
      ready.interval (omega arith) zero-IsBytes written after-Hits
