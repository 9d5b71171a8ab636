-- ===== src/Range/Finish.antt =====
-- src/entropy/range_encoder.cpp: `finalize`, `finalize_closed` and `finalize_impl`.
use mffv.Common.{
  ℕ, zero, suc, ◌+◌, ◌-◌, ◌/◌, ◌%◌, ◌^◌, true, ◌&&◌, List, length, get_or, take, ltb, leb, ◌==◌,
  if◌then◌else◌,
}
use mffv.Common.Status.{ok, fail, ◌>>◌}
use mffv.Range.Encoder.{EncoderAction, require_open}
use mffv.Range.Write.{add_to_low}

-- `low_bytes_.back()`, 0 when there is none.
unfoldable pub last_byte : List ℕ → ℕ
last_byte bytes = get_or bytes (length bytes - 1) 0

-- The loop that steps the delta by 256 towards the middle of the range.
unfoldable pub align_loop : ℕ → ℕ → ℕ → ℕ
align_loop range zero delta = delta
align_loop range (suc fuel) delta =
    let more = align_loop range fuel (delta + 256) in
    if ltb (delta + 256) range && leb (delta + 256) (range / 2) then more else delta

-- The difference of two 32-bit numbers.
abbrev pub sub_u32 : ℕ → ℕ → ℕ
sub_u32 a b = (a + 2 ^ 32 - b) % 2 ^ 32

-- What is added to the lower bound: the value nearest to the middle of the range at which the
-- last byte is zero, or the middle where the range has no such value.
unfoldable pub closing_delta : List ℕ → ℕ → ℕ
unfolding last_byte align_loop
closing_delta bytes range =
    let to_zero = (256 - last_byte bytes) % 256 in
    let target = range / 2 in
    let aligned = align_loop range (range / 256) to_zero in
    if ltb to_zero range
    then (if ltb (aligned + 256) range
          && ltb (sub_u32 (aligned + 256) target) (sub_u32 target aligned)
        then aligned + 256
        else aligned)
    else target

unfoldable pub close_interval : EncoderAction (Unit {0})
close_interval e = add_to_low (closing_delta e.low_bytes e.range) e

-- A zero byte at the end is dropped, down to two bytes: the decoder reads zeros there.
unfoldable pub drop_zero_byte : List ℕ → List ℕ
drop_zero_byte bytes =
    if ltb 2 (length bytes) && last_byte bytes == 0 then take (length bytes - 1) bytes else bytes

-- The interval is closed on a copy: the encoder itself is only marked.
unfoldable pub finalize : EncoderAction (List ℕ)
finalize = do require_open; λ e. ok e.low_bytes (record e { finalized = true })

unfoldable pub finalize_closed : EncoderAction (List ℕ)
finalize_closed = do
  require_open
  λ e. elim (close_interval e) [
    | fail status _ ↦ fail status e
    | ok _ completed ↦ ok (drop_zero_byte completed.low_bytes) (record e { finalized = true })
  ]
