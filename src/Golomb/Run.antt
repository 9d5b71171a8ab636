-- ===== src/Golomb/Run.antt =====
-- src/entropy/golomb_rice_run.cpp: runs of samples that equal their prediction.
pub mod Bounds
use mffv.Common.{
  ℕ, zero, suc, ◌+◌, ◌-◌, ◌^◌, List, [], ◌∷◌, Bool, true, false, ◌||◌, ltb, leb, ◌==◌,
  if◌then◌else◌, get_or, not,
}
use Prim.Native.Nat.{min}
use mffv.Common.Status.{ErrorCode, make_error, Outcome, fail, ◌>>=◌, ◌>>◌, return}
use mffv.Bitstream.Reader.{BitReader, read_bit, read_bits}
use mffv.Bitstream.Writer.{BitWriter, write_bit, write_bits}

unfoldable pub log2_run : List ℕ
log2_run =
    0 ∷ 0 ∷ 0 ∷ 0 ∷ 1 ∷ 1 ∷ 1 ∷ 1 ∷ 2 ∷ 2 ∷ 2 ∷ 2 ∷ 3 ∷ 3 ∷ 3 ∷ 3 ∷ 4 ∷ 4 ∷ 5 ∷ 5 ∷ 6 ∷ 6 ∷ 7 ∷ 7
    ∷ 8 ∷ 9 ∷ 10 ∷ 11 ∷ 12 ∷ 13 ∷ 14 ∷ 15 ∷ 16 ∷ 17 ∷ 18 ∷ 19 ∷ 20 ∷ 21 ∷ 22 ∷ 23 ∷ 24 ∷ []

-- `kLog2Run.size()`
abbrev pub log2_run_size : ℕ
log2_run_size = 41

pub record GolombRiceRunState : Type 0 where
  pub run_index : ℕ
  pub pending_count : ℕ

pub record GolombRiceRunSegment : Type 0 where
  pub count : ℕ
  pub interrupted : Bool

abbrev pub initial_run_state : GolombRiceRunState
initial_run_state = record { run_index = 0; pending_count = 0 }

-- `if (next_run_index != 0) --next_run_index`
unfoldable pub step_back : ℕ → ℕ
step_back run_index = if run_index == 0 then 0 else run_index - 1

-- What a read changes: the state, and the segment it found.
pub record RunRead : Type 0 where
  pub state : GolombRiceRunState
  pub segment : GolombRiceRunSegment

-- A full run.
unfoldable pub full_segment : GolombRiceRunState → ℕ → BitReader → Outcome BitReader RunRead
full_segment state row_remaining =
    let count = 2 ^ get_or log2_run state.run_index 0 in
    if leb count row_remaining
    then if leb log2_run_size (state.run_index + 1)
      then (λ r. fail (make_error ErrorCode.resource_exhausted) r)
      else return (record {
        state = record state { run_index = state.run_index + 1 };
        segment = record { count = count; interrupted = false };
      })
    else return
        (record { state = state; segment = record { count = row_remaining; interrupted = false } })

-- An interrupted run of `remainder` samples.
unfoldable pub interrupted_segment :
    GolombRiceRunState → ℕ → ℕ → BitReader → Outcome BitReader RunRead
interrupted_segment state row_remaining remainder =
    if ltb row_remaining remainder
    then return (record {
      state = record {
        run_index = step_back state.run_index;
        pending_count = remainder - row_remaining;
      };
      segment = record { count = row_remaining; interrupted = false };
    })
    else return (record {
      state = record state { run_index = step_back state.run_index };
      segment = record { count = remainder; interrupted = true };
    })

-- A part of the run that the row before left pending.
unfoldable pub pending_segment : GolombRiceRunState → ℕ → BitReader → Outcome BitReader RunRead
pending_segment state row_remaining =
    let count = min state.pending_count row_remaining in
    return (record {
      state = record state { pending_count = state.pending_count - count };
      segment = record { count = count; interrupted = false };
    })

-- The value is the new state and the segment; a failure leaves the caller's state alone.
unfoldable pub read_golomb_rice_run_segment :
    GolombRiceRunState → ℕ → ℕ → BitReader → Outcome BitReader RunRead
read_golomb_rice_run_segment state x width =
    if leb log2_run_size state.run_index
    then (λ r. fail (make_error ErrorCode.invalid_state) r)
    else if ltb width x
    then (λ r. fail (make_error ErrorCode.invalid_argument) r)
    else if not (state.pending_count == 0)
    then pending_segment state (width - x)
    else read_bit >>= λ prefix.
        if not (prefix == 0)
        then full_segment state (width - x)
        else read_bits (get_or log2_run state.run_index 0) >>= interrupted_segment state (width - x)

-- The end of a run that does not fill the entry.
unfoldable pub write_remainder :
    GolombRiceRunState → ℕ → ℕ → BitWriter → Outcome BitWriter GolombRiceRunState
write_remainder state run_index remaining = do
  write_bit 0
  write_bits remaining (get_or log2_run run_index 0)
  return (record state { run_index = step_back run_index })

-- The loop of `write_golomb_rice_run`; `left` is the number of entries behind `run_index`, which the
-- code tests with `next_run_index + 1 >= kLog2Run.size()`.
unfoldable pub write_run_loop :
    ℕ → GolombRiceRunState → ℕ → ℕ → ℕ → ℕ → BitWriter → Outcome BitWriter GolombRiceRunState
write_run_loop zero state run_index width position remaining =
    if leb (2 ^ get_or log2_run run_index 0) remaining
    then (λ w. fail (make_error ErrorCode.resource_exhausted) w)
    else write_remainder state run_index remaining
write_run_loop (suc left) state run_index width position remaining =
    let full_count = 2 ^ get_or log2_run run_index 0 in
    let more =
      write_run_loop left state (run_index + 1) width (position + full_count)
        (remaining - full_count) in
    if leb full_count remaining
    then write_bit 1
      >> (if position + full_count == width
          then return (record state { run_index = run_index + 1 })
          else more)
    else write_remainder state run_index remaining

-- The value is the new state.
unfoldable pub write_golomb_rice_run :
    GolombRiceRunState → ℕ → ℕ → ℕ → BitWriter → Outcome BitWriter GolombRiceRunState
write_golomb_rice_run state x width count =
    if leb log2_run_size state.run_index
    then (λ w. fail (make_error ErrorCode.invalid_state) w)
    else if ltb width x || ltb (width - x) count
    then (λ w. fail (make_error ErrorCode.invalid_argument) w)
    else write_run_loop (log2_run_size - 1 - state.run_index) state state.run_index width x count
