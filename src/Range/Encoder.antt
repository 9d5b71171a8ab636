-- ===== src/Range/Encoder.antt =====
-- src/entropy/range_encoder.cpp: the class `RangeEncoder`. `low_bytes` is the lower bound of the
-- interval as a number in base 256, first byte first.
use mffv.Common.{
  ℕ, ◌+◌, ◌-◌, ◌^◌, Bool, true, false, ◌&&◌, not, List, [], ◌∷◌, length, get_or, drop, ltb, ◌==◌,
  if◌then◌else◌,
}
use mffv.Common.Status.{ErrorCode, make_error, Outcome, ok, fail, ◌>>◌}
use mffv.Range.Transition.{StateTransitionTable, default_state_transition}
use mffv.Range.Contexts.{
  ScalarContexts, ContextStateBank, Checked, checked, refused, no_contexts, default_initial_state,
  is_empty, max_scalar_context_count, max_context_bank_count, scalar_context_size, offsets_from,
  fill_banks, copy_banks,
}
use mffv.Common.{replicate}

-- `max_size` is what `low_bytes_.max_size()` answers.
pub record RangeEncoder : Type 0 where
  pub low_bytes : List ℕ
  pub range : ℕ
  pub state_transition : StateTransitionTable
  pub scalar : ScalarContexts
  pub snapshots : List ScalarContexts
  pub initialized : Bool
  pub finalized : Bool
  pub max_size : ℕ

unfoldable pub new_encoder : ℕ → RangeEncoder
new_encoder max_size = record {
  low_bytes = [];
  range = 0;
  state_transition = default_state_transition;
  scalar = no_contexts;
  snapshots = [];
  initialized = false;
  finalized = false;
  max_size = max_size;
}

abbrev pub EncoderAction : Type 0 → Type 0
EncoderAction A = RangeEncoder → Outcome RangeEncoder A

-- The checks over the banks, with the guard on the 64-bit total that the decoder has not.
unfoldable pub check_encoder_banks : List ℕ → List ContextStateBank → ℕ → Checked ℕ
check_encoder_banks [] banks total = checked total
check_encoder_banks (count ∷ counts) banks total =
    let bank : ContextStateBank = get_or banks 0 [] in
    let more = check_encoder_banks counts (drop 1 banks) (total + count) in
    if count == 0
    then refused ErrorCode.invalid_argument
    else if ltb max_scalar_context_count count
    then refused ErrorCode.resource_exhausted
    else if ltb (2 ^ 64 - 1 - count) total
    then refused ErrorCode.resource_exhausted
    else if not (is_empty bank) && not (length bank == count)
    then refused ErrorCode.invalid_argument
    else more

unfoldable pub encoder_contexts : List ℕ → List ContextStateBank → ℕ → Checked ScalarContexts
unfolding check_encoder_banks offsets_from fill_banks
encoder_contexts counts banks initial_state =
    if is_empty counts
    then refused ErrorCode.invalid_argument
    else if ltb max_context_bank_count (length counts)
    then refused ErrorCode.resource_exhausted
    else if not (is_empty banks) && not (length banks == length counts)
    then refused ErrorCode.invalid_argument
    else elim (check_encoder_banks counts banks 0) [
      | refused e ↦ refused e
      | checked total ↦ checked (record {
        bank_offsets = offsets_from 0 counts;
        bank_sizes = counts;
        contexts =
            fill_banks initial_state counts banks 0
              (replicate total (replicate scalar_context_size 0));
      })
    ]

unfoldable pub init_contexts : List ℕ → List ContextStateBank → ℕ → EncoderAction (Unit {0})
init_contexts counts banks initial_state e = elim (encoder_contexts counts banks initial_state) [
  | refused code ↦ fail (make_error code) e
  | checked scalar ↦ ok tt (record e { scalar = scalar })
]

-- A new encoder takes the place of the old one when its contexts are accepted.
unfoldable pub reset_impl :
    List ℕ → List ContextStateBank → ℕ → StateTransitionTable → EncoderAction (Unit {0})
unfolding init_contexts new_encoder
reset_impl counts banks initial_state table e =
    elim (init_contexts counts banks initial_state (new_encoder e.max_size)) [
      | fail status _ ↦ fail status e
      | ok _ next ↦ ok tt (record next {
        low_bytes = 0 ∷ 0 ∷ [];
        range = 0xff00;
        state_transition = table;
        initialized = true;
      })
    ]

unfoldable pub reset_table : StateTransitionTable → EncoderAction (Unit {0})
reset_table table = reset_impl (1 ∷ []) [] default_initial_state table

unfoldable pub reset_counts : List ℕ → ℕ → EncoderAction (Unit {0})
reset_counts counts initial_state = reset_impl counts [] initial_state default_state_transition

unfoldable pub reset_banks :
    List ℕ → List ContextStateBank → StateTransitionTable → EncoderAction (Unit {0})
reset_banks counts banks table = reset_impl counts banks default_initial_state table

-- The two guards of every method that writes.
unfoldable pub require_open : EncoderAction (Unit {0})
require_open e =
    if e.initialized
    then (if e.finalized then fail (make_error ErrorCode.invalid_state) e else ok tt e)
    else fail (make_error ErrorCode.invalid_state) e

unfoldable pub reconfigure_contexts : List ℕ → List ContextStateBank → EncoderAction (Unit {0})
reconfigure_contexts counts banks = do
  require_open
  init_contexts counts banks default_initial_state

unfoldable pub copy_contexts : EncoderAction (List ContextStateBank)
copy_contexts e =
    if e.initialized
    then ok (copy_banks e.scalar.bank_offsets e.scalar.bank_sizes e.scalar.contexts) e
    else fail (make_error ErrorCode.invalid_state) e

unfoldable pub push_independent : ℕ → EncoderAction (Unit {0})
push_independent count e =
    elim (init_contexts (count ∷ []) [] default_initial_state
      (record e { snapshots = e.scalar ∷ e.snapshots })) [
        | ok _ e' ↦ ok tt e'
        | fail status e' ↦ fail status (record e' { scalar = e.scalar; snapshots = e.snapshots })
      ]

unfoldable pub begin_independent_scalar_contexts : ℕ → EncoderAction (Unit {0})
begin_independent_scalar_contexts count = do require_open; push_independent count

unfoldable pub pop_snapshot : List ScalarContexts → EncoderAction (Unit {0})
pop_snapshot [] e = fail (make_error ErrorCode.invalid_state) e
pop_snapshot (snapshot ∷ older) e = ok tt (record e { scalar = snapshot; snapshots = older })

unfoldable pub end_independent_scalar_contexts : EncoderAction (Unit {0})
end_independent_scalar_contexts = do require_open; λ e. pop_snapshot e.snapshots e
