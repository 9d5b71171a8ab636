-- ===== src/Range/Coder.antt =====
-- src/entropy/range_coder.cpp: the class `RangeCoder`, the decoder. Its 32-bit registers keep
-- their wrap-around; the payload position is a 64-bit count that the payload's size bounds.
use mffv.Common.{
  ℕ, ◌+◌, ◌*◌, Bool, true, false, ◌||◌, not, List, [], ◌∷◌, length, get_or, set, ltb, leb, ◌==◌,
  if◌then◌else◌,
}
use mffv.Common.Status.{ErrorCode, make_error, make_byte_error, Outcome, ok, fail, ◌>>=◌, ◌>>◌}
use mffv.Range.Transition.{StateTransitionTable, default_state_transition}
use mffv.Range.Contexts.{
  ScalarContexts, ContextStateBank, checked, refused, no_contexts, default_initial_state,
  initialize_contexts, copy_banks,
}

pub record RangeCoder : Type 0 where
  pub payload : List ℕ
  pub range : ℕ
  pub low : ℕ
  pub byte_position : ℕ
  pub end : Bool
  pub initialized : Bool
  pub legacy_v0_arithmetic : Bool
  pub legacy_zero_symbol_carry : Bool
  pub state_transition : StateTransitionTable
  pub scalar : ScalarContexts
  pub snapshots : List ScalarContexts

-- `ArithmeticState`
pub record ArithmeticState : Type 0 where
  pub range : ℕ
  pub low : ℕ
  pub byte_position : ℕ
  pub end : Bool
  pub initialized : Bool

unfoldable pub new_coder : RangeCoder
new_coder = record {
  payload = [];
  range = 0;
  low = 0;
  byte_position = 0;
  end = false;
  initialized = false;
  legacy_v0_arithmetic = false;
  legacy_zero_symbol_carry = false;
  state_transition = default_state_transition;
  scalar = no_contexts;
  snapshots = [];
}

abbrev pub Action : Type 0 → Type 0
Action A = RangeCoder → Outcome RangeCoder A

-- `initialize_contexts` as a method: on failure the coder is as it was.
unfoldable pub init_contexts : List ℕ → List ContextStateBank → ℕ → Action (Unit {0})
init_contexts counts banks initial_state c = elim (initialize_contexts counts banks initial_state) [
  | refused e ↦ fail (make_error e) c
  | checked scalar ↦ ok tt (record c { scalar = scalar })
]

-- The registers after the first two bytes.
unfoldable pub start_registers : List ℕ → StateTransitionTable → RangeCoder → RangeCoder
start_registers payload table c =
    let low = get_or payload 0 0 * 256 + get_or payload 1 0 in
    let past = leb 0xff00 low in
    record c {
      payload = payload;
      range = 0xff00;
      low = if past then 0xff00 else low;
      byte_position = 2;
      end = leb (length payload) 2 || past;
      initialized = true;
      state_transition = table;
    }

unfoldable pub reset_impl :
    List ℕ → List ℕ → List ContextStateBank → ℕ → StateTransitionTable → Action (Unit {0})
unfolding init_contexts start_registers
reset_impl payload counts banks initial_state table c =
    if ltb (length payload) 2
    then fail (make_byte_error ErrorCode.syntax_error 0) c
    else (init_contexts counts banks initial_state >>= λ _ c'.
          ok tt (start_registers payload table c'))
        c

-- The `reset` overloads and `reset_from_contexts`.
unfoldable pub reset_one : List ℕ → ℕ → ℕ → Action (Unit {0})
reset_one payload count initial_state =
    reset_impl payload (count ∷ []) [] initial_state default_state_transition

unfoldable pub reset_counts : List ℕ → List ℕ → ℕ → Action (Unit {0})
reset_counts payload counts initial_state =
    reset_impl payload counts [] initial_state default_state_transition

unfoldable pub reset_banks :
    List ℕ → List ℕ → List ContextStateBank → StateTransitionTable → Action (Unit {0})
reset_banks payload counts banks table = reset_impl payload counts banks default_initial_state table

unfoldable pub reset_table : List ℕ → StateTransitionTable → Action (Unit {0})
reset_table payload table = reset_impl payload (1 ∷ []) [] default_initial_state table

abbrev bank_counts : List ContextStateBank → List ℕ
bank_counts [] = []
bank_counts (bank ∷ banks) = length bank ∷ bank_counts banks

unfoldable pub reset_from_contexts :
    List ℕ → List ContextStateBank → StateTransitionTable → Action (Unit {0})
reset_from_contexts payload banks table =
    reset_impl payload (bank_counts banks) banks default_initial_state table

unfoldable pub reset_from_arithmetic_state :
    List ℕ
    → List ℕ
    → List ContextStateBank
    → StateTransitionTable
    → ArithmeticState
    → Action (Unit {0})
reset_from_arithmetic_state payload counts banks table a c =
    if not a.initialized
    then fail (make_error ErrorCode.invalid_argument) c
    else if a.range == 0
    then fail (make_error ErrorCode.invalid_argument) c
    else if ltb (length payload) a.byte_position
    then fail (make_byte_error ErrorCode.syntax_error a.byte_position) c
    else (init_contexts counts banks default_initial_state >>= λ _ c'. ok tt (record c' {
      payload = payload;
      range = a.range;
      low = a.low;
      byte_position = a.byte_position;
      end = a.end || leb (length payload) a.byte_position;
      initialized = true;
      state_transition = table;
    }))
        c

unfoldable pub arithmetic_state : RangeCoder → ArithmeticState
arithmetic_state c = record {
  range = c.range;
  low = c.low;
  byte_position = c.byte_position;
  end = c.end;
  initialized = c.initialized;
}

-- `if (!initialized_) return InvalidState;`
unfoldable pub require_initialized : Action (Unit {0})
require_initialized c =
    if c.initialized then ok tt c else fail (make_error ErrorCode.invalid_state) c

unfoldable pub reconfigure_contexts : List ℕ → List ContextStateBank → Action (Unit {0})
reconfigure_contexts counts banks = do
  require_initialized
  init_contexts counts banks default_initial_state

unfoldable pub copy_contexts : Action (List ContextStateBank)
copy_contexts = do
  require_initialized
  λ c. ok (copy_banks c.scalar.bank_offsets c.scalar.bank_sizes c.scalar.contexts) c

unfoldable pub set_state_transition : StateTransitionTable → Action (Unit {0})
set_state_transition table = do
  require_initialized
  λ c. ok tt (record c { state_transition = table })

abbrev set_first_states : List (List ℕ) → List (List ℕ)
set_first_states [] = []
set_first_states (states ∷ contexts) = set states 0 255 ∷ set_first_states contexts

unfoldable pub set_legacy_v0_arithmetic : Bool → Action (Unit {0})
set_legacy_v0_arithmetic enabled = do
  require_initialized
  λ c.
      let scalar =
        if enabled
        then record (c.scalar) { contexts = set_first_states c.scalar.contexts }
        else c.scalar in
      ok tt (record c { legacy_v0_arithmetic = enabled; scalar = scalar })

unfoldable pub set_legacy_zero_symbol_carry : Bool → Action (Unit {0})
set_legacy_zero_symbol_carry enabled = do
  require_initialized
  λ c. ok tt (record c { legacy_zero_symbol_carry = enabled })

-- The contexts are saved, and put back at once when the new ones are refused.
unfoldable pub begin_independent_scalar_contexts : ℕ → Action (Unit {0})
begin_independent_scalar_contexts count c =
    if c.initialized
    then (elim (init_contexts (count ∷ []) [] default_initial_state
        (record c { snapshots = c.scalar ∷ c.snapshots })) [
          | ok _ c' ↦ ok tt c'
          | fail e c' ↦ fail e (record c' { scalar = c.scalar; snapshots = c.snapshots })
        ])
    else fail (make_error ErrorCode.invalid_state) c

unfoldable pub pop_snapshot : List ScalarContexts → Action (Unit {0})
pop_snapshot [] c = fail (make_error ErrorCode.invalid_state) c
pop_snapshot (snapshot ∷ older) c = ok tt (record c { scalar = snapshot; snapshots = older })

unfoldable pub end_independent_scalar_contexts : Action (Unit {0})
end_independent_scalar_contexts = do require_initialized; λ c. pop_snapshot c.snapshots c
