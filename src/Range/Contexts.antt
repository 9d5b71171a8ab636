-- ===== src/Range/Contexts.antt =====
-- The scalar contexts of the range decoder and of the range encoder: banks of contexts, laid out
-- one after the other, each context an array of 32 states.
use mffv.Common.{
  ℕ, ◌+◌, Bool, true, false, ◌&&◌, not, List, [], ◌∷◌, length, get_or, set, take, drop, replicate,
  ltb, ◌==◌, if◌then◌else◌,
}
use mffv.Common.Status.{ErrorCode}

abbrev pub ScalarContextStates : Type 0
ScalarContextStates = List ℕ

abbrev pub ContextStateBank : Type 0
ContextStateBank = List ScalarContextStates

-- `kScalarContextSize`, `kMaxScalarContextCount`, `kMaxContextBankCount`, `kDefaultInitialState`
abbrev pub scalar_context_size : ℕ
scalar_context_size = 32

abbrev pub max_scalar_context_count : ℕ
max_scalar_context_count = 32768

abbrev pub max_context_bank_count : ℕ
max_context_bank_count = 4

abbrev pub default_initial_state : ℕ
default_initial_state = 128

-- The three vectors of the coders, which are also what a `ScalarContextSnapshot` holds.
pub record ScalarContexts : Type 0 where
  pub bank_offsets : List ℕ
  pub bank_sizes : List ℕ
  pub contexts : List ScalarContextStates

abbrev pub no_contexts : ScalarContexts
no_contexts = record { bank_offsets = []; bank_sizes = []; contexts = [] }

pub data Checked (A : Type 0) : Type 0 where
  checked : A → Checked A
  refused : ErrorCode → Checked A

abbrev pub is_empty {ℓ} : {A : Type ℓ} → List A → Bool
is_empty [] = true
is_empty (x ∷ xs) = false

-- The first loop over the banks: every count is checked, and the counts are added up. The list of
-- initial banks is either empty or as long as the counts; an absent or empty bank has no states.
unfoldable pub check_banks : List ℕ → List ContextStateBank → ℕ → Checked ℕ
check_banks [] banks total = checked total
check_banks (count ∷ counts) banks total =
    let bank : ContextStateBank = get_or banks 0 [] in
    let more = check_banks counts (drop 1 banks) (total + count) in
    if count == 0
    then refused ErrorCode.invalid_argument
    else if ltb max_scalar_context_count count
    then refused ErrorCode.resource_exhausted
    else if not (is_empty bank) && not (length bank == count)
    then refused ErrorCode.invalid_argument
    else more

-- The running offsets of the banks.
unfoldable pub offsets_from : ℕ → List ℕ → List ℕ
offsets_from offset [] = []
offsets_from offset (count ∷ counts) = offset ∷ offsets_from (offset + count) counts

-- `std::copy(from.begin(), from.end(), to.begin() + offset)`
unfoldable pub copy_at {ℓ} : {A : Type ℓ} → List A → ℕ → List A → List A
copy_at [] offset to = to
copy_at (x ∷ from) offset to = copy_at from (offset + 1) (set to offset x)

-- The last loop over the banks: a bank with initial states is copied, any other is filled.
unfoldable pub fill_banks :
    ℕ → List ℕ → List ContextStateBank → ℕ → List ScalarContextStates → List ScalarContextStates
unfolding copy_at
fill_banks initial_state [] banks offset contexts = contexts
fill_banks initial_state (count ∷ counts) banks offset contexts =
    let bank : ContextStateBank = get_or banks 0 [] in
    let source =
      if is_empty bank
      then replicate count (replicate scalar_context_size initial_state)
      else bank in
    fill_banks initial_state counts (drop 1 banks) (offset + count) (copy_at source offset contexts)

-- `initialize_contexts` of the decoder: nothing is changed before all checks have passed.
unfoldable pub initialize_contexts : List ℕ → List ContextStateBank → ℕ → Checked ScalarContexts
unfolding check_banks offsets_from fill_banks
initialize_contexts counts banks initial_state =
    if is_empty counts
    then refused ErrorCode.invalid_argument
    else if ltb max_context_bank_count (length counts)
    then refused ErrorCode.resource_exhausted
    else if not (is_empty banks) && not (length banks == length counts)
    then refused ErrorCode.invalid_argument
    else elim (check_banks counts banks 0) [
      | refused e ↦ refused e
      | checked total ↦ checked (record {
        bank_offsets = offsets_from 0 counts;
        bank_sizes = counts;
        contexts =
            fill_banks initial_state counts banks 0
              (replicate total (replicate scalar_context_size 0));
      })
    ]

-- `copy_contexts`: the banks, cut out of the one vector.
unfoldable pub copy_banks : List ℕ → List ℕ → List ScalarContextStates → List ContextStateBank
copy_banks [] sizes contexts = []
copy_banks (offset ∷ offsets) [] contexts = []
copy_banks (offset ∷ offsets) (size ∷ sizes) contexts =
    take size (drop offset contexts) ∷ copy_banks offsets sizes contexts

-- The states of a context, and a write to one of them.
unfoldable pub context_at : ScalarContexts → ℕ → ℕ → ScalarContextStates
context_at c bank context = get_or c.contexts (get_or c.bank_offsets bank 0 + context) []

unfoldable pub state_at : ScalarContexts → ℕ → ℕ → ℕ → ℕ
unfolding context_at
state_at c bank context index = get_or (context_at c bank context) index 0

unfoldable pub set_state : ScalarContexts → ℕ → ℕ → ℕ → ℕ → ScalarContexts
unfolding context_at
set_state c bank context index state =
    let position = get_or c.bank_offsets bank 0 + context in
    record c { contexts = set c.contexts position (set (context_at c bank context) index state) }
