-- ===== src/Range/Trial.antt =====
-- The trial of `write_symbol` in src/entropy/range_encoder.cpp, and the symbol that follows it.
use mffv.Common.{
  ℕ, zero, suc, ◌+◌, ◌*◌, ◌%◌, ◌^◌, ◌≤◌, ◌<◌, ◌≡◌, refl, ◌∙◌, arith, Bool, true, false, List, [],
  ◌∷◌, ◌++◌, length, get_or, set, length-set, length-append, ltb, ◌==◌, if◌then◌else◌, Bool-cases,
  inl, inr, some,
}
use mffv.Range.Transition.{StateTransitionTable}
use mffv.Range.Contexts.{ScalarContextStates}
use mffv.Range.Write.{
  Decision, exponent_decisions, mantissa_decisions, sign_decisions, decisions, log2, next_range,
  next_state, trial,
}
use mffv.Range.Steps.{share-lt, width, next_range_lem}
use mffv.Range.Live.{IsLive, IsLiveTable, width_positive, get_or-set_cases}
use mffv.Range.Decisions.{log2_lem}

-- All indices are those of a context.
abbrev pub AllBelow : List Decision → Type 0
AllBelow [] = Unit {0}
AllBelow ((index, v) ∷ ds) = (index < 32) × AllBelow ds

AllBelow-append : (ds es : List Decision) → AllBelow ds → AllBelow es → AllBelow (ds ++ es)
AllBelow-append [] es p q = q
AllBelow-append ((index, v) ∷ ds) es p q = (p.0, AllBelow-append ds es p.1 q)

exponent-AllBelow : (n index : ℕ) → AllBelow (exponent_decisions n index)
unfolding exponent_decisions
exponent-AllBelow zero index = (ground arith, tt)
exponent-AllBelow (suc n) index = (ground arith, exponent-AllBelow n (index + 1))

mantissa-AllBelow : (i m : ℕ) → AllBelow (mantissa_decisions i m)
unfolding mantissa_decisions
mantissa-AllBelow zero m = tt
mantissa-AllBelow (suc i) m = (ground arith, mantissa-AllBelow i m)

sign-AllBelow : (s : Bool) (k : ℕ) (v : Bool) → AllBelow (sign_decisions s k v)
unfolding sign_decisions
sign-AllBelow true k v = (ground arith, tt)
sign-AllBelow false k v = tt

pub decisions-AllBelow : (s : Bool) (m : ℕ) (v : Bool) → AllBelow (decisions s m v)
unfolding decisions
decisions-AllBelow s m v = elim (Bool-cases (m == 0)) [
  | inl e ↦ rw e (omega arith, tt)
  | inr e ↦ rw e (
    omega arith,
    AllBelow-append (exponent_decisions (log2 m) 0) _ (exponent-AllBelow (log2 m) 0) (
        AllBelow-append (mantissa_decisions (log2 m) m) _ (mantissa-AllBelow (log2 m) m)
          (sign-AllBelow s (log2 m) v)),
  )
]

length-exponent : (n index : ℕ) → length (exponent_decisions n index) ≡ suc n
unfolding exponent_decisions
length-exponent zero index = refl
length-exponent (suc n) index = omega (arith, length-exponent n (index + 1))

length-mantissa : (i m : ℕ) → length (mantissa_decisions i m) ≡ i
unfolding mantissa_decisions
length-mantissa zero m = refl
length-mantissa (suc i) m = omega (arith, length-mantissa i m)

length-sign : (s : Bool) (k : ℕ) (v : Bool) → length (sign_decisions s k v) ≤ 1
unfolding sign_decisions
length-sign true k v = omega arith
length-sign false k v = omega arith

-- A symbol of magnitude below 2^63 has at most 127 decisions, the size of the array that holds
-- them.
pub length-decisions : (s : Bool) (m : ℕ) (v : Bool) → m < 2 ^ 63 → length (decisions s m v) ≤ 127
unfolding decisions
length-decisions s m v h = elim (Bool-cases (m == 0)) [
  | inl e ↦ rw e (omega arith)
  | inr e ↦ rw e (
      let k = log2 m in
      omega (
        arith,
        (log2_lem m (ground (arith, e)) h).1,
        length-append (exponent_decisions k 0) (mantissa_decisions k m ++ sign_decisions s k v),
        length-append (mantissa_decisions k m) (sign_decisions s k v),
        length-exponent k 0,
        length-mantissa k m,
        length-sign s k v,
      ))
]

trial_step :
    (table : StateTransitionTable) (index : ℕ) (v : Bool) (ds : List Decision)
    (states : ScalarContextStates) (range appended w n : ℕ) (narrow : Bool)
    → next_range range (get_or states index 0) v ≡ w
    → 0 < w
    → ltb w 256 ≡ narrow
    → trial table ds
        (set states index (next_state table (get_or states index 0) v))
        (if narrow then w * 2 ^ 8 % 2 ^ 32 else w)
        (if narrow then appended + 1 else appended)
      ≡ some n
    → trial table ((index, v) ∷ ds) states range appended ≡ some n
unfolding trial
trial_step table index v ds states range appended w n narrow e positive fits rest =
    let some_width : (w == 0) ≡ false = ground (arith, positive) in rw (e, some_width, fits) rest

-- With a table that keeps states live, 32 live states, indices of a context and a range from 256
-- to 0xff00, the trial of a symbol meets no decision of zero width and counts at most one byte for
-- each decision.
pub trial_lem :
    (table : StateTransitionTable) (ds : List Decision) (states : ScalarContextStates)
    (range appended : ℕ)
    → IsLiveTable table
    → AllBelow ds
    → length states ≡ 32
    → ((i : ℕ) → i < 32 → IsLive (get_or states i 0))
    → 256 ≤ range
    → range ≤ 0xff00
    → (n : ℕ) × (trial table ds states range appended ≡ some n) × (n ≤ appended + length ds)
unfolding trial
trial_lem table [] states range appended t b full live low high = (appended, refl, omega arith)
trial_lem table ((index, v) ∷ ds) states range appended t b full live low high =
    let state = get_or states index 0 in
    let l = live index b.0 in
    let w = width range state v in
    let e = next_range_lem range state v low high (omega (arith, l.1)) in
    let positive = width_positive range state v low l in
    let less : w ≤ range = width-le range state v low l in
    let states' = set states index (next_state table state v) in
    let live' : (i : ℕ) → i < 32 → IsLive (get_or states' i 0) = λ i h.
      elim (get_or-set_cases states index i (next_state table state v) 0
        (omega (arith, b.0, full))) [
          | inl (_, at) ↦ rw at (t state v l)
          | inr at ↦ rw at (live i h)
        ] in
    let size = length-set states index (next_state table state v) ∙ full in
    elim (Bool-cases (ltb w 256)) [
      | inl narrow ↦
          let (n, done, bound) =
            trial_lem table ds states' (w * 2 ^ 8 % 2 ^ 32) (appended + 1) t b.1 size live'
              (scaled_low w positive (ground (arith, narrow)))
              (scaled_high w (ground (arith, narrow))) in
          (
            n,
            trial_step table index v ds states range appended w n true e positive narrow done,
            omega (arith, bound),
          )
      | inr wide ↦
          let (n, done, bound) =
            trial_lem table ds states' w appended t b.1 size live' (ground (arith, wide))
              (omega (arith, less, high)) in
          (
            n,
            trial_step table index v ds states range appended w n false e positive wide done,
            omega (arith, bound),
          )
    ]
  where
    width-le :
        (range state : ℕ) (v : Bool) → 256 ≤ range → IsLive state → width range state v ≤ range
    width-le range state true h l =
        omega (arith, share-lt range state (omega arith) (omega (arith, l.1)))
    width-le range state false h l =
        omega (arith, share-lt range state (omega arith) (omega (arith, l.1)))

    scaled_low : (w : ℕ) → 0 < w → w < 256 → 256 ≤ w * 2 ^ 8 % 2 ^ 32
    scaled_low w p h = omega arith

    scaled_high : (w : ℕ) → w < 256 → w * 2 ^ 8 % 2 ^ 32 ≤ 0xff00
    scaled_high w h = omega arith
