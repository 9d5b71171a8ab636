-- ===== src/Codec/Configuration/Runs.antt =====
-- Quantization tables by the lengths of their runs.
use mffv.Common.{
  ℕ, zero, suc, ◌+◌, ◌-◌, ◌*◌, ◌/◌, ◌≤◌, ◌<◌, ◌≡◌, refl, ◌∙◌, arith, List, [], ◌∷◌, ◌++◌, false,
  ◌==◌, length, drop, replicate, length-append, length-replicate,
}
use mffv.Common.Int.{ℤ, pos}
use mffv.Codec.Configuration.Tables.{max_int64, mirrored, run_length, scale_overflows}
use mffv.Syntax.Stream.{QuantTableSet}
use native.Mathlib.Nat.{le-div_iff_mul-le, le_trans, mul-add, mul-le-mul, mul-le-mul_left, mul-one}
use mathlib.Core.Path.{subst}

-- Runs of one value each, from `value` on: `length_minus_one + 1` entries of `scale * value`.
abbrev pub staircase : ℕ → ℕ → List ℕ → List ℤ
staircase scale value [] = []
staircase scale value (len ∷ lens) =
    replicate (suc len) (pos (scale * value)) ++ staircase scale (value + 1) lens

run_length-replicate :
    (v n : ℕ) (entries : List ℤ)
    → run_length (pos v) entries ≡ 0
    → run_length (pos v) (replicate n (pos v) ++ entries) ≡ n
unfolding run_length
run_length-replicate v zero entries h = h
run_length-replicate v (suc n) entries h = ground (arith, run_length-replicate v n entries h)

-- The next run starts with another value.
run_length-staircase :
    (scale value : ℕ) (lens : List ℕ)
    → 1 ≤ scale
    → run_length (pos (scale * value)) (staircase scale (value + 1) lens) ≡ 0
unfolding run_length
run_length-staircase scale value [] h = refl
run_length-staircase scale value (len ∷ lens) h =
    let e : scale * (value + 1) ≡ scale * value + scale = simp (mul-add, mul-one) in
    ground (arith, e)

pub run_length_lem :
    (scale value len : ℕ) (lens : List ℕ)
    → 1 ≤ scale
    → run_length (pos (scale * value)) (staircase scale value (len ∷ lens)) ≡ suc len
run_length_lem scale value len lens h =
    run_length-replicate (scale * value) (suc len) (staircase scale (value + 1) lens)
      (run_length-staircase scale value lens h)

pub drop-replicate :
    (n : ℕ) (v : ℤ) (entries : List ℤ) → drop n (replicate n v ++ entries) ≡ entries
drop-replicate zero v entries = refl
drop-replicate (suc n) v entries = drop-replicate n v entries

pub length-staircase :
    (scale value : ℕ) (lens : List ℕ) → length lens ≤ length (staircase scale value lens)
length-staircase scale value [] = omega arith
length-staircase scale value (len ∷ lens) = omega (
  arith,
  length-staircase scale (value + 1) lens,
  length-append (replicate (suc len) (pos (scale * value))) (staircase scale (value + 1) lens),
  length-replicate (suc len) (pos (scale * value)),
)

-- The entries that the runs fill.
abbrev pub run_total : List ℕ → ℕ
run_total [] = 0
run_total (len ∷ lens) = suc len + run_total lens

pub length-staircase_total :
    (scale value : ℕ) (lens : List ℕ) → length (staircase scale value lens) ≡ run_total lens
length-staircase_total scale value [] = refl
length-staircase_total scale value (len ∷ lens) =
    length-append (replicate (suc len) (pos (scale * value))) (staircase scale (value + 1) lens)
    ∙ (λ i.
        length-replicate (suc len) (pos (scale * value)) i
        + length-staircase_total scale (value + 1) lens i)

-- The scale behind a table, and behind a list of them.
abbrev pub next_scale : ℕ → List ℕ → ℕ
next_scale scale lens = scale * (2 * length lens - 1)

abbrev pub last_scale : ℕ → List (List ℕ) → ℕ
last_scale scale [] = scale
last_scale scale (lens ∷ runs) = last_scale (next_scale scale lens) runs

-- The tables with these runs.
abbrev pub tables_of : ℕ → List (List ℕ) → List (List ℤ)
tables_of scale [] = []
tables_of scale (lens ∷ runs) =
    mirrored (staircase scale 0 lens) ∷ tables_of (next_scale scale lens) runs

abbrev pub set_of : List (List ℕ) → QuantTableSet
set_of runs = record { tables = tables_of 1 runs; context_count = (last_scale 1 runs + 1) / 2 }

-- The runs of every table fill the half of it that is coded.
abbrev pub AllFull : List (List ℕ) → Type 0
AllFull [] = Unit {0}
AllFull (lens ∷ runs) = (run_total lens ≡ 128) × AllFull runs

-- What the format holds: five tables, and no more contexts than the parser takes.
pub record IsCodable (runs : List (List ℕ)) : Type 0 where
  pub five : length runs ≡ 5
  pub full : AllFull runs
  pub few_contexts : (set_of runs).context_count ≤ 32768

pub length-le-run_total : (lens : List ℕ) → length lens ≤ run_total lens
length-le-run_total [] = omega arith
length-le-run_total (len ∷ lens) = omega (arith, length-le-run_total lens)

some_run : (lens : List ℕ) → run_total lens ≡ 128 → 1 ≤ length lens
some_run [] h = absurd (omega arith)
some_run (len ∷ lens) h = omega arith

pub next_scale-le :
    (scale : ℕ) (lens : List ℕ) → run_total lens ≡ 128 → scale ≤ next_scale scale lens
next_scale-le scale lens h =
    let some = some_run lens h in
    subst (λ (n : ℕ). n ≤ next_scale scale lens) (mul-one scale)
      (mul-le-mul_left {m = 1} {n = 2 * length lens - 1} scale (omega (arith, some)))

pub last_scale-le :
    (scale : ℕ) (runs : List (List ℕ)) → AllFull runs → scale ≤ last_scale scale runs
last_scale-le scale [] h = omega arith
last_scale-le scale (lens ∷ runs) h =
    le_trans (next_scale-le scale lens h.0) (last_scale-le (next_scale scale lens) runs h.1)

pub no_scale_overflow :
    (scale : ℕ) (lens : List ℕ)
    → run_total lens ≡ 128
    → scale ≤ 65536
    → scale_overflows scale (length lens) ≡ false
unfolding scale_overflows
no_scale_overflow scale lens h small =
    let some = some_run lens h in
    let short = length-le-run_total lens in
    let positive : 0 < 2 * length lens - 1 = omega (arith, some) in
    let product : scale * (2 * length lens - 1) ≤ 65536 * 255 =
      mul-le-mul {m₂ = 255} small (omega (arith, short, h)) in
    let within : scale * (2 * length lens - 1) ≤ max_int64 = omega (arith, product) in
    let kept : scale ≤ max_int64 / (2 * length lens - 1) = (le-div_iff_mul-le positive).1 within in
    let nonzero : (2 * length lens - 1 == 0) ≡ false = ground (arith, positive) in
    rw nonzero (ground (arith, kept))
