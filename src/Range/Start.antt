-- ===== src/Range/Start.antt =====
-- The start of a payload: the default table of src/mffv1/state_transition.hpp, the contexts of one
-- bank, and the registers of src/entropy/range_encoder.cpp and src/entropy/range_coder.cpp.
use mffv.Common.{
  ℕ, zero, suc, ◌+◌, ◌≤◌, ◌<◌, ◌≡◌, refl, ◌∙◌, arith, Bool, true, false, ◌&&◌, List, [], ◌∷◌,
  length, length-set, get_or, set, replicate, leb, ◌==◌, Bool-cases, inl, inr, leb→le,
  length-replicate,
}
use mffv.Range.Transition.{default_state_transition, range_zero_state, range_one_state}
use mffv.Range.Contexts.{copy_at}
use mffv.Range.Write.{next_state}
use mffv.Range.Live.{IsLiveTable, get_or-set_cases}

abbrev is_live : ℕ → Bool
is_live state = leb 8 state && leb state 248

abbrev stays_live : ℕ → Bool
stays_live state =
    is_live (next_state default_state_transition state true)
    && is_live (next_state default_state_transition state false)

abbrev all_stay_live : ℕ → Bool
all_stay_live zero = true
all_stay_live (suc n) = stays_live (8 + n) && all_stay_live n

checked_all : all_stay_live 241 ≡ true
unfolding next_state range_one_state range_zero_state default_state_transition
checked_all = refl

both : {a b : Bool} → (a && b) ≡ true → (a ≡ true) × (b ≡ true)
both {a = true} {b = true} h = (refl, refl)
both {a = true} {b = false} h = (refl, h)
both {a = false} h = absurd (cc)

found : (n state : ℕ) → all_stay_live n ≡ true → 8 ≤ state → state < 8 + n → stays_live state ≡ true
found zero state h low high = absurd (omega arith)
found (suc n) state h low high = elim (Bool-cases (state == 8 + n)) [
  | inl e ↦ let same : state ≡ 8 + n = ground (arith, e) in (rw same (both h).0)
  | inr e ↦ found n state (both h).1 low (ground (arith, e))
]

-- In the default table, a state from 8 to 248 goes to a state from 8 to 248 after either bit.
pub default_table-IsLive : IsLiveTable default_state_transition
default_table-IsLive state true (low, high) =
    let h = found 241 state checked_all low (omega arith) in
    let (a, b) = both (both h).0 in (leb→le 8 _ a, leb→le _ 248 b)
default_table-IsLive state false (low, high) =
    let h = found 241 state checked_all low (omega arith) in
    let (a, b) = both (both h).1 in (leb→le 8 _ a, leb→le _ 248 b)

copy_at-below {ℓ} :
    {A : Type ℓ} (from : List A) (o j : ℕ) (d : A) (to : List A)
    → o + length from ≤ length to
    → j < o
    → get_or (copy_at from o to) j d ≡ get_or to j d
unfolding copy_at
copy_at-below [] o j d to h lt = refl
copy_at-below (x ∷ from) o j d to h lt =
    let size = length-set to o x in
    copy_at-below from (o + 1) j d (set to o x) (omega (arith, h, size)) (omega (arith, lt))
    ∙ elim (get_or-set_cases to o j x d (omega (arith, h))) [
      | inl (e, _) ↦ absurd (omega (arith, e, lt))
      | inr e ↦ e
    ]

get_or-set_same {ℓ} :
    {A : Type ℓ} (to : List A) (o : ℕ) (x d : A) → o < length to → get_or (set to o x) o d ≡ x
get_or-set_same [] o x d h = absurd (omega arith)
get_or-set_same (y ∷ to) zero x d h = refl
get_or-set_same (y ∷ to) (suc o) x d h = get_or-set_same to o x d (omega arith)

pub copy_at-inside {ℓ} :
    {A : Type ℓ} (n : ℕ) (x : A) (o j : ℕ) (d : A) (to : List A)
    → o + n ≤ length to
    → o ≤ j
    → j < o + n
    → get_or (copy_at (replicate n x) o to) j d ≡ x
unfolding copy_at
copy_at-inside zero x o j d to h le lt = absurd (omega (arith, le, lt))
copy_at-inside (suc n) x o j d to h le lt =
    let size = length-set to o x in
    elim (Bool-cases (j == o)) [
      | inl e ↦
          let same : j ≡ o = ground (arith, e) in
          rw same (
            copy_at-below (replicate n x) (o + 1) o d (set to o x)
              (omega (arith, h, size, length-replicate n x)) (omega arith)
            ∙ get_or-set_same to o x d (omega (arith, h)))
      | inr e ↦
          copy_at-inside n x (o + 1) j d (set to o x) (omega (arith, h, size))
            (ground (arith, e, le)) (omega (arith, lt))
    ]

pub length-copy_at {ℓ} :
    {A : Type ℓ} (from : List A) (o : ℕ) (to : List A) → length (copy_at from o to) ≡ length to
unfolding copy_at
length-copy_at [] o to = refl
length-copy_at (x ∷ from) o to = length-copy_at from (o + 1) (set to o x) ∙ length-set to o x
