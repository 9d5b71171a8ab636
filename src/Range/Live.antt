-- ===== src/Range/Live.antt =====
-- The states and the registers with which the encoder cannot fail but for want of room.
use mffv.Common.{
  ℕ, zero, suc, ◌+◌, ◌*◌, ◌≤◌, ◌<◌, ◌≡◌, refl, ap, ◌∙◌, arith, Bool, true, false, ◌&&◌, List, [],
  ◌∷◌, length, get_or, set, length-set, ltb, ◌==◌, ◌⊎◌, inl, inr,
}
use mffv.Common.Status.{ok, >>=-ok}
use mffv.Range.Transition.{StateTransitionTable}
use mffv.Range.Contexts.{ScalarContexts, state_at, set_state}
use mffv.Range.Encoder.{RangeEncoder}
use mffv.Range.Write.{next_state, add_if_one, zero_range, write_rac, renormalize}
use mffv.Range.Steps.{
  IsInterval, IsWritten, share-lt, width, next_range_lem, add_if_one_lem, write_rac_lem,
}

-- The states that the default table never leaves.
abbrev pub IsLive : ℕ → Type 0
IsLive state = (8 ≤ state) × (state ≤ 248)

abbrev pub IsLiveTable : StateTransitionTable → Type 0
IsLiveTable table = (state : ℕ) (v : Bool) → IsLive state → IsLive (next_state table state v)

-- Every context of every bank is inside the vector, and all its 32 states are live.
pub record IsLiveScalar (s : ScalarContexts) : Type 0 where
  pub layout :
      (bank context : ℕ)
      → bank < length s.bank_sizes
      → context < get_or s.bank_sizes bank 0
      → get_or s.bank_offsets bank 0 + context < length s.contexts
  pub full : (p : ℕ) → p < length s.contexts → length (get_or s.contexts p []) ≡ 32
  pub live :
      (p i : ℕ) → p < length s.contexts → i < 32 → IsLive (get_or (get_or s.contexts p []) i 0)

pub get_or-set_cases {ℓ} :
    {A : Type ℓ} (xs : List A) (i j : ℕ) (v d : A)
    → i < length xs
    → ((j ≡ i) × (get_or (set xs i v) j d ≡ v)) ⊎ (get_or (set xs i v) j d ≡ get_or xs j d)
get_or-set_cases [] i j v d h = absurd (omega arith)
get_or-set_cases (x ∷ xs) zero zero v d h = inl (refl, refl)
get_or-set_cases (x ∷ xs) zero (suc j) v d h = inr refl
get_or-set_cases (x ∷ xs) (suc i) zero v d h = inr refl
get_or-set_cases (x ∷ xs) (suc i) (suc j) v d h = elim (get_or-set_cases xs i j v d (omega arith)) [
  | inl (e, p) ↦ inl (ap suc e, p)
  | inr p ↦ inr p
]

pub set_state-IsLiveScalar :
    (s : ScalarContexts) (bank context index state : ℕ)
    → IsLiveScalar s
    → bank < length s.bank_sizes
    → context < get_or s.bank_sizes bank 0
    → index < 32
    → IsLive state
    → IsLiveScalar (set_state s bank context index state)
unfolding set_state
set_state-IsLiveScalar s bank context index state l b c i h =
    let p = get_or s.bank_offsets bank 0 + context in
    let old = get_or s.contexts p [] in
    let new = set old index state in
    let inside = l.layout bank context b c in
    let size = length-set s.contexts p new in
    record {
      layout = λ bank' context' b' c'. rw size (l.layout bank' context' b' c');
      full = λ q h'. elim (get_or-set_cases s.contexts p q new [] inside) [
        | inl (e, at) ↦ rw at (length-set old index state ∙ l.full p inside)
        | inr at ↦ rw at (l.full q (rw size at h'))
      ];
      live = λ q j h' j'. elim (get_or-set_cases s.contexts p q new [] inside) [
        | inl (e, at) ↦
            rw at (elim (get_or-set_cases old index j state 0 (omega (arith, l.full p inside, i))) [
              | inl (_, at') ↦ rw at' h
              | inr at' ↦ rw at' (l.live p j inside j')
            ])
        | inr at ↦ rw at (l.live q j (rw size at h') j')
      ];
    }

pub state_at-IsLive :
    (s : ScalarContexts) (bank context index : ℕ)
    → IsLiveScalar s
    → bank < length s.bank_sizes
    → context < get_or s.bank_sizes bank 0
    → index < 32
    → IsLive (state_at s bank context index)
unfolding state_at
state_at-IsLive s bank context index l b c i =
    l.live (get_or s.bank_offsets bank 0 + context) index (l.layout bank context b c) i

-- Both shares of a live state are positive.
pub width_positive :
    (range state : ℕ) (v : Bool) → 256 ≤ range → IsLive state → 0 < width range state v
width_positive range state true h (a, b) =
    let bound : 256 * 8 ≤ range * state = grind arith in omega (arith, bound)
width_positive range state false h (a, b) =
    omega (arith, share-lt range state (omega arith) (omega arith))

-- On an interval of at least 256 values, with a state from 8 to 248 and room for one byte,
-- write_rac succeeds: it returns the next state, and the new interval is the share of the bit.
pub write_rac_total :
    (e : RangeEncoder) (state : ℕ) (v : Bool)
    → IsInterval e
    → IsLive state
    → length e.low_bytes < e.max_size
    → (e' : RangeEncoder) × (write_rac state v e ≡ ok (next_state e.state_transition state v) e')
      × IsWritten e state v e'
write_rac_total e state v i l room =
    let byte : state < 256 = omega (arith, l.1) in
    let positive = width_positive e.range state v i.range_low l in
    let (bytes', added, _, _, _) = add_if_one_lem e state v i byte positive in
    let e' = renormalize (width e.range state v) (record e { low_bytes = bytes' }) in
    let some_width : (width e.range state v == 0) ≡ false = ground (arith, positive) in
    let not_full : (ltb (width e.range state v) 256 && length e.low_bytes == e.max_size) ≡ false =
      ground (arith, room) in
    let done : write_rac state v e ≡ ok (next_state e.state_transition state v) e' =
      unfold write_rac in
      rw (next_range_lem e.range state v i.range_low i.range_high byte, some_width, not_full)
        (>>=-ok (add_if_one v (zero_range e.range state)) _ added) in
    (e', done, (write_rac_lem e state v _ e' i byte done).0)
