-- ===== src/Range/Prefix.antt =====
-- A byte string as a number in base 256, padded with zeros, and what `add_to_low` does to it.
use mffv.Common.{
  ℕ, zero, suc, ◌+◌, ◌*◌, ◌/◌, ◌%◌, ◌^◌, ◌≤◌, ◌<◌, ◌≡◌, refl, ap, ◌∙◌, arith, List, [], ◌∷◌, ◌++◌,
  length, get_or, set, length-set, get_or-set, get_or-append_left, get_or-append_right,
  length-append, ◌==◌, true, false, Bool-cases, inl, inr, add-zero,
}
use mffv.Range.Write.{add_carry}
use native.Mathlib.Nat.{pow-suc}

-- The first n bytes as a number; past the end the bytes are zero.
unfoldable pub prefix : List ℕ → ℕ → ℕ
prefix bytes zero = 0
prefix bytes (suc n) = prefix bytes n * 256 + get_or bytes n 0

-- The whole string.
unfoldable pub value : List ℕ → ℕ
value bytes = prefix bytes (length bytes)

pub prefix_ext :
    (a b : List ℕ) (n : ℕ)
    → ((i : ℕ) → i < n → get_or a i 0 ≡ get_or b i 0)
    → prefix a n ≡ prefix b n
unfolding prefix
prefix_ext a b zero h = refl
prefix_ext a b (suc n) h = rw (prefix_ext a b n (λ i lt. h i (omega arith)), h n (omega arith)) refl

prefix-set_above :
    (bytes : List ℕ) (i n v : ℕ)
    → i < length bytes
    → n ≤ i
    → prefix (set bytes i v) n ≡ prefix bytes n
prefix-set_above bytes i n v lt le =
    prefix_ext (set bytes i v) bytes n (λ j below. ground (arith, get_or-set bytes i j v 0))

-- One more byte at the end.
pub value-push : (bytes : List ℕ) (b : ℕ) → value (bytes ++ (b ∷ [])) ≡ value bytes * 256 + b
unfolding value
value-push bytes b =
    let e : length (bytes ++ (b ∷ [])) ≡ suc (length bytes) =
      omega (arith, length-append bytes (b ∷ [])) in
    let at = rw add-zero at (get_or-append_right bytes (b ∷ []) 0 0) in
    rw (e) (
      unfold prefix in
      rw
        (
          prefix_ext (bytes ++ (b ∷ [])) bytes (length bytes)
              (λ i lt. get_or-append_left bytes (b ∷ []) i 0 lt),
          at,
        )
        refl)

-- What the loop leaves: the carry is added to the bytes below the index, and no other changes.
pub record IsAdded (index carry : ℕ) (bytes : List ℕ) (result : List ℕ × ℕ) : Type 0 where
  pub same_length : length result.0 ≡ length bytes
  pub total : prefix result.0 index + result.1 * 256 ^ index ≡ prefix bytes index + carry
  pub above : (j : ℕ) → index ≤ j → get_or result.0 j 0 ≡ get_or bytes j 0
  pub keeps_bytes : ((j : ℕ) → get_or bytes j 0 < 256) → (j : ℕ) → get_or result.0 j 0 < 256

stops : (index carry : ℕ) (bytes : List ℕ) → carry ≡ 0 → IsAdded index carry bytes (bytes, carry)
stops index carry bytes e = record {
  same_length = refl;
  total = rw e (omega arith);
  above = λ j le. refl;
  keeps_bytes = λ h. h;
}

add_carry_step :
    (index carry : ℕ) (bytes : List ℕ)
    → index < length bytes
    → let sum = get_or bytes index 0 + carry % 256 in
      let bytes' = set bytes index (sum % 256) in
      let carry' = carry / 256 + sum / 256 in
      IsAdded index carry' bytes' (add_carry index carry' bytes')
      → IsAdded (suc index) carry bytes (add_carry (suc index) carry bytes)
add_carry_step index carry bytes h rest = elim (Bool-cases (carry == 0)) [
  | inl none_left ↦ rw (done none_left) (stops (suc index) carry bytes (ground (arith, none_left)))
  | inr more ↦ rw (goes_on more) (record {
    same_length = rest.same_length ∙ length-set bytes index (sum % 256);
    total =
        unfold prefix in
        omega (
          arith,
          rest.total,
          prefix-set_above bytes index index (sum % 256) (omega arith) (omega arith),
          at_index,
          ap (λ (t : ℕ). result.1 * t) (pow-suc 256 index),
        );
    above =
        λ j le. ground (arith, rest.above j, get_or-set bytes index j (sum % 256) 0 (omega arith));
    keeps_bytes = λ b.
        rest.keeps_bytes
          (λ j. ground (arith, b j, get_or-set bytes index j (sum % 256) 0 (omega arith)));
  })
]
  where
    sum : ℕ
    sum = get_or bytes index 0 + carry % 256

    result : List ℕ × ℕ
    result = add_carry index (carry / 256 + sum / 256) (set bytes index (sum % 256))

    at_index : get_or result.0 index 0 ≡ sum % 256
    at_index =
        ground (arith, rest.above index, get_or-set bytes index index (sum % 256) 0 (omega arith))

    done : (carry == 0) ≡ true → add_carry (suc index) carry bytes ≡ (bytes, carry)
    done e = unfold add_carry in rw e

    goes_on : (carry == 0) ≡ false → add_carry (suc index) carry bytes ≡ result
    goes_on e = unfold add_carry in rw e

-- For an index inside the bytes, the carry loop adds the carry to the number that the bytes below
-- the index spell, up to the carry that it gives back, keeps the bytes above and the length, and
-- keeps every byte below 256.
pub add_carry_lem :
    (index carry : ℕ) (bytes : List ℕ)
    → index ≤ length bytes
    → IsAdded index carry bytes (add_carry index carry bytes)
add_carry_lem zero carry bytes h =
    unfold add_carry in
    record {
      same_length = refl;
      total = unfold prefix in omega arith;
      above = λ j le. refl;
      keeps_bytes = λ b. b;
    }
add_carry_lem (suc index) carry bytes h =
    add_carry_step index carry bytes h (add_carry_lem index _ _ (rw length-set (omega arith)))
