-- ===== src/Golomb/SignExtend.antt =====
-- `sign_extend`: the representative of a value between -2^(bits-1) and 2^(bits-1).
use mffv.Common.{
  ℕ, suc, ◌+◌, ◌-◌, ◌*◌, ◌/◌, ◌%◌, ◌^◌, ◌≤◌, ◌<◌, ◌≡◌, refl, ap, ◌∙◌, sym, arith, bit_and, leb,
  if◌then◌else◌, Bool, true, false, Bool-cases, inl, inr,
}
use mffv.Common.Bits.{bit_and_mask}
use mffv.Common.Int.{
  ℤ, pos, negsuc, pos_part, neg_part, ◌+ℤ◌, ◌-ℤ◌, +ℤ_parts, -ℤ_parts, eq_of_parts,
}
use mffv.Common.Cong.{
  Cong, Cong-refl, Cong-of_mul, Cong-trans, Cong-+ℤ, Cong-unique, Cong-mod, two_pow_add,
}
use mffv.Golomb.Context.{sign_extend, to_u64, complement_if}
use mffv.Golomb.Writer.{fold_sign}
use native.Mathlib.Nat.{pow-suc, one-le-pow, mod-lt}

-- -half ≤ v < half
abbrev pub InRange : ℕ → ℤ → Type 0
InRange half (pos n) = n < half
InRange half (negsuc n) = n < half

-- The encoded value before the sign is put back.
encoded_as_mod : (v : ℤ) (bits : ℕ) → bit_and (to_u64 v) (2 ^ bits - 1) ≡ to_u64 v % 2 ^ bits
encoded_as_mod v bits = bit_and_mask bits (to_u64 v)

to_u64-Cong : (v : ℤ) → Cong (2 ^ 64) (pos (to_u64 v)) v
to_u64-Cong (pos n) = Cong-mod (2 ^ 64) n
to_u64-Cong (negsuc n) = record { up = 0; down = n / 2 ^ 64 + 1; congruent = omega arith }

split_64 : (bits : ℕ) → bits ≤ 64 → 2 ^ (64 - bits) * 2 ^ bits ≡ 2 ^ 64
split_64 bits h =
    let e : 64 - bits + bits ≡ 64 = omega arith in
    sym (two_pow_add (64 - bits) bits) ∙ ap (λ t. 2 ^ t) e

pub encoded-Cong : (v : ℤ) (bits : ℕ) → bits ≤ 64 → Cong (2 ^ bits) (pos (to_u64 v % 2 ^ bits)) v
encoded-Cong v bits h =
    Cong-trans (Cong-mod (2 ^ bits) (to_u64 v))
      (Cong-of_mul (2 ^ (64 - bits)) (2 ^ bits) (rw (split_64 bits h) (to_u64-Cong v)))

half_of_range : (b : ℕ) → 2 ^ suc b / 2 ≡ 2 ^ b
half_of_range b = omega (arith, pow-suc 2 b)

-- The choice of the representative, on the encoded value.
wrap_encoded : ℕ → ℕ → ℤ
wrap_encoded half e = if leb half e then pos e -ℤ pos (half * 2) else pos e

wrap_encoded_lem :
    (half e : ℕ)
    → e < half * 2
    → InRange half (wrap_encoded half e) × Cong (half * 2) (wrap_encoded half e) (pos e)
unfolding wrap_encoded
wrap_encoded_lem half e h = elim (Bool-cases (leb half e)) [
  | inl high ↦ rw high (
    below (ground (arith, high)) (pos e -ℤ pos (half * 2)) (-ℤ_parts (pos e) (pos (half * 2))),
    record { up = 1; down = 0; congruent = omega (arith, -ℤ_parts (pos e) (pos (half * 2))) },
  )
  | inr low ↦ rw low (ground (arith, low), Cong-refl (half * 2) (pos e))
]
  where
    below : half ≤ e → (z : ℤ) → pos_part z + 0 + half * 2 ≡ neg_part z + e + 0 → InRange half z
    below le (pos n) p = omega arith
    below le (negsuc n) p = omega arith

sign_extend-eq-wrap :
    (v : ℤ) (b : ℕ) → sign_extend v (suc b) ≡ wrap_encoded (2 ^ b) (to_u64 v % 2 ^ suc b)
unfolding sign_extend wrap_encoded
sign_extend-eq-wrap v b = rw (encoded_as_mod v (suc b), half_of_range b, pow-suc 2 b)

-- At widths of 1 to 31 bits, sign_extend returns the value of the width's signed range that is
-- congruent to its argument.
pub sign_extend_lem :
    (v : ℤ) (b : ℕ)
    → b < 31
    → InRange (2 ^ b) (sign_extend v (suc b)) × Cong (2 ^ b * 2) (sign_extend v (suc b)) v
sign_extend_lem v b h =
    let (r, c) =
      wrap_encoded_lem (2 ^ b) (to_u64 v % 2 ^ suc b)
        (rw (← pow-suc 2 b) (mod-lt (to_u64 v) (one-le-pow (suc b) 2 (omega arith)))) in
    rw (sign_extend-eq-wrap v b)
      (r, Cong-trans c (rw (← pow-suc 2 b) (encoded-Cong v (suc b) (omega arith))))

-- Two values in the signed range that are congruent are equal.
pub InRange-unique :
    (half : ℕ) (a b : ℤ) → InRange half a → InRange half b → Cong (half * 2) a b → a ≡ b
InRange-unique half (pos m) (pos n) p q c = Cong-unique c (omega arith) (omega arith)
InRange-unique half (pos m) (negsuc n) p q c = Cong-unique c (omega arith) (omega arith)
InRange-unique half (negsuc m) (pos n) p q c = Cong-unique c (omega arith) (omega arith)
InRange-unique half (negsuc m) (negsuc n) p q c = Cong-unique c (omega arith) (omega arith)

cancel : (a b : ℤ) → a -ℤ b +ℤ b ≡ a
cancel a b = eq_of_parts (a -ℤ b +ℤ b) a (omega (arith, -ℤ_parts a b, +ℤ_parts (a -ℤ b) b))

-- At widths of 1 to 31 bits, subtracting a bias and adding it again, with a sign extension after
-- each step, returns every value in range.
pub sign_extend_shift :
    (v bias : ℤ) (b : ℕ)
    → b < 31
    → InRange (2 ^ b) v
    → sign_extend (sign_extend (v -ℤ bias) (suc b) +ℤ bias) (suc b) ≡ v
sign_extend_shift v bias b h r =
    let inner = sign_extend_lem (v -ℤ bias) b h in
    let outer = sign_extend_lem (sign_extend (v -ℤ bias) (suc b) +ℤ bias) b h in
    let back = rw (cancel v bias) at (Cong-+ℤ inner.1 (Cong-refl (2 ^ b * 2) bias)) in
    InRange-unique (2 ^ b) _ v outer.0 r (Cong-trans outer.1 back)

complement_pos : (n : ℕ) → negsuc 0 -ℤ pos n ≡ negsuc n
unfolding ◌-ℤ◌
complement_pos n = ground arith

complement_negsuc : (n : ℕ) → negsuc 0 -ℤ negsuc n ≡ pos n
unfolding ◌-ℤ◌
complement_negsuc n = ground arith

-- The complement stays in the range, and is its own inverse.
pub complement_if_lem :
    (inverted : Bool) (half : ℕ) (v : ℤ)
    → InRange half v
    → InRange half (complement_if inverted v)
      × (complement_if inverted (complement_if inverted v) ≡ v)
unfolding complement_if
complement_if_lem false half v r = (r, refl)
complement_if_lem true half (pos n) r = rw (complement_pos n, complement_negsuc n) (r, refl)
complement_if_lem true half (negsuc n) r = rw (complement_negsuc n, complement_pos n) (r, refl)

pub fold_sign-lt : (half : ℕ) (v : ℤ) → InRange half v → fold_sign v < half * 2
unfolding fold_sign
fold_sign-lt half (pos n) r = omega arith
fold_sign-lt half (negsuc n) r = omega arith
