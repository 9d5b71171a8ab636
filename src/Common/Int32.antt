-- ===== src/Common/Int32.antt =====
-- The machine's signed 32-bit integers: which integers they are, and the wrap-around of two's
-- complement.
use Prim.Native.Nat.{ℕ, ◌+◌, ◌-◌, ◌%◌, ◌/◌, ◌*◌, ◌^◌, ◌≤◌, ◌<◌}
use mathlib.Core.Path.{◌≡◌, refl, ap, ◌∙◌, sym, subst}
use mathlib.Core.Logic.{inl, inr}
use native.Mathlib.Omega.{arith}
use mffv.Common.Tests.{ltb, if◌then◌else◌, Bool-cases}
use mffv.Common.Int.{ℤ, pos, negsuc, pos_part, neg_part, ◌+ℤ◌, ◌-ℤ◌}
use mffv.Common.Cong.{Cong, Cong-mod, Cong-of_mul, Cong-trans, two_pow_add}

-- The values of `int32_t`.
abbrev pub IsInt32 : ℤ → Type 0
IsInt32 (pos n) = n < 2 ^ 31
IsInt32 (negsuc n) = n < 2 ^ 31

-- Sums and differences that stay within the type.
pub +ℤ-IsInt32 :
    (a b : ℤ)
    → pos_part a + pos_part b < 2 ^ 31
    → neg_part a + neg_part b ≤ 2 ^ 31
    → IsInt32 (a +ℤ b)
unfolding ◌+ℤ◌
+ℤ-IsInt32 a b h k = ground arith

pub -ℤ-IsInt32 :
    (a b : ℤ)
    → pos_part a + neg_part b < 2 ^ 31
    → neg_part a + pos_part b ≤ 2 ^ 31
    → IsInt32 (a -ℤ b)
unfolding ◌-ℤ◌
-ℤ-IsInt32 a b h k = ground arith

-- The integer that a word of 32 bits stands for.
abbrev pub signed_word : ℕ → ℤ
signed_word n = if ltb n (2 ^ 31) then pos n else negsuc (2 ^ 32 - 1 - n)

unfoldable pub wrap_int32 : ℤ → ℤ
wrap_int32 (pos n) = signed_word (n % 2 ^ 32)
wrap_int32 (negsuc n) = signed_word (2 ^ 32 - 1 - n % 2 ^ 32)

-- A value of the type is itself.
pub wrap_int32_same : (v : ℤ) → IsInt32 v → wrap_int32 v ≡ v
unfolding wrap_int32
wrap_int32_same (pos n) h = ground arith
wrap_int32_same (negsuc n) h = ground arith

-- Every value is wrapped to one of the type.
pub wrap_int32-IsInt32 : (v : ℤ) → IsInt32 (wrap_int32 v)
unfolding wrap_int32
wrap_int32-IsInt32 (pos n) = ground arith
wrap_int32-IsInt32 (negsuc n) = ground arith

signed_word-Cong : (n : ℕ) → n < 2 ^ 32 → Cong (2 ^ 32) (signed_word n) (pos n)
signed_word-Cong n h = elim (Bool-cases (ltb n (2 ^ 31))) [
  | inl low ↦ rw low (record { up = 0; down = 0; congruent = refl })
  | inr high ↦ rw high (record { up = 1; down = 0; congruent = omega (arith, h) })
]

wrap_int32_mod : (v : ℤ) → Cong (2 ^ 32) (wrap_int32 v) v
unfolding wrap_int32
wrap_int32_mod (pos n) =
    Cong-trans (signed_word-Cong (n % 2 ^ 32) (omega arith)) (Cong-mod (2 ^ 32) n)
wrap_int32_mod (negsuc n) =
    Cong-trans (signed_word-Cong (2 ^ 32 - 1 - n % 2 ^ 32) (omega arith))
      (record { up = 0; down = 1 + n / 2 ^ 32; congruent = omega arith })

-- The wrap-around keeps a value up to a multiple of every smaller power of two.
pub wrap_int32-Cong : (v : ℤ) (bits : ℕ) → bits ≤ 32 → Cong (2 ^ bits) (wrap_int32 v) v
wrap_int32-Cong v bits h =
    let split : 32 - bits + bits ≡ 32 = omega (arith, h) in
    let power : 2 ^ 32 ≡ 2 ^ (32 - bits) * 2 ^ bits =
      ap (λ (n : ℕ). 2 ^ n) (sym split) ∙ two_pow_add (32 - bits) bits in
    Cong-of_mul (2 ^ (32 - bits)) (2 ^ bits)
      (subst (λ (m : ℕ). Cong m (wrap_int32 v) v) power (wrap_int32_mod v))
