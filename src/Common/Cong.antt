-- ===== src/Common/Cong.antt =====
-- Congruence of integers, by which the wrap-arounds of the code are compared.
use Prim.Native.Nat.{ℕ, zero, suc, ◌+◌, ◌*◌, ◌/◌, ◌%◌, ◌^◌, ◌<◌}
use mathlib.Core.Path.{◌≡◌}
use mffv.Common.Int.{ℤ, pos, pos_part, neg_part, ◌+ℤ◌, ◌-ℤ◌, +ℤ_parts, -ℤ_parts, eq_of_parts}
use native.Mathlib.Omega.{arith}
use native.Mathlib.Nat.{div-add-mod', pow-suc, add-suc, add-zero}

-- a and b differ by a multiple of m.
pub record Cong (m : ℕ) (a b : ℤ) : Type 0 where
  pub up : ℕ
  pub down : ℕ
  pub congruent : pos_part a + neg_part b + up * m ≡ pos_part b + neg_part a + down * m

pub Cong-refl : (m : ℕ) (a : ℤ) → Cong m a a
Cong-refl m a = record { up = 0; down = 0; congruent = omega arith }

pub Cong-sym : {m : ℕ} {a b : ℤ} → Cong m a b → Cong m b a
Cong-sym c = record { up = c.down; down = c.up; congruent = omega (arith, c.congruent) }

pub Cong-trans : {m : ℕ} {a b c : ℤ} → Cong m a b → Cong m b c → Cong m a c
Cong-trans p q = record {
  up = p.up + q.up;
  down = p.down + q.down;
  congruent = omega (arith, p.congruent, q.congruent);
}

pub Cong-+ℤ : {m : ℕ} {a b c d : ℤ} → Cong m a b → Cong m c d → Cong m (a +ℤ c) (b +ℤ d)
Cong-+ℤ {a = a} {b = b} {c = c} {d = d} p q = record {
  up = p.up + q.up;
  down = p.down + q.down;
  congruent = omega (arith, p.congruent, q.congruent, +ℤ_parts a c, +ℤ_parts b d);
}

pub Cong--ℤ : {m : ℕ} {a b c d : ℤ} → Cong m a b → Cong m c d → Cong m (a -ℤ c) (b -ℤ d)
Cong--ℤ {a = a} {b = b} {c = c} {d = d} p q = record {
  up = p.up + q.down;
  down = p.down + q.up;
  congruent = omega (arith, p.congruent, q.congruent, -ℤ_parts a c, -ℤ_parts b d);
}

-- A congruence by a multiple is one by the number.
pub Cong-of_mul : (k m : ℕ) {a b : ℤ} → Cong (k * m) a b → Cong m a b
Cong-of_mul k m c = record {
  up = c.up * k;
  down = c.down * k;
  congruent = omega (arith, c.congruent);
}

same_multiple : (m x y p q : ℕ) → p + x * m ≡ q + y * m → p < q + m → q < p + m → p ≡ q
same_multiple m zero zero p q e h k = omega arith
same_multiple m zero (suc y) p q e h k = absurd (omega arith)
same_multiple m (suc x) zero p q e h k = absurd (omega arith)
same_multiple m (suc x) (suc y) p q e h k = same_multiple m x y p q (omega arith) h k

-- Congruent integers less than m apart are equal.
pub Cong-unique :
    {m : ℕ} {a b : ℤ}
    → Cong m a b
    → pos_part a + neg_part b < pos_part b + neg_part a + m
    → pos_part b + neg_part a < pos_part a + neg_part b + m
    → a ≡ b
Cong-unique {m} {a} {b} c h k = eq_of_parts a b (
    same_multiple m c.up c.down (pos_part a + neg_part b) (pos_part b + neg_part a) c.congruent h k)

pub Cong-mod : (m n : ℕ) → Cong m (pos (n % m)) (pos n)
Cong-mod m n = record { up = n / m; down = 0; congruent = omega (arith, div-add-mod' n m) }

pub two_pow_add : (a b : ℕ) → 2 ^ (a + b) ≡ 2 ^ a * 2 ^ b
two_pow_add a zero = rw add-zero (omega arith)
two_pow_add a (suc b) = rw (add-suc, pow-suc 2 (a + b), pow-suc 2 b, two_pow_add a b) (omega arith)
