-- ===== src/Common/Bits/Step.antt =====
-- The lowest digit of `|`, `&` and `^`. The native operations are a recursion over fuel.
use Prim.Native.Nat.{
  ℕ, zero, suc, ◌+◌, ◌*◌, ◌/◌, ◌%◌, ◌≤◌, min, max, digits, bitwise, bit_and, bit_or, bit_xor,
  bit_and-bitwise, bit_or-bitwise, bit_xor-bitwise, differ,
}
use native.Mathlib.Omega.{arith}
use mathlib.Core.Path.{◌≡◌, refl}

-- Two amounts of fuel give the same digits when both cover the left operand.
same_digits :
    (at_zero : ℕ → ℕ) (op : ℕ → ℕ → ℕ) (left right enough plenty : ℕ)
    → left ≤ plenty
    → left ≤ enough
    → digits at_zero op plenty left right ≡ digits at_zero op enough left right
same_digits at_zero op zero right zero zero below above = refl
same_digits at_zero op zero right zero (suc plenty) below above = refl
same_digits at_zero op zero right (suc enough) zero below above = refl
same_digits at_zero op zero right (suc enough) (suc plenty) below above = refl
same_digits at_zero op (suc left) right enough zero below above = absurd (omega arith)
same_digits at_zero op (suc left) right zero (suc plenty) below above = absurd (omega arith)
same_digits at_zero op (suc left) right (suc enough) (suc plenty) below above =
    let half =
      same_digits at_zero op (suc left / 2) (right / 2) enough plenty (omega arith) (omega arith) in
    rw half

lowest_digit :
    (at_zero : ℕ → ℕ) (op : ℕ → ℕ → ℕ) (left right : ℕ)
    → bitwise at_zero op (suc left) right
      ≡ bitwise at_zero op (suc left / 2) (right / 2) * 2 + op (suc left % 2) (right % 2)
lowest_digit at_zero op left right =
    let shrink =
      same_digits at_zero op (suc left / 2) (right / 2) (suc left / 2) left (omega arith)
        (omega arith) in
    omega (arith, shrink)

pub bit_xor_step : (x y : ℕ) → bit_xor x y ≡ bit_xor (x / 2) (y / 2) * 2 + differ (x % 2) (y % 2)
bit_xor_step zero y = simp bit_xor-bitwise (omega arith)
bit_xor_step (suc x) y = simp bit_xor-bitwise (lowest_digit (λ right. right) differ x y)

pub bit_and_step : (x y : ℕ) → bit_and x y ≡ bit_and (x / 2) (y / 2) * 2 + min (x % 2) (y % 2)
bit_and_step zero y = simp bit_and-bitwise (omega arith)
bit_and_step (suc x) y = simp bit_and-bitwise (lowest_digit (λ right. 0) min x y)

pub bit_or_step : (x y : ℕ) → bit_or x y ≡ bit_or (x / 2) (y / 2) * 2 + max (x % 2) (y % 2)
bit_or_step zero y = simp bit_or-bitwise (omega arith)
bit_or_step (suc x) y = simp bit_or-bitwise (lowest_digit (λ right. right) max x y)

pub differ-zero : (x : ℕ) → differ x 0 ≡ x
differ-zero zero = refl
differ-zero (suc x) = refl

pub differ_self : (x : ℕ) → differ x x ≡ 0
differ_self zero = refl
differ_self (suc x) = differ_self x
