-- ===== src/Common/Bits/Xor.antt =====
-- Exclusive or as a group, and the bits above a place.
use Prim.Native.Nat.{ℕ, zero, suc, ◌+◌, ◌*◌, ◌/◌, ◌%◌, ◌^◌, ◌≤◌, ◌<◌, bit_and, bit_xor, differ}
use native.Mathlib.Omega.{arith}
use native.Mathlib.Nat.{pow-suc}
use mathlib.Core.Path.{◌≡◌, refl, ap}
use mffv.Common.Bits.Step.{bit_xor_step, bit_and_step}

differ_cancel : (a b : ℕ) → a < 2 → b < 2 → differ (differ a b) b ≡ a
differ_cancel zero zero h h' = refl
differ_cancel zero (suc zero) h h' = refl
differ_cancel (suc zero) zero h h' = refl
differ_cancel (suc zero) (suc zero) h h' = refl
differ_cancel (suc (suc a)) b h h' = absurd (omega arith)
differ_cancel zero (suc (suc b)) h h' = absurd (omega arith)
differ_cancel (suc zero) (suc (suc b)) h h' = absurd (omega arith)

differ-lt : (a b : ℕ) → a < 2 → b < 2 → differ a b < 2
differ-lt zero zero h h' = omega arith
differ-lt zero (suc zero) h h' = omega arith
differ-lt (suc zero) zero h h' = omega arith
differ-lt (suc zero) (suc zero) h h' = omega arith
differ-lt (suc (suc a)) b h h' = absurd (omega arith)
differ-lt zero (suc (suc b)) h h' = absurd (omega arith)
differ-lt (suc zero) (suc (suc b)) h h' = absurd (omega arith)

cancel_up_to : (bound x y : ℕ) → x ≤ bound → y ≤ bound → bit_xor (bit_xor x y) y ≡ x
cancel_up_to zero zero zero h h' = refl
cancel_up_to zero zero (suc y) h h' = absurd (omega arith)
cancel_up_to zero (suc x) y h h' = absurd (omega arith)
cancel_up_to (suc bound) x y h h' =
    let low = differ (x % 2) (y % 2) in
    let small = differ-lt (x % 2) (y % 2) (omega arith) (omega arith) in
    let half = cancel_up_to bound (x / 2) (y / 2) (omega arith) (omega arith) in
    let high : bit_xor x y / 2 ≡ bit_xor (x / 2) (y / 2) = omega (arith, bit_xor_step x y, small) in
    let bit : bit_xor x y % 2 ≡ low = omega (arith, bit_xor_step x y, small) in
    let step = rw (high, bit) at (bit_xor_step (bit_xor x y) y) in
    omega (arith, step, half, differ_cancel (x % 2) (y % 2) (omega arith) (omega arith))

pub bit_xor_cancel : (x y : ℕ) → bit_xor (bit_xor x y) y ≡ x
bit_xor_cancel x y = cancel_up_to (x + y) x y (omega arith) (omega arith)

pub bit_xor-lt : (places x y : ℕ) → x < 2 ^ places → y < 2 ^ places → bit_xor x y < 2 ^ places
bit_xor-lt zero zero zero h h' = omega arith
bit_xor-lt zero zero (suc y) h h' = absurd (omega arith)
bit_xor-lt zero (suc x) y h h' = absurd (omega arith)
bit_xor-lt (suc places) x y h h' =
    let two = pow-suc 2 places in
    let half = bit_xor-lt places (x / 2) (y / 2) (omega (arith, two)) (omega (arith, two)) in
    omega
      (arith, two, half, bit_xor_step x y, differ-lt (x % 2) (y % 2) (omega arith) (omega arith))

shift_once : (high places : ℕ) → high * 2 ^ suc places ≡ 2 * (high * 2 ^ places)
shift_once high places =
    let doubled = ap (λ (p : ℕ). high * p) (pow-suc 2 places) in omega (arith, doubled)

-- A mask of bits from a place on keeps what stands there.
pub bit_and_high :
    (places high low b : ℕ)
    → low < 2 ^ places
    → bit_and (high * 2 ^ places + low) (b * 2 ^ places) ≡ bit_and high b * 2 ^ places
bit_and_high zero high low b fits = ground arith
bit_and_high (suc places) high low b fits =
    let small : low / 2 < 2 ^ places = omega (arith, pow-suc 2 places) in
    ground (
      arith,
      bit_and_high places high (low / 2) b small,
      pow-suc 2 places,
      shift_once high places,
      shift_once b places,
      shift_once (bit_and high b) places,
      bit_and_step (high * 2 ^ suc places + low) (b * 2 ^ suc places),
    )

pub xor_odd : (a b : ℕ) → bit_xor (a * 2) (b * 2 + 1) ≡ bit_xor a b * 2 + 1
xor_odd a b =
    let e₁ : a * 2 / 2 ≡ a = omega arith in
    let e₂ : (b * 2 + 1) / 2 ≡ b = omega arith in
    let e₃ : a * 2 % 2 ≡ 0 = omega arith in
    let e₄ : (b * 2 + 1) % 2 ≡ 1 = omega arith in
    rw (e₁, e₂, e₃, e₄) at (bit_xor_step (a * 2) (b * 2 + 1))

differ_comm : (a b : ℕ) → a < 2 → b < 2 → differ a b ≡ differ b a
differ_comm zero zero h h' = refl
differ_comm zero (suc b) h h' = refl
differ_comm (suc a) zero h h' = refl
differ_comm (suc zero) (suc zero) h h' = refl
differ_comm (suc (suc a)) (suc b) h h' = absurd (omega arith)
differ_comm (suc zero) (suc (suc b)) h h' = absurd (omega arith)

comm_up_to : (bound x y : ℕ) → x ≤ bound → y ≤ bound → bit_xor x y ≡ bit_xor y x
comm_up_to zero zero zero h h' = refl
comm_up_to zero zero (suc y) h h' = absurd (omega arith)
comm_up_to zero (suc x) y h h' = absurd (omega arith)
comm_up_to (suc bound) x y h h' = omega (
  arith,
  bit_xor_step x y,
  bit_xor_step y x,
  differ_comm (x % 2) (y % 2) (omega arith) (omega arith),
  comm_up_to bound (x / 2) (y / 2) (omega arith) (omega arith),
)

pub bit_xor_comm : (x y : ℕ) → bit_xor x y ≡ bit_xor y x
bit_xor_comm x y = comm_up_to (x + y) x y (omega arith) (omega arith)
