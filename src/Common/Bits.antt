-- ===== src/Common/Bits.antt =====
-- The masks and exclusive ors of the code as arithmetic, at every width.
mod Step
pub mod Xor
use Step.{bit_or_step, bit_and_step, bit_xor_step, differ-zero, differ_self}
use mathlib.Core.Path.{◌≡◌, refl, ap}
use native.Mathlib.Nat.{pow-suc, one-le-pow}
use native.Mathlib.Omega.{arith}
use Prim.Native.Nat.{ℕ, zero, suc, ◌+◌, ◌-◌, ◌*◌, ◌/◌, ◌%◌, ◌^◌, ◌≤◌, ◌<◌, bit_and, bit_or, bit_xor}

-- The three operations with nothing on the right, and the exclusive or of a number with itself.
record Trivial (x : ℕ) : Type 0 where
  with_or : bit_or x 0 ≡ x
  with_and : bit_and x 0 ≡ 0
  with_xor : bit_xor x 0 ≡ x
  cancelled : bit_xor x x ≡ 0

-- From half of a number to the number, as long as the bound lasts.
Trivial-up_to : (bound x : ℕ) → x ≤ bound → Trivial x
Trivial-up_to bound zero le = record {
  with_or = refl;
  with_and = refl;
  with_xor = refl;
  cancelled = refl;
}
Trivial-up_to zero (suc x) le = absurd (omega arith)
Trivial-up_to (suc bound) (suc x) le =
    let half = Trivial-up_to bound (suc x / 2) (omega arith) in
    record {
      with_or = omega (arith, bit_or_step (suc x) 0, half.with_or);
      with_and = omega (arith, bit_and_step (suc x) 0, half.with_and);
      with_xor = ground (arith, bit_xor_step (suc x) 0, differ-zero (suc x % 2), half.with_xor);
      cancelled =
          ground (arith, bit_xor_step (suc x) (suc x), differ_self (suc x % 2), half.cancelled);
    }

Trivial-all : (x : ℕ) → Trivial x
Trivial-all x = Trivial-up_to x x (omega arith)

pub bit_or-zero : (x : ℕ) → bit_or x 0 ≡ x
bit_or-zero x = (Trivial-all x).with_or

pub bit_and-zero : (x : ℕ) → bit_and x 0 ≡ 0
bit_and-zero x = (Trivial-all x).with_and

pub bit_xor-zero : (x : ℕ) → bit_xor x 0 ≡ x
bit_xor-zero x = (Trivial-all x).with_xor

pub bit_xor_self : (x : ℕ) → bit_xor x x ≡ 0
bit_xor_self x = (Trivial-all x).cancelled

-- One more place to the left.
shift_once : (high places : ℕ) → high * 2 ^ suc places ≡ 2 * (high * 2 ^ places)
shift_once high places =
    let doubled = ap (λ (p : ℕ). high * p) (pow-suc 2 places) in omega (arith, doubled)

-- `(high << places) | low` is a sum when `low` fits the places.
pub bit_or_fields :
    (places high low : ℕ)
    → low < 2 ^ places
    → bit_or (high * 2 ^ places) low ≡ high * 2 ^ places + low
bit_or_fields zero high low fits = ground (arith, bit_or-zero high)
bit_or_fields (suc places) high low fits =
    let small : low / 2 < 2 ^ places = omega (arith, pow-suc 2 places) in
    ground (
      arith,
      bit_or_fields places high (low / 2) small,
      pow-suc 2 places,
      shift_once high places,
      bit_or_step (high * 2 ^ suc places) low,
    )

-- A mask keeps the low field.
masked :
    (places high low : ℕ)
    → low < 2 ^ places
    → bit_and (high * 2 ^ places + low) (2 ^ places - 1) ≡ low
masked zero high low fits = ground (arith, bit_and-zero (high * 1 + low))
masked (suc places) high low fits =
    let small : low / 2 < 2 ^ places = omega (arith, pow-suc 2 places) in
    ground (
      arith,
      masked places high (low / 2) small,
      pow-suc 2 places,
      shift_once high places,
      bit_and_step (high * 2 ^ suc places + low) (2 ^ suc places - 1),
    )

-- A mask of the low places is a remainder.
pub bit_and_mask : (places x : ℕ) → bit_and x (2 ^ places - 1) ≡ x % 2 ^ places
bit_and_mask places x =
    ground (arith, masked places (x / 2 ^ places) (x % 2 ^ places), one-le-pow places 2)

-- An exclusive or with a shifted value leaves the low places alone.
pub bit_xor_high :
    (places high low b : ℕ)
    → low < 2 ^ places
    → bit_xor (high * 2 ^ places + low) (b * 2 ^ places) ≡ bit_xor high b * 2 ^ places + low
bit_xor_high zero high low b fits = ground (arith)
bit_xor_high (suc places) high low b fits =
    let small : low / 2 < 2 ^ places = omega (arith, pow-suc 2 places) in
    ground (
      arith,
      bit_xor_high places high (low / 2) b small,
      pow-suc 2 places,
      differ-zero ((high * 2 ^ suc places + low) % 2),
      shift_once high places,
      shift_once b places,
      shift_once (bit_xor high b) places,
      bit_xor_step (high * 2 ^ suc places + low) (b * 2 ^ suc places),
    )
