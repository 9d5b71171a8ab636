-- ===== src/Util/Crc32/Detect.antt =====
-- What a zero remainder of src/util/crc32.cpp says.
use mffv.Common.{
  ℕ, zero, suc, ◌+◌, ◌-◌, ◌*◌, ◌/◌, ◌%◌, ◌^◌, ◌≤◌, ◌<◌, ◌≡◌, refl, ap, ◌∙◌, sym, arith, true, false,
  bit_and, bit_xor, ◌==◌, Bool-cases, inl, inr, ltb, ltb→lt, zero-add,
}
use mffv.Common.Bits.{bit_xor_high, bit_xor_self, bit_and_mask}
use mffv.Common.Bits.Xor.{bit_xor_cancel, bit_xor-lt, bit_and_high, xor_odd, bit_xor_comm}
use mffv.Util.Crc32.{polynomial, crc_step, crc_rounds, crc_byte}
use native.Mathlib.Nat.{pow-suc, one-le-pow}

-- The highest bit of a 32-bit number.
top_bit : (r : ℕ) → r < 2 ^ 32 → bit_and r 0x80000000 ≡ r / 2 ^ 31 * 2 ^ 31
top_bit r h =
    let q = r / 2 ^ 31 in
    let split : q * 2 ^ 31 + r % 2 ^ 31 ≡ r = omega arith in
    let high = rw split at (bit_and_high 31 q (r % 2 ^ 31) 1 (omega arith)) in
    let bit : bit_and q 1 ≡ q = omega (arith, bit_and_mask 1 q) in
    high ∙ ap (λ (b : ℕ). b * 2 ^ 31) bit

low_of_step : (r : ℕ) → r < 2 ^ 31 → crc_step r ≡ r * 2
unfolding crc_step
low_of_step r h =
    let clear : (bit_and r 0x80000000 == 0) ≡ true = ground (arith, top_bit r (omega arith)) in
    rw clear (omega arith)

high_of_step :
    (r : ℕ) → 2 ^ 31 ≤ r → r < 2 ^ 32 → crc_step r ≡ bit_xor ((r - 2 ^ 31) * 2) polynomial
unfolding crc_step
high_of_step r h h' =
    let set : (bit_and r 0x80000000 == 0) ≡ false = ground (arith, top_bit r h') in
    let wrapped : r * 2 % 2 ^ 32 ≡ (r - 2 ^ 31) * 2 = omega arith in rw (set, wrapped) refl

crc_step-lt : (r : ℕ) → r < 2 ^ 32 → crc_step r < 2 ^ 32
crc_step-lt r h = elim (Bool-cases (ltb r (2 ^ 31))) [
  | inl low ↦ omega (arith, low_of_step r (ground (arith, low)), ltb→lt r (2 ^ 31) low)
  | inr high ↦
      rw (high_of_step r (ground (arith, high)) h)
        (bit_xor-lt 32 ((r - 2 ^ 31) * 2) polynomial (omega (arith, h)) (omega arith))
]

-- The polynomial is odd: a round that subtracts it leaves an odd remainder.
odd_step : (r : ℕ) → 2 ^ 31 ≤ r → r < 2 ^ 32 → crc_step r % 2 ≡ 1
odd_step r h h' = omega (arith, high_of_step r h h', xor_odd (r - 2 ^ 31) 0x02608edb)

-- No two remainders have the same successor.
crc_step-injective : (x y : ℕ) → x < 2 ^ 32 → y < 2 ^ 32 → crc_step x ≡ crc_step y → x ≡ y
crc_step-injective x y hx hy e = elim (Bool-cases (ltb x (2 ^ 31))) [
  | inl low ↦
      let lx = ltb→lt x (2 ^ 31) low in
      elim (Bool-cases (ltb y (2 ^ 31))) [
        | inl low' ↦ omega (arith, e, low_of_step x lx, low_of_step y (ltb→lt y (2 ^ 31) low'))
        | inr high' ↦
            absurd (omega (arith, e, low_of_step x lx, odd_step y (ground (arith, high')) hy))
      ]
  | inr high ↦
      let ux : 2 ^ 31 ≤ x = ground (arith, high) in
      elim (Bool-cases (ltb y (2 ^ 31))) [
        | inl low' ↦
            absurd (omega (arith, e, low_of_step y (ltb→lt y (2 ^ 31) low'), odd_step x ux hx))
        | inr high' ↦
            let uy : 2 ^ 31 ≤ y = ground (arith, high') in
            let same = sym (high_of_step x ux hx) ∙ e ∙ high_of_step y uy hy in
            let back =
              sym (bit_xor_cancel ((x - 2 ^ 31) * 2) polynomial)
              ∙ ap (λ (r : ℕ). bit_xor r polynomial) same
              ∙ bit_xor_cancel ((y - 2 ^ 31) * 2) polynomial in
            omega (arith, back, ux, uy)
      ]
]

crc_rounds-lt : (n r : ℕ) → r < 2 ^ 32 → crc_rounds n r < 2 ^ 32
unfolding crc_rounds
crc_rounds-lt zero r h = h
crc_rounds-lt (suc n) r h = crc_rounds-lt n (crc_step r) (crc_step-lt r h)

crc_rounds-injective :
    (n x y : ℕ) → x < 2 ^ 32 → y < 2 ^ 32 → crc_rounds n x ≡ crc_rounds n y → x ≡ y
unfolding crc_rounds
crc_rounds-injective zero x y hx hy e = e
crc_rounds-injective (suc n) x y hx hy e =
    crc_step-injective x y hx hy
      (crc_rounds-injective n (crc_step x) (crc_step y) (crc_step-lt x hx) (crc_step-lt y hy) e)

le-mul_pos : (x p : ℕ) → 1 ≤ p → x ≤ x * p
le-mul_pos x zero h = absurd (omega arith)
le-mul_pos x (suc p) h = omega arith

-- While the highest bits are clear the rounds only shift.
crc_rounds_shift : (n r : ℕ) → r * 2 ^ n < 2 ^ 32 → crc_rounds n r ≡ r * 2 ^ n
unfolding crc_rounds
crc_rounds_shift zero r h = omega arith
crc_rounds_shift (suc n) r h =
    let two = pow-suc 2 n in
    let twice : r * 2 ^ suc n ≡ r * 2 * 2 ^ n = omega (arith, ap (λ (t : ℕ). r * t) two) in
    let low : r < 2 ^ 31 =
      omega (arith, le-mul_pos (r * 2) (2 ^ n) (one-le-pow n 2 (omega arith)), twice) in
    rw (low_of_step r low) (crc_rounds_shift n (r * 2) (omega (arith, twice)) ∙ sym twice)

pub crc_byte-lt : (r byte : ℕ) → r < 2 ^ 32 → byte < 256 → crc_byte r byte < 2 ^ 32
unfolding crc_byte
crc_byte-lt r byte h b =
    crc_rounds-lt 8 (bit_xor r (byte * 2 ^ 24))
      (bit_xor-lt 32 r (byte * 2 ^ 24) h (omega (arith, b)))

-- Neither two remainders nor two bytes are taken together.
crc_byte-injective :
    (x y byte byte' : ℕ)
    → x < 2 ^ 32
    → y < 2 ^ 32
    → byte < 256
    → byte' < 256
    → crc_byte x byte ≡ crc_byte y byte'
    → bit_xor x (byte * 2 ^ 24) ≡ bit_xor y (byte' * 2 ^ 24)
unfolding crc_byte
crc_byte-injective x y byte byte' hx hy b b' e =
    crc_rounds-injective 8 _ _ (bit_xor-lt 32 x (byte * 2 ^ 24) hx (omega (arith, b)))
      (bit_xor-lt 32 y (byte' * 2 ^ 24) hy (omega (arith, b'))) e

-- The byte that stands at the top of the remainder cancels it.
pub crc_byte_own :
    (byte rest : ℕ) → byte < 256 → rest < 2 ^ 24 → crc_byte (byte * 2 ^ 24 + rest) byte ≡ rest * 256
unfolding crc_byte
crc_byte_own byte rest b h =
    rw (bit_xor_high 24 byte rest byte h, bit_xor_self byte, zero-add)
      (crc_rounds_shift 8 rest (omega (arith, h)))

-- A byte that leaves a multiple of 256 was at the top of the remainder.
pub crc_byte_pred :
    (r byte rest : ℕ)
    → r < 2 ^ 32
    → byte < 256
    → rest < 2 ^ 24
    → crc_byte r byte ≡ rest * 256
    → r ≡ byte * 2 ^ 24 + rest
crc_byte_pred r byte rest h b small e =
    let top = byte * 2 ^ 24 in
    let same =
      crc_byte-injective r (top + rest) byte byte h (omega (arith, b, small)) b b
        (e ∙ sym (crc_byte_own byte rest b small)) in
    sym (bit_xor_cancel r top)
    ∙ ap (λ (t : ℕ). bit_xor t top) same
    ∙ bit_xor_cancel (top + rest) top

-- Equal remainders stay apart after different bytes, and different ones after equal bytes.
pub crc_byte-injective_byte :
    (r byte byte' : ℕ)
    → r < 2 ^ 32
    → byte < 256
    → byte' < 256
    → crc_byte r byte ≡ crc_byte r byte'
    → byte ≡ byte'
crc_byte-injective_byte r byte byte' h b b' e =
    let same = crc_byte-injective r r byte byte' h h b b' e in
    let back =
      sym (bit_xor_cancel (byte * 2 ^ 24) r)
      ∙ ap (λ (t : ℕ). bit_xor t r)
          (bit_xor_comm (byte * 2 ^ 24) r ∙ same ∙ bit_xor_comm r (byte' * 2 ^ 24))
      ∙ bit_xor_cancel (byte' * 2 ^ 24) r in
    omega (arith, back)

pub crc_byte-injective_remainder :
    (x y byte : ℕ)
    → x < 2 ^ 32
    → y < 2 ^ 32
    → byte < 256
    → crc_byte x byte ≡ crc_byte y byte
    → x ≡ y
crc_byte-injective_remainder x y byte hx hy b e =
    let same = crc_byte-injective x y byte byte hx hy b b e in
    sym (bit_xor_cancel x (byte * 2 ^ 24))
    ∙ ap (λ (t : ℕ). bit_xor t (byte * 2 ^ 24)) same
    ∙ bit_xor_cancel y (byte * 2 ^ 24)
