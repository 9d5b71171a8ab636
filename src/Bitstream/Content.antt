-- ===== src/Bitstream/Content.antt =====
-- The abstract view of both classes: a list of bits, each 0 or 1. A writer stands for the bits
-- written so far, a reader for the bits that are still to be read.
use mffv.Common.{
  ℕ, zero, suc, ◌+◌, ◌/◌, ◌%◌, ◌^◌, ◌<◌, ◌≡◌, refl, ap, arith, add-zero, List, [], ◌∷◌, ◌++◌,
  length,
}
use mffv.Bitstream.Reader.{BitReader, bit_at, remaining_bits}
use mffv.Bitstream.Writer.{BitWriter}

-- `n` bits of a byte string, from bit `p` on.
unfoldable pub bits_from : List ℕ → ℕ → ℕ → List ℕ
bits_from bytes p zero = []
bits_from bytes p (suc n) = bit_at bytes p ∷ bits_from bytes (p + 1) n

-- The `n` low bits of a number, highest first.
unfoldable pub bits_of : ℕ → ℕ → List ℕ
bits_of zero value = []
bits_of (suc n) value = value / 2 ^ n % 2 ∷ bits_of n value

unfoldable pub content : BitWriter → List ℕ
content w = bits_from w.bytes 0 w.bit_position

unfoldable pub rest : BitReader → List ℕ
rest r = bits_from r.bytes r.bit_position (remaining_bits r)

pub length-bits_from : (bytes : List ℕ) (p n : ℕ) → length (bits_from bytes p n) ≡ n
unfolding bits_from
length-bits_from bytes p zero = refl
length-bits_from bytes p (suc n) = ap suc (length-bits_from bytes (p + 1) n)

pub length-bits_of : (n value : ℕ) → length (bits_of n value) ≡ n
unfolding bits_of
length-bits_of zero value = refl
length-bits_of (suc n) value = ap suc (length-bits_of n value)

pub length-content : (w : BitWriter) → length (content w) ≡ w.bit_position
unfolding content
length-content w = length-bits_from w.bytes 0 w.bit_position

pub length-rest : (r : BitReader) → length (rest r) ≡ remaining_bits r
unfolding rest
length-rest r = length-bits_from r.bytes r.bit_position (remaining_bits r)

-- One more bit at the end.
pub bits_from_last :
    (bytes : List ℕ) (p n : ℕ)
    → bits_from bytes p (suc n) ≡ bits_from bytes p n ++ (bit_at bytes (p + n) ∷ [])
unfolding bits_from
bits_from_last bytes p zero = rw add-zero refl
bits_from_last bytes p (suc n) =
    let e : p + 1 + n ≡ p + suc n = omega arith in
    ap (◌∷◌ (bit_at bytes p)) (rw e at (bits_from_last bytes (p + 1) n))

-- Two byte strings that agree on the bits of a range have the same bits there.
pub bits_from_ext :
    (a b : List ℕ) (p n : ℕ)
    → ((q : ℕ) → q < p + n → bit_at a q ≡ bit_at b q)
    → bits_from a p n ≡ bits_from b p n
unfolding bits_from
bits_from_ext a b p zero h = refl
bits_from_ext a b p (suc n) h =
    rw (h p (omega arith))
      (ap (◌∷◌ (bit_at b p)) (bits_from_ext a b (p + 1) n (λ q lt. h q (omega arith))))
