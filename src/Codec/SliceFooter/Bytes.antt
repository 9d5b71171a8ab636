-- ===== src/Codec/SliceFooter/Bytes.antt =====
-- Fields of whole bytes at the front of a reader.
use mffv.Common.{
  ℕ, zero, suc, ◌+◌, ◌-◌, ◌*◌, ◌/◌, ◌%◌, ◌^◌, ◌<◌, ◌≡◌, refl, ap, sym, ◌∙◌, arith, List, [], ◌∷◌,
  ◌++◌, length, append_assoc,
}
use mffv.Common.Bits.{bit_and_mask}
use mffv.Common.Cong.{two_pow_add}
use mffv.Bitstream.Reader.{open_reader, bit_at}
use mffv.Bitstream.Content.{bits_from, bits_of, rest}
use mffv.Bitstream.Reads.{IsInside, remaining_inside}
use mffv.Codec.SliceFooter.{low_byte}
use native.Mathlib.Nat.{div-div-eq-div-mul}

pub low_byte_lem : (v : ℕ) → low_byte v ≡ v % 256
unfolding low_byte
low_byte_lem v = bit_and_mask 8 v

pub low_byte-lt : (v : ℕ) → low_byte v < 256
low_byte-lt v = omega (arith, low_byte_lem v)

-- The bits of a list of bytes.
abbrev pub bits_of_bytes : List ℕ → List ℕ
bits_of_bytes [] = []
bits_of_bytes (byte ∷ bytes) = bits_of 8 byte ++ bits_of_bytes bytes

bit_at_head :
    (byte : ℕ) (bytes : List ℕ) (p : ℕ) → p < 8 → bit_at (byte ∷ bytes) p ≡ byte / 2 ^ (7 - p) % 2
unfolding bit_at
bit_at_head byte bytes p h =
    rw (← (bit_and_mask 1 (byte / 2 ^ (7 - p))))
      (let e : p / 8 ≡ 0 = omega arith in let f : p % 8 ≡ p = omega arith in rw (e, f) refl)

bit_at_tail : (byte : ℕ) (bytes : List ℕ) (p : ℕ) → bit_at (byte ∷ bytes) (8 + p) ≡ bit_at bytes p
unfolding bit_at
bit_at_tail byte bytes p =
    let e : (8 + p) / 8 ≡ suc (p / 8) = omega arith in
    let f : (8 + p) % 8 ≡ p % 8 = omega arith in rw (e, f) refl

bits_from_tail :
    (byte : ℕ) (bytes : List ℕ) (p n : ℕ) → bits_from (byte ∷ bytes) (8 + p) n ≡ bits_from bytes p n
unfolding bits_from
bits_from_tail byte bytes p zero = refl
bits_from_tail byte bytes p (suc n) =
    let e : 8 + p + 1 ≡ 8 + (p + 1) = omega arith in
    rw (bit_at_tail byte bytes p, e)
      (ap (◌∷◌ (bit_at bytes p)) (bits_from_tail byte bytes (p + 1) n))

bits_from_head :
    (byte : ℕ) (bytes : List ℕ) (n : ℕ)
    → bits_from (byte ∷ bytes) 0 (8 + n) ≡ bits_of 8 byte ++ bits_from (byte ∷ bytes) 8 n
unfolding bits_from bits_of
bits_from_head byte bytes n =
    let e : 8 + n ≡ suc (suc (suc (suc (suc (suc (suc (suc n))))))) = omega arith in
    rw
      (
        e,
        bit_at_head byte bytes 0 (omega arith),
        bit_at_head byte bytes 1 (omega arith),
        bit_at_head byte bytes 2 (omega arith),
        bit_at_head byte bytes 3 (omega arith),
        bit_at_head byte bytes 4 (omega arith),
        bit_at_head byte bytes 5 (omega arith),
        bit_at_head byte bytes 6 (omega arith),
        bit_at_head byte bytes 7 (omega arith),
      )
      refl

pub bits_of_all : (bytes : List ℕ) → bits_from bytes 0 (8 * length bytes) ≡ bits_of_bytes bytes
unfolding bits_from
bits_of_all [] = refl
bits_of_all (byte ∷ bytes) =
    let e : 8 * suc (length bytes) ≡ 8 + 8 * length bytes = omega arith in
    rw e (
      bits_from_head byte bytes (8 * length bytes)
      ∙ ap (λ (t : List ℕ). bits_of 8 byte ++ t)
          (bits_from_tail byte bytes 0 (8 * length bytes) ∙ bits_of_all bytes))

-- The bits of a number, in two parts.
bits_of-split : (m n v : ℕ) → bits_of (m + n) v ≡ bits_of m (v / 2 ^ n) ++ bits_of n v
unfolding bits_of
bits_of-split zero n v = let e : 0 + n ≡ n = omega arith in rw e refl
bits_of-split (suc m) n v =
    let e : suc m + n ≡ suc (m + n) = omega arith in
    let f : 2 ^ (m + n) ≡ 2 ^ n * 2 ^ m = omega (arith, two_pow_add m n) in
    rw (e, f, ← (div-div-eq-div-mul v (2 ^ n) (2 ^ m)))
      (ap (◌∷◌ (v / 2 ^ n / 2 ^ m % 2)) (bits_of-split m n v))

bits_of_byte : (v : ℕ) → bits_of 8 (v % 256) ≡ bits_of 8 v
unfolding bits_of
bits_of_byte v =
    let e₇ : v % 256 / 128 % 2 ≡ v / 128 % 2 = omega arith in
    let e₆ : v % 256 / 64 % 2 ≡ v / 64 % 2 = omega arith in
    let e₅ : v % 256 / 32 % 2 ≡ v / 32 % 2 = omega arith in
    let e₄ : v % 256 / 16 % 2 ≡ v / 16 % 2 = omega arith in
    let e₃ : v % 256 / 8 % 2 ≡ v / 8 % 2 = omega arith in
    let e₂ : v % 256 / 4 % 2 ≡ v / 4 % 2 = omega arith in
    let e₁ : v % 256 / 2 % 2 ≡ v / 2 % 2 = omega arith in
    let e₀ : v % 256 / 1 % 2 ≡ v / 1 % 2 = omega arith in rw (e₇, e₆, e₅, e₄, e₃, e₂, e₁, e₀) refl

-- A field of a whole byte more.
byte_front :
    (n v : ℕ) (tail : List ℕ)
    → bits_of 8 (low_byte (v / 2 ^ n)) ++ (bits_of n v ++ tail) ≡ bits_of (8 + n) v ++ tail
byte_front n v tail =
    rw (low_byte_lem (v / 2 ^ n), bits_of_byte (v / 2 ^ n))
      (sym (append_assoc (bits_of 8 (v / 2 ^ n)) (bits_of n v) tail)
        ∙ ap (λ (t : List ℕ). t ++ tail) (sym (bits_of-split 8 n v)))

byte_last : (v : ℕ) (tail : List ℕ) → bits_of 8 (low_byte v) ++ tail ≡ bits_of 8 v ++ tail
byte_last v tail = rw (low_byte_lem v, bits_of_byte v) refl

-- The three and the four bytes that the writer appends are fields of 24 and of 32 bits.
pub bits_of_three :
    (v : ℕ) (bytes : List ℕ)
    → bits_of_bytes (low_byte (v / 2 ^ 16) ∷ low_byte (v / 2 ^ 8) ∷ low_byte v ∷ bytes)
      ≡ bits_of 24 v ++ bits_of_bytes bytes
bits_of_three v bytes =
    let rest = bits_of_bytes bytes in
    ap
      (λ (t : List ℕ). bits_of 8 (low_byte (v / 2 ^ 16)) ++ (bits_of 8 (low_byte (v / 2 ^ 8)) ++ t))
      (byte_last v rest)
    ∙ ap (λ (t : List ℕ). bits_of 8 (low_byte (v / 2 ^ 16)) ++ t) (byte_front 8 v rest)
    ∙ byte_front 16 v rest

pub bits_of_four :
    (v : ℕ) (bytes : List ℕ)
    → bits_of_bytes
        (low_byte (v / 2 ^ 24) ∷ low_byte (v / 2 ^ 16) ∷ low_byte (v / 2 ^ 8) ∷ low_byte v ∷ bytes)
      ≡ bits_of 32 v ++ bits_of_bytes bytes
bits_of_four v bytes =
    ap (λ (t : List ℕ). bits_of 8 (low_byte (v / 2 ^ 24)) ++ t) (bits_of_three v bytes)
    ∙ byte_front 24 v (bits_of_bytes bytes)

-- A reader opened on bytes has their bits before it.
pub rest-open_reader :
    (bytes : List ℕ)
    → length bytes < 2 ^ 61
    → IsInside (open_reader bytes) × (rest (open_reader bytes) ≡ bits_of_bytes bytes)
unfolding open_reader rest
rest-open_reader bytes h =
    let start : IsInside (record { bytes = bytes; bit_position = 0 }) = record {
      countable = h;
      inside = omega arith;
    } in
    let e : 8 * length bytes - 0 ≡ 8 * length bytes = omega arith in
    (
      start,
      rw (remaining_inside (record { bytes = bytes; bit_position = 0 }) start, e)
          (bits_of_all bytes),
    )
