-- ===== src/Golomb/Code.antt =====
-- The code words of `write_unsigned` and `read_unsigned`, as lists of bits.
use mffv.Common.{
  ℕ, zero, suc, ◌+◌, ◌-◌, ◌*◌, ◌/◌, ◌%◌, ◌^◌, ◌≤◌, ◌<◌, ◌≡◌, refl, ap, arith, true, false, List, [],
  ◌∷◌, ◌++◌, append-nil, bit_and, replicate, ltb→lt, ltb, leb, if◌then◌else◌, Bool-cases, ◌⊎◌, inl,
  inr, ◌==◌,
}
use mffv.Common.Bits.{bit_and_mask, bit_and-zero}
use mffv.Common.Status.{Outcome, return, ◌>>◌}
use mffv.Bitstream.Reader.{read_bit, read_bits}
use mffv.Bitstream.Writer.{BitWriter, write_bit, write_bits}
use mffv.Bitstream.Content.{bits_of}
use mffv.Bitstream.Writes.{
  Writes, Writes-return, Writes->>, Writes-of, write_bit-Writes, write_bits-Writes,
}
use mffv.Bitstream.Reads.{Reads, Reads-return, Reads->>=, Reads-of, read_bit-Reads, read_bits-Reads}
use mffv.Golomb.Reader.{read_unsigned_loop, read_unsigned}
use mffv.Golomb.Writer.{write_zeros, write_unsigned}
use native.Mathlib.Nat.{pow-le-pow_right, mod-lt, one-le-pow, div-add-mod', div-lt_iff_lt-mul}

-- Below the limit: the quotient in unary, then the remainder. Else twelve zeros and an escape.
unfoldable pub golomb_code : ℕ → ℕ → ℕ → List ℕ
golomb_code k bits v =
    if ltb v (12 * 2 ^ k)
    then replicate (v / 2 ^ k) 0 ++ (1 ∷ bits_of k (v % 2 ^ k))
    else replicate 12 0 ++ bits_of bits (v - 11)

-- The values that `write_unsigned` accepts.
abbrev pub IsCodable : ℕ → ℕ → ℕ → Type 0
IsCodable k bits v = (v < 12 * 2 ^ k) ⊎ (v < 2 ^ bits + 11)

bits_of-zero : (n : ℕ) → bits_of n 0 ≡ replicate n 0
unfolding bits_of
bits_of-zero zero = refl
bits_of-zero (suc n) = let e : 0 / 2 ^ n % 2 ≡ 0 = omega arith in rw (e, bits_of-zero n) refl

write_zeros-Writes : (n : ℕ) → Writes (write_zeros n) (replicate n 0)
unfolding write_zeros
write_zeros-Writes zero = Writes-return
write_zeros-Writes (suc n) =
    Writes->> (0 ∷ []) (replicate n 0) (write_bit-Writes 0 (omega arith)) (write_zeros-Writes n)

suffix_mask : (k v : ℕ) → bit_and v (if k == 0 then 0 else 2 ^ k - 1) ≡ v % 2 ^ k
suffix_mask zero v = omega (arith, bit_and-zero v)
suffix_mask (suc k) v = ground (arith, bit_and_mask (suc k) v)

leb_pred : (v n : ℕ) → ltb v n ≡ true → leb v (n - 1) ≡ true
leb_pred v n e = ground (arith, e)

leb_pred_false : (v n : ℕ) → 1 ≤ n → ltb v n ≡ false → leb v (n - 1) ≡ false
leb_pred_false v n p e = ground (arith, e)

fits_field : (v n : ℕ) → v < n + 11 → ltb (n - 1) (v - 11) ≡ false
fits_field v n h = ground arith

pos_limit : (k : ℕ) → 1 ≤ 12 * 2 ^ k
pos_limit k = omega (arith, one-le-pow k 2 (omega arith))

le_31 : (k : ℕ) → k < 32 → k ≤ 31
le_31 k h = omega arith

module _ (k bits v : ℕ) (k_small : k < 32) (bits_small : bits ≤ 31) where
  abbrev regular : BitWriter → Outcome BitWriter (Unit {0})
  regular = do
    write_zeros (v / 2 ^ k)
    write_bit 1
    write_bits (bit_and v (if k == 0 then 0 else 2 ^ k - 1)) k

  abbrev escape : BitWriter → Outcome BitWriter (Unit {0})
  escape = do write_bits 0 12; write_bits (v - 11) bits

  write_regular-Writes : Writes regular (replicate (v / 2 ^ k) 0 ++ (1 ∷ bits_of k (v % 2 ^ k)))
  write_regular-Writes =
      Writes->> (replicate (v / 2 ^ k) 0) (1 ∷ bits_of k (v % 2 ^ k))
        (write_zeros-Writes (v / 2 ^ k))
        (Writes->> (1 ∷ []) (bits_of k (v % 2 ^ k)) (write_bit-Writes 1 (omega arith)) (
          rw (suffix_mask k v) (
            write_bits-Writes k (v % 2 ^ k) (omega arith)
              (mod-lt v (one-le-pow k 2 (omega arith))))))

  write_escape-Writes : v < 2 ^ bits + 11 → Writes escape (replicate 12 0 ++ bits_of bits (v - 11))
  write_escape-Writes h =
      Writes->> (replicate 12 0) (bits_of bits (v - 11))
        (Writes-of (bits_of-zero 12) (λ w. refl)
          (write_bits-Writes 12 0 (omega arith) (omega arith)))
        (write_bits-Writes bits (v - 11) (omega arith)
          (omega (arith, one-le-pow bits 2 (omega arith))))

  -- `write_unsigned` appends the code word of every value that the escape field or the unary
  -- prefix can take.
  pub write_unsigned-Writes :
      IsCodable k bits v → Writes (write_unsigned k bits v) (golomb_code k bits v)
  write_unsigned-Writes c = elim (Bool-cases (ltb v (12 * 2 ^ k))) [
    | inl low ↦ Writes-of (regular_code low) (enters_regular low) write_regular-Writes
    | inr high ↦
        Writes-of (escape_code high) (enters_escape high) (write_escape-Writes (escapes high))
  ]
    where
      regular_code :
          ltb v (12 * 2 ^ k) ≡ true
          → replicate (v / 2 ^ k) 0 ++ (1 ∷ bits_of k (v % 2 ^ k)) ≡ golomb_code k bits v
      regular_code e = unfold golomb_code in rw e

      escape_code :
          ltb v (12 * 2 ^ k) ≡ false
          → replicate 12 0 ++ bits_of bits (v - 11) ≡ golomb_code k bits v
      escape_code e = unfold golomb_code in rw e

      escapes : ltb v (12 * 2 ^ k) ≡ false → v < 2 ^ bits + 11
      escapes e = ground (arith, e, c)

      enters_regular :
          ltb v (12 * 2 ^ k) ≡ true → (w : BitWriter) → write_unsigned k bits v w ≡ regular w
      enters_regular e w = unfold write_unsigned in rw (leb_pred v (12 * 2 ^ k) e)

      enters_escape :
          ltb v (12 * 2 ^ k) ≡ false → (w : BitWriter) → write_unsigned k bits v w ≡ escape w
      enters_escape e w =
          unfold write_unsigned in
          rw (leb_pred_false v (12 * 2 ^ k) (pos_limit k) e, fits_field v (2 ^ bits) (escapes e))

read_escape-Reads :
    (k bits e : ℕ)
    → bits ≤ 31
    → e < 2 ^ bits
    → (left prefix : ℕ)
    → Reads (read_unsigned_loop k bits left prefix) (e + 11) (replicate left 0 ++ bits_of bits e)
unfolding read_unsigned_loop
read_escape-Reads k bits e small fits zero prefix =
    let bound = pow-le-pow_right {n = 2} (omega arith) small in
    Reads-of (omega arith) (append-nil (bits_of bits e)) (λ r. refl)
      (Reads->>= (read_bits bits) (λ x. return ((x + 11) % 2 ^ 64)) (bits_of bits e) []
        (read_bits-Reads bits e (omega arith) fits) (Reads-return ((e + 11) % 2 ^ 64)))
read_escape-Reads k bits e small fits (suc left) prefix =
    Reads->>= read_bit _ (0 ∷ []) (replicate left 0 ++ bits_of bits e) (read_bit-Reads 0)
      (read_escape-Reads k bits e small fits left (prefix + 1))

regular_value :
    (prefix p s : ℕ)
    → prefix < 12
    → p ≤ 2 ^ 31
    → s < p
    → (prefix * p % 2 ^ 64 + s) % 2 ^ 64 ≡ (prefix + 0) * p + s
regular_value prefix p s a b c =
    let bound : prefix * p ≤ 12 * p = grind arith in omega (arith, bound)

read_regular-Reads :
    (k bits s : ℕ)
    → k < 32
    → s < 2 ^ k
    → (m left prefix : ℕ) → m < left
    → prefix + m < 12
    → Reads
        (read_unsigned_loop k bits left prefix)
        ((prefix + m) * 2 ^ k + s)
        (replicate m 0 ++ (1 ∷ bits_of k s))
unfolding read_unsigned_loop
read_regular-Reads k bits s small fits m zero prefix h t = absurd (omega arith)
read_regular-Reads k bits s small fits zero (suc left) prefix h t =
    let bound = pow-le-pow_right {n = 2} (omega arith) (le_31 k small) in
    Reads-of (regular_value prefix (2 ^ k) s (omega arith) bound fits)
      (ap (◌∷◌ 1) (append-nil (bits_of k s))) (λ r. refl)
      (Reads->>= read_bit _ (1 ∷ []) (bits_of k s ++ []) (read_bit-Reads 1) (
        Reads->>= (read_bits k) (λ x. return ((prefix * 2 ^ k % 2 ^ 64 + x) % 2 ^ 64)) (bits_of k s)
          [] (read_bits-Reads k s (omega arith) fits)
          (Reads-return ((prefix * 2 ^ k % 2 ^ 64 + s) % 2 ^ 64))))
read_regular-Reads k bits s small fits (suc m) (suc left) prefix h t =
    Reads-of (ap (λ (x : ℕ). x * 2 ^ k + s) (omega arith)) refl (λ r. refl)
      (Reads->>= read_bit _ (0 ∷ []) (replicate m 0 ++ (1 ∷ bits_of k s)) (read_bit-Reads 0)
        (read_regular-Reads k bits s small fits m left (prefix + 1) (omega arith) (omega arith)))

-- `read_unsigned` takes the code word of a value off the front and returns the value.
pub read_unsigned-Reads :
    (k bits v : ℕ)
    → k < 32
    → bits ≤ 31
    → IsCodable k bits v
    → Reads (read_unsigned k bits) v (golomb_code k bits v)
unfolding read_unsigned golomb_code
read_unsigned-Reads k bits v k_small bits_small c = elim (Bool-cases (ltb v (12 * 2 ^ k))) [
  | inl low ↦
      Reads-of (omega (arith, div-add-mod' v (2 ^ k))) (rw low) (λ r. refl)
        (read_regular-Reads k bits (v % 2 ^ k) k_small (mod-lt v (one-le-pow k 2 (omega arith)))
          (v / 2 ^ k) 12 0 (quotient low) (omega (arith, quotient low)))
  | inr high ↦
      Reads-of (omega (arith, big high, one-le-pow k 2 (omega arith))) (rw high) (λ r. refl)
        (read_escape-Reads k bits (v - 11) bits_small
          (ground (arith, big high, c, one-le-pow k 2 (omega arith))) 12 0)
]
  where
    quotient : ltb v (12 * 2 ^ k) ≡ true → v / 2 ^ k < 12
    quotient e = (div-lt_iff_lt-mul (one-le-pow k 2 (omega arith))).1 (ltb→lt _ _ e)

    big : ltb v (12 * 2 ^ k) ≡ false → 12 * 2 ^ k ≤ v
    big e = ground (arith, e)
