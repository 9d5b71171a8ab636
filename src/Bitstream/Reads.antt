-- ===== src/Bitstream/Reads.antt =====
-- The reader refines a list of bits: each operation takes bits off the front of what is left.
use mffv.Common.{
  ℕ, zero, suc, ◌+◌, ◌-◌, ◌*◌, ◌/◌, ◌%◌, ◌^◌, ◌≤◌, ◌<◌, ◌≡◌, refl, ap, ◌∙◌, sym, arith, add-zero,
  List, [], ◌∷◌, ◌++◌, length, length-append, append_assoc, bit_or,
}
use mathlib.Core.Path.{subst₂}
use mffv.Common.Bits.{bit_or_fields}
use mffv.Common.Status.{Outcome, ok, return, ◌>>=◌, >>=-ok}
use mffv.Bitstream.Reader.{BitReader, bit_at, remaining_bits, read_bit, read_bits_loop, read_bits}
use mffv.Bitstream.Content.{rest, bits_from, bits_of, length-rest, length-bits_of}
use native.Mathlib.Nat.{
  pow-suc, one-le-pow, add-mul-mod_self_right, mod-eq_of_lt, mod-lt, div-add-mod', pow-le-pow_right,
}

-- The position is inside a span whose bits a 64-bit number counts.
pub record IsInside (r : BitReader) : Type 0 where
  pub countable : length r.bytes < 2 ^ 61
  pub inside : r.bit_position ≤ 8 * length r.bytes

-- `r'` is `r` after the bits `bits`, which stood at the front, with `tail` left.
pub record IsRead (r : BitReader) (bits tail : List ℕ) (r' : BitReader) : Type 0 where
  pub is_inside : IsInside r'
  pub same_bytes : r'.bytes ≡ r.bytes
  pub left : rest r' ≡ tail
  pub moved : r'.bit_position ≡ r.bit_position + length bits

-- Wherever `bits` stand at the front, the action succeeds with `value` and takes them off.
abbrev pub Reads : {A : Type 0} → (BitReader → Outcome BitReader A) → A → List ℕ → Type 0
Reads m value bits =
    (r : BitReader) (tail : List ℕ)
    → IsInside r
    → rest r ≡ bits ++ tail
    → (r' : BitReader) × (m r ≡ ok value r') × IsRead r bits tail r'

pub remaining_inside :
    (r : BitReader) → IsInside r → remaining_bits r ≡ 8 * length r.bytes - r.bit_position
unfolding remaining_bits
remaining_inside r i = ground arith

pub Reads-return : {A : Type 0} (a : A) → Reads (return a) a []
Reads-return a r tail i e = (
  r,
  refl,
  record { is_inside = i; same_bytes = refl; left = e; moved = sym (add-zero r.bit_position) },
)

pub Reads->>= :
    {A B : Type 0} (m : BitReader → Outcome BitReader A) (f : A → BitReader → Outcome BitReader B)
    {a : A} {b : B} (xs ys : List ℕ)
    → Reads m a xs
    → Reads (f a) b ys
    → Reads (m >>= f) b (xs ++ ys)
Reads->>= m f xs ys first second r tail i e =
    let (r', e', p) = first r (ys ++ tail) i (e ∙ append_assoc xs ys tail) in
    let (r'', e'', q) = second r' tail p.is_inside p.left in
    (
      r'',
      >>=-ok m f e' ∙ e'',
      record {
        is_inside = q.is_inside;
        same_bytes = q.same_bytes ∙ p.same_bytes;
        left = q.left;
        moved = omega (arith, p.moved, q.moved, length-append xs ys);
      },
    )

-- The bits left of a reader at a position inside the span.
bits_left : List ℕ → ℕ → List ℕ
bits_left bytes p = bits_from bytes p (8 * length bytes - p)

rest_inside : (r : BitReader) → IsInside r → rest r ≡ bits_left r.bytes r.bit_position
unfolding rest bits_left
rest_inside r i = rw (remaining_inside r i) refl

bits_left_step :
    (bytes : List ℕ) (p : ℕ)
    → p < 8 * length bytes
    → bits_left bytes p ≡ bit_at bytes p ∷ bits_left bytes (p + 1)
unfolding bits_left bits_from
bits_left_step bytes p lt =
    let e : 8 * length bytes - p ≡ suc (8 * length bytes - (p + 1)) = omega arith in rw e refl

abbrev advance : BitReader → BitReader
advance r = record r { bit_position = r.bit_position + 1 }

-- `read_bit` takes one bit.
pub read_bit-Reads : (b : ℕ) → Reads read_bit b (b ∷ [])
read_bit-Reads b r tail i e = (
  advance r,
  reads,
  record {
    is_inside = record { countable = i.countable; inside = omega (arith, more) };
    same_bytes = refl;
    left =
        rest_inside (advance r) (record { countable = i.countable; inside = omega (arith, more) })
        ∙ cc front;
    moved = omega arith;
  },
)
  where
    more : r.bit_position < 8 * length r.bytes
    more = omega (arith, ap length e, length-rest r, remaining_inside r i)

    front : bit_at r.bytes r.bit_position ∷ bits_left r.bytes (r.bit_position + 1) ≡ b ∷ tail
    front = sym (bits_left_step r.bytes r.bit_position more) ∙ sym (rest_inside r i) ∙ e

    reads : read_bit r ≡ ok b (advance r)
    reads = unfold read_bit in ground (arith, more, i.countable, front)

-- The value of one more bit: the remainder by `2 ^ (n + 1)` from that by `2 ^ n`.
pub mod_two_pow_suc : (v n : ℕ) → v % 2 ^ suc n ≡ v / 2 ^ n % 2 * 2 ^ n + v % 2 ^ n
mod_two_pow_suc v n =
    let q = v / 2 ^ n in
    let small : q % 2 * 2 ^ n + v % 2 ^ n < 2 ^ suc n =
      grind (arith, pow-suc 2 n, mod-lt v (one-le-pow n 2 (omega arith))) in
    let split : v ≡ q % 2 * 2 ^ n + v % 2 ^ n + q / 2 * 2 ^ suc n = omega (
      arith,
      div-add-mod' v (2 ^ n),
      ap (λ (t : ℕ). t * 2 ^ n) (div-add-mod' q 2),
      ap (λ (t : ℕ). q / 2 * t) (pow-suc 2 n),
    ) in
    ap (λ (t : ℕ). t % 2 ^ suc n) split
    ∙ add-mul-mod_self_right (q % 2 * 2 ^ n + v % 2 ^ n) (q / 2) (2 ^ suc n)
    ∙ mod-eq_of_lt small

shift_in : (acc b : ℕ) → acc * 2 < 2 ^ 64 → b < 2 → bit_or (acc * 2 % 2 ^ 64) b ≡ acc * 2 + b
shift_in acc b small h = ground (arith, bit_or_fields 1 acc b)

twice_bound : (acc b p : ℕ) → b < 2 → (acc * 2 + b + 1) * p ≤ (acc + 1) * (p * 2)
twice_bound acc zero p h = omega arith
twice_bound acc (suc zero) p h = omega arith
twice_bound acc (suc (suc b)) p h = absurd (omega arith)

le-mul_pos : (x p : ℕ) → 1 ≤ p → x ≤ x * p
le-mul_pos x zero h = absurd (omega arith)
le-mul_pos x (suc p) h = omega arith

read_bits_loop-Reads :
    (n acc v : ℕ)
    → (acc + 1) * 2 ^ n ≤ 2 ^ 64
    → Reads (read_bits_loop n acc) (acc * 2 ^ n + v % 2 ^ n) (bits_of n v)
unfolding read_bits_loop bits_of
read_bits_loop-Reads zero acc v h =
    let e : acc ≡ acc * 1 + v % 1 = omega arith in
    λ r tail i f. rw (← e) (Reads-return acc r tail i f)
read_bits_loop-Reads (suc n) acc v h =
    let b = v / 2 ^ n % 2 in
    let two = pow-suc 2 n in
    let pos = one-le-pow n 2 (omega arith) in
    let value : (acc * 2 + b) * 2 ^ n + v % 2 ^ n ≡ acc * 2 ^ suc n + v % 2 ^ suc n =
      omega (arith, mod_two_pow_suc v n, ap (λ (t : ℕ). acc * t) two) in
    let bound : (acc * 2 + b + 1) * 2 ^ n ≤ 2 ^ 64 =
      omega
        (arith, two, ap (λ (t : ℕ). (acc + 1) * t) two, twice_bound acc b (2 ^ n) (omega arith)) in
    let small : acc * 2 < 2 ^ 64 = omega (arith, le-mul_pos (acc * 2 + b + 1) (2 ^ n) pos) in
    rw (← value) (
      Reads->>= read_bit (λ bit. read_bits_loop n (bit_or (acc * 2 % 2 ^ 64) bit)) (b ∷ [])
        (bits_of n v) (read_bit-Reads b)
        (rw (shift_in acc b small (omega arith)) (read_bits_loop-Reads n (acc * 2 + b) v bound)))

-- Read_bits of at most 64 bits takes the bits of a value off the front of any reader and returns
-- the value.
pub read_bits-Reads : (n v : ℕ) → n ≤ 64 → v < 2 ^ n → Reads (read_bits n) v (bits_of n v)
read_bits-Reads n v small fits r tail i e =
    let plain : 0 * 2 ^ n + v % 2 ^ n ≡ v = omega (arith, mod-eq_of_lt fits) in
    let whole : (0 + 1) * 2 ^ n ≤ 2 ^ 64 =
      omega (arith, pow-le-pow_right {n = 2} (omega arith) small) in
    rw enters (rw plain at (read_bits_loop-Reads n 0 v whole r tail i e))
  where
    enough : n ≤ remaining_bits r
    enough =
        omega
          (arith, ap length e, length-rest r, length-append (bits_of n v) tail, length-bits_of n v)

    enters : read_bits n r ≡ read_bits_loop n 0 r
    enters = unfold read_bits in ground (arith, enough, small)

-- The value, the bits and the action up to equality.
pub Reads-of :
    {A : Type 0} {m m' : BitReader → Outcome BitReader A} {a b : A} {xs ys : List ℕ}
    → a ≡ b
    → xs ≡ ys
    → ((r : BitReader) → m' r ≡ m r)
    → Reads m a xs
    → Reads m' b ys
Reads-of {m' = m'} p e same h =
    subst₂ (λ a' xs'. Reads m' a' xs') p e (λ r tail i front. rw (same r) (h r tail i front))
