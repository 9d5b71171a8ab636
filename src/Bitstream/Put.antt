-- ===== src/Bitstream/Put.antt =====
-- What `put_bit` does to the bits of the vector: it sets one, and leaves the others.
use mffv.Common.{
  ℕ, zero, suc, ◌+◌, ◌-◌, ◌/◌, ◌%◌, ◌^◌, ◌<◌, ◌≡◌, refl, ap, arith, Bool, true, ◌&&◌, List, [], ◌∷◌,
  ◌++◌, bit_and, bit_or, length, get_or, length-append, ◌==◌, ==_iff, if◌then◌else◌,
}
use mffv.Bitstream.Reader.{bit_at}
use mffv.Bitstream.Writer.{or_back, put_bit}

-- `(byte >> (7 - j)) & 1`
abbrev bit_in : ℕ → ℕ → ℕ
bit_in byte j = bit_and (byte / 2 ^ (7 - j)) 1

abbrev set_bit_at : ℕ → ℕ → ℕ → Bool
set_bit_at byte k j = bit_in (bit_or byte (2 ^ (7 - k))) j == (if j == k then 1 else bit_in byte j)

holds_up_to : ℕ → (ℕ → Bool) → Bool
holds_up_to zero test = true
holds_up_to (suc bound) test = holds_up_to bound test && test bound

-- A test that holds at every number below the bound.
holds_below :
    (bound : ℕ) (test : ℕ → Bool) (b : ℕ)
    → holds_up_to bound test ≡ true
    → b < bound
    → test b ≡ true
unfolding holds_up_to
holds_below zero test b all below = absurd (omega arith)
holds_below (suc bound) test b all below = ground (arith, holds_below bound test b)

set_bit_table :
    holds_up_to 256 (λ byte. holds_up_to 8 (λ k. holds_up_to 8 (set_bit_at byte k))) ≡ true
unfolding holds_up_to
set_bit_table = refl

set_bit :
    (byte k j : ℕ)
    → byte < 256
    → k < 8
    → j < 8
    → bit_in (bit_or byte (2 ^ (7 - k))) j ≡ (if j == k then 1 else bit_in byte j)
set_bit byte k j hb hk hj =
    (==_iff _ _).0
      (holds_below 8 _ j (holds_below 8 _ k (holds_below 256 _ byte set_bit_table hb) hk) hj)

or_byte_table :
    holds_up_to 256 (λ byte. holds_up_to 8 (λ k. bit_or byte (2 ^ (7 - k)) / 256 == 0)) ≡ true
unfolding holds_up_to
or_byte_table = refl

or_byte-lt : (byte k : ℕ) → byte < 256 → k < 8 → bit_or byte (2 ^ (7 - k)) < 256
or_byte-lt byte k hb hk =
    let e = (==_iff _ _).0 (holds_below 8 _ k (holds_below 256 _ byte or_byte_table hb) hk) in
    omega arith

abbrev pub IsBytes : List ℕ → Type 0
IsBytes bytes = (i : ℕ) → get_or bytes i 0 < 256

get_or-or_back :
    (bytes : List ℕ) (mask i : ℕ)
    → get_or (or_back bytes mask) i 0
      ≡ (if suc i == length bytes then bit_or (get_or bytes i 0) mask else get_or bytes i 0)
unfolding or_back
get_or-or_back [] mask i = ground arith
get_or-or_back (b ∷ []) mask zero = refl
get_or-or_back (b ∷ []) mask (suc i) = ground arith
get_or-or_back (b ∷ c ∷ bs) mask zero = ground arith
get_or-or_back (b ∷ c ∷ bs) mask (suc i) = ground (arith, get_or-or_back (c ∷ bs) mask i)

length-or_back : (bytes : List ℕ) (mask : ℕ) → length (or_back bytes mask) ≡ length bytes
unfolding or_back
length-or_back [] mask = refl
length-or_back (b ∷ []) mask = refl
length-or_back (b ∷ c ∷ bs) mask = ap suc (length-or_back (c ∷ bs) mask)

get_or_push_zero : (bytes : List ℕ) (i : ℕ) → get_or (bytes ++ (0 ∷ [])) i 0 ≡ get_or bytes i 0
get_or_push_zero [] zero = refl
get_or_push_zero [] (suc i) = refl
get_or_push_zero (b ∷ bs) zero = refl
get_or_push_zero (b ∷ bs) (suc i) = get_or_push_zero bs i

-- The vector after the `push_back` at a byte boundary.
abbrev grow : List ℕ → ℕ → List ℕ
grow bytes bit_in_byte = if bit_in_byte == 0 then bytes ++ (0 ∷ []) else bytes

get_or-grow : (bytes : List ℕ) (k i : ℕ) → get_or (grow bytes k) i 0 ≡ get_or bytes i 0
get_or-grow bytes k i = ground (arith, get_or_push_zero bytes i)

module _ (bytes : List ℕ) (p : ℕ) (sized : length bytes ≡ (p + 7) / 8) where
  length-grow : length (grow bytes (p % 8)) ≡ p / 8 + 1
  length-grow = ground (arith, length-append bytes (0 ∷ []))

  pub length-put_bit : (bit : ℕ) → length (put_bit bytes (p % 8) bit) ≡ p / 8 + 1
  unfolding put_bit
  length-put_bit bit =
      ground (arith, length-grow, length-or_back (grow bytes (p % 8)) (2 ^ (7 - p % 8)))

  pub put_bit-IsBytes : (bit : ℕ) → IsBytes bytes → IsBytes (put_bit bytes (p % 8) bit)
  unfolding put_bit
  put_bit-IsBytes bit h i = ground (
    arith,
    h i,
    get_or-grow bytes (p % 8) i,
    get_or-or_back (grow bytes (p % 8)) (2 ^ (7 - p % 8)) i,
    or_byte-lt (get_or bytes i 0) (p % 8),
  )

  set_bit_of_byte :
      (q : ℕ)
      → IsBytes bytes
      → bit_at (or_back (grow bytes (p % 8)) (2 ^ (7 - p % 8))) q
        ≡ (if q == p then 1 else bit_at bytes q)
  unfolding bit_at
  set_bit_of_byte q h = ground (
    arith,
    length-grow,
    get_or-grow bytes (p % 8) (q / 8),
    get_or-or_back (grow bytes (p % 8)) (2 ^ (7 - p % 8)) (q / 8),
    set_bit (get_or bytes (q / 8) 0) (p % 8) (q % 8) (h (q / 8)),
  )

  bit_at-grow : (q : ℕ) → bit_at (grow bytes (p % 8)) q ≡ bit_at bytes q
  unfolding bit_at
  bit_at-grow q = rw (get_or-grow bytes (p % 8) (q / 8))

  -- The bit goes to position `p`, and no other bit changes.
  pub bit_at-put_bit :
      (bit q : ℕ)
      → IsBytes bytes
      → bit_at bytes p ≡ 0
      → bit < 2
      → bit_at (put_bit bytes (p % 8) bit) q ≡ (if q == p then bit else bit_at bytes q)
  unfolding put_bit
  bit_at-put_bit bit q h z b = ground (arith, bit_at-grow q, set_bit_of_byte q h)
