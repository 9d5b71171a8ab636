-- ===== src/Util/Crc32/Checks.antt =====
-- What the CRC of src/util/crc32.cpp promises: the check of a message that carries its own CRC, and
-- the errors that it finds.
use mffv.Common.{
  ℕ, ◌+◌, ◌*◌, ◌/◌, ◌%◌, ◌^◌, ◌<◌, ◌≡◌, ◌≢◌, ◌↔◌, refl, ap, ◌∙◌, sym, arith, List, [], ◌∷◌, ◌++◌,
  get_or,
}
use mffv.Util.Crc32.{crc_byte, crc_from, crc32_ieee_msb}
use mffv.Util.Crc32.Detect.{
  crc_byte-lt, crc_byte_own, crc_byte_pred, crc_byte-injective_byte, crc_byte-injective_remainder,
}

abbrev pub AllBytes : List ℕ → Type 0
AllBytes [] = Unit {0}
AllBytes (byte ∷ bytes) = (byte < 256) × AllBytes bytes

pub AllBytes-append : (xs ys : List ℕ) → AllBytes xs → AllBytes ys → AllBytes (xs ++ ys)
AllBytes-append [] ys h k = k
AllBytes-append (x ∷ xs) ys h k = (h.0, AllBytes-append xs ys h.1 k)

-- The four bytes that the footer writer appends, highest first.
abbrev pub big_endian : ℕ → List ℕ
big_endian crc = crc / 2 ^ 24 % 256 ∷ crc / 2 ^ 16 % 256 ∷ crc / 2 ^ 8 % 256 ∷ crc % 256 ∷ []

crc_from-append : (r : ℕ) (xs ys : List ℕ) → crc_from r (xs ++ ys) ≡ crc_from (crc_from r xs) ys
unfolding crc_from
crc_from-append r [] ys = refl
crc_from-append r (x ∷ xs) ys = crc_from-append (crc_byte r x) xs ys

pub crc_from-lt : (r : ℕ) (xs : List ℕ) → r < 2 ^ 32 → AllBytes xs → crc_from r xs < 2 ^ 32
unfolding crc_from
crc_from-lt r [] h b = h
crc_from-lt r (x ∷ xs) h b = crc_from-lt (crc_byte r x) xs (crc_byte-lt r x h b.0) b.1

own_four :
    (a b c d : ℕ)
    → a < 256
    → b < 256
    → c < 256
    → d < 256
    → crc_from (a * 2 ^ 24 + b * 2 ^ 16 + c * 2 ^ 8 + d) (a ∷ b ∷ c ∷ d ∷ []) ≡ 0
unfolding crc_from
own_four a b c d ha hb hc hd =
    let first : a * 2 ^ 24 + b * 2 ^ 16 + c * 2 ^ 8 + d
        ≡ a * 2 ^ 24 + (b * 2 ^ 16 + c * 2 ^ 8 + d) =
      omega arith in
    let e₁ = crc_byte_own a (b * 2 ^ 16 + c * 2 ^ 8 + d) ha (omega arith) in
    let second : (b * 2 ^ 16 + c * 2 ^ 8 + d) * 256 ≡ b * 2 ^ 24 + (c * 2 ^ 16 + d * 2 ^ 8) =
      omega arith in
    let e₂ = crc_byte_own b (c * 2 ^ 16 + d * 2 ^ 8) hb (omega arith) in
    let third : (c * 2 ^ 16 + d * 2 ^ 8) * 256 ≡ c * 2 ^ 24 + d * 2 ^ 16 = omega arith in
    let e₃ = crc_byte_own c (d * 2 ^ 16) hc (omega arith) in
    let fourth : d * 2 ^ 16 * 256 ≡ d * 2 ^ 24 + 0 = omega arith in
    let e₄ = crc_byte_own d 0 hd (omega arith) in
    rw (first, e₁, second, e₂, third, e₃, fourth, e₄) (omega arith)

only_four :
    (r a b c d : ℕ)
    → r < 2 ^ 32
    → a < 256
    → b < 256
    → c < 256
    → d < 256
    → crc_from r (a ∷ b ∷ c ∷ d ∷ []) ≡ 0
    → r ≡ a * 2 ^ 24 + b * 2 ^ 16 + c * 2 ^ 8 + d
unfolding crc_from
only_four r a b c d h ha hb hc hd e =
    let r₁ = crc_byte r a in
    let r₂ = crc_byte r₁ b in
    let r₃ = crc_byte r₂ c in
    let l₁ = crc_byte-lt r a h ha in
    let l₂ = crc_byte-lt r₁ b l₁ hb in
    let l₃ = crc_byte-lt r₂ c l₂ hc in
    let e₃ = crc_byte_pred r₃ d 0 l₃ hd (omega arith) (e ∙ omega arith) in
    let e₂ = crc_byte_pred r₂ c (d * 2 ^ 16) l₂ hc (omega (arith, hd)) (omega (arith, e₃)) in
    let e₁ =
      crc_byte_pred r₁ b (c * 2 ^ 16 + d * 2 ^ 8) l₁ hb (omega (arith, hc, hd))
        (omega (arith, e₂)) in
    let e₀ =
      crc_byte_pred r a (b * 2 ^ 16 + c * 2 ^ 8 + d) h ha (omega (arith, hb, hc, hd))
        (omega (arith, e₁)) in
    omega (arith, e₀)

-- A message of bytes followed by four bytes has the CRC 0 exactly when the four bytes are the CRC
-- of the message, highest first.
pub crc32_iff :
    (message : List ℕ) (a b c d : ℕ)
    → AllBytes message
    → a < 256
    → b < 256
    → c < 256
    → d < 256
    → (crc32_ieee_msb (message ++ (a ∷ b ∷ c ∷ d ∷ [])) ≡ 0)
      ↔ ((a ∷ b ∷ c ∷ d ∷ []) ≡ big_endian (crc32_ieee_msb message))
unfolding crc32_ieee_msb
crc32_iff message a b c d bytes ha hb hc hd =
    let r = crc_from 0 message in
    let h = crc_from-lt 0 message (omega arith) bytes in
    let split = crc_from-append 0 message (a ∷ b ∷ c ∷ d ∷ []) in
    (
      (λ e. digits_of r a b c d ha hb hc hd (only_four r a b c d h ha hb hc hd (sym split ∙ e))),
      (λ e.
          split
          ∙ ap (λ (t : ℕ). crc_from t (a ∷ b ∷ c ∷ d ∷ [])) (number_of r a b c d h e)
          ∙ own_four a b c d ha hb hc hd),
    )
  where
    digits_of :
        (r a b c d : ℕ)
        → a < 256
        → b < 256
        → c < 256
        → d < 256
        → r ≡ a * 2 ^ 24 + b * 2 ^ 16 + c * 2 ^ 8 + d
        → ◌≡◌ {A = List ℕ} (a ∷ b ∷ c ∷ d ∷ []) (big_endian r)
    digits_of r a b c d ha hb hc hd e =
        let e₁ : a ≡ r / 2 ^ 24 % 256 = omega arith in
        let e₂ : b ≡ r / 2 ^ 16 % 256 = omega arith in
        let e₃ : c ≡ r / 2 ^ 8 % 256 = omega arith in let e₄ : d ≡ r % 256 = omega arith in cc

    number_of :
        (r a b c d : ℕ)
        → r < 2 ^ 32
        → ◌≡◌ {A = List ℕ} (a ∷ b ∷ c ∷ d ∷ []) (big_endian r)
        → r ≡ a * 2 ^ 24 + b * 2 ^ 16 + c * 2 ^ 8 + d
    number_of r a b c d h e = omega (
      arith,
      ap (λ (l : List ℕ). get_or l 0 0) e,
      ap (λ (l : List ℕ). get_or l 1 0) e,
      ap (λ (l : List ℕ). get_or l 2 0) e,
      ap (λ (l : List ℕ). get_or l 3 0) e,
    )

-- Two messages of bytes that differ in one place have different CRCs.
pub crc32_single_byte :
    (before after : List ℕ) (byte byte' : ℕ)
    → AllBytes before
    → AllBytes after
    → byte < 256
    → byte' < 256
    → byte ≢ byte'
    → crc32_ieee_msb (before ++ (byte ∷ after)) ≢ crc32_ieee_msb (before ++ (byte' ∷ after))
unfolding crc32_ieee_msb crc_from
crc32_single_byte before after byte byte' hb ha b b' differ e =
    let r = crc_from 0 before in
    let h = crc_from-lt 0 before (omega arith) hb in
    let split =
      sym (crc_from-append 0 before (byte ∷ after))
      ∙ e
      ∙ crc_from-append 0 before (byte' ∷ after) in
    let same =
      after_injective (crc_byte r byte) (crc_byte r byte') after (crc_byte-lt r byte h b)
        (crc_byte-lt r byte' h b') ha split in
    differ (crc_byte-injective_byte r byte byte' h b b' same)
  where
    after_injective :
        (x y : ℕ) (bytes : List ℕ)
        → x < 2 ^ 32
        → y < 2 ^ 32
        → AllBytes bytes
        → crc_from x bytes ≡ crc_from y bytes
        → x ≡ y
    after_injective x y [] hx hy all e = e
    after_injective x y (z ∷ bytes) hx hy all e = crc_byte-injective_remainder x y z hx hy all.0 (
        after_injective (crc_byte x z) (crc_byte y z) bytes (crc_byte-lt x z hx all.0)
          (crc_byte-lt y z hy all.0) all.1 e)
