-- ===== src/Bitstream/Writes.antt =====
-- The writer refines a list of bits: each operation appends the bits that it means.
use mffv.Common.{
  ℕ, zero, suc, ◌+◌, ◌*◌, ◌/◌, ◌%◌, ◌^◌, ◌≤◌, ◌<◌, ◌≡◌, refl, ap, ◌∙◌, sym, arith, zero-add, false,
  List, [], ◌∷◌, ◌++◌, length, length-append, append_assoc, append-nil, bit_and,
}
use mathlib.Core.Path.{subst}
use mffv.Common.Bits.{bit_and_mask}
use mffv.Common.Status.{Outcome, ok, return, ◌>>◌, ◌>>=◌, >>=-ok}
use mffv.Bitstream.Reader.{bit_at}
use mffv.Bitstream.Writer.{BitWriter, write_bit, write_bits_loop, write_bits, put_bit}
use mffv.Bitstream.Content.{
  content, bits_from, bits_of, length-content, length-bits_of, bits_from_last, bits_from_ext,
}
use mffv.Bitstream.Put.{IsBytes, length-put_bit, put_bit-IsBytes, bit_at-put_bit}

-- An open writer: as many bytes as the bits need, and no bit set past the position.
pub record IsOpen (w : BitWriter) : Type 0 where
  pub open_for_writing : w.finalized ≡ false
  pub sized : length w.bytes ≡ (w.bit_position + 7) / 8
  pub bytes : IsBytes w.bytes
  pub clear : (q : ℕ) → w.bit_position ≤ q → bit_at w.bytes q ≡ 0

-- There is room for `n` more bits in the vector and in the 64-bit position.
abbrev pub HasRoom : BitWriter → ℕ → Type 0
HasRoom w n = (w.bit_position + n < 2 ^ 64) × (w.bit_position + n ≤ 8 * w.max_size)

-- `w'` is `w` with `bits` appended.
pub record IsAppended (w : BitWriter) (bits : List ℕ) (w' : BitWriter) : Type 0 where
  pub is_open : IsOpen w'
  pub appended : content w' ≡ content w ++ bits
  pub same_limit : w'.max_size ≡ w.max_size

-- From every open writer with room the action succeeds and appends `bits`.
abbrev pub Writes : (BitWriter → Outcome BitWriter (Unit {0})) → List ℕ → Type 0
Writes m bits =
    (w : BitWriter)
    → IsOpen w
    → HasRoom w (length bits)
    → (w' : BitWriter) × (m w ≡ ok tt w') × IsAppended w bits w'

pub position_appended :
    {w : BitWriter} {bits : List ℕ} {w' : BitWriter}
    → IsAppended w bits w'
    → w'.bit_position ≡ w.bit_position + length bits
position_appended {w} {bits} {w'} a = omega (
  arith,
  length-content w,
  length-content w',
  ap length a.appended,
  length-append (content w) bits,
)

pub IsAppended-refl : {w : BitWriter} → IsOpen w → IsAppended w [] w
IsAppended-refl {w} o = record {
  is_open = o;
  appended = sym (append-nil (content w));
  same_limit = refl;
}

pub Writes-return : Writes (λ w. ok tt w) []
Writes-return w o h = (w, refl, IsAppended-refl o)

pub Writes->> :
    {m k : BitWriter → Outcome BitWriter (Unit {0})} (a b : List ℕ)
    → Writes m a
    → Writes k b
    → Writes (m >> k) (a ++ b)
Writes->> {m} {k} a b f g w o h =
    let (w', e, p) = f w o (omega (arith, length-append a b)) in
    let (w'', e', q) =
      g w' p.is_open (omega (arith, length-append a b, position_appended p, p.same_limit)) in
    (
      w'',
      >>=-ok m (λ _. k) e ∙ e',
      record {
        is_open = q.is_open;
        appended = q.appended ∙ rw p.appended (append_assoc (content w) a b);
        same_limit = q.same_limit ∙ p.same_limit;
      },
    )

after_bit : BitWriter → ℕ → BitWriter
after_bit w bit = record w {
  bytes = put_bit w.bytes (w.bit_position % 8) bit;
  bit_position = w.bit_position + 1;
}

write_bit_ok :
    (w : BitWriter) (bit : ℕ)
    → IsOpen w
    → bit < 2
    → HasRoom w 1
    → write_bit bit w ≡ ok tt (after_bit w bit)
unfolding write_bit after_bit
write_bit_ok w bit o b h = ground arith

content-after_bit :
    (w : BitWriter) (bit : ℕ)
    → IsOpen w
    → bit < 2
    → content (after_bit w bit) ≡ content w ++ (bit ∷ [])
unfolding content after_bit
content-after_bit w bit o b =
    let p = w.bit_position in
    let new = put_bit w.bytes (p % 8) bit in
    let at =
      λ (q : ℕ). bit_at-put_bit w.bytes p o.sized bit q o.bytes (o.clear p (omega arith)) b in
    let e : p + 1 ≡ suc p = omega arith in
    rw e (
      bits_from_last new 0 p
      ∙ rw (bits_from_ext new w.bytes 0 p (λ q lt. ground (arith, at q)))
          (ap (λ b'. bits_from w.bytes 0 p ++ (b' ∷ [])) (rw zero-add (ground (arith, at p)))))

after_bit-IsOpen : (w : BitWriter) (bit : ℕ) → IsOpen w → bit < 2 → IsOpen (after_bit w bit)
unfolding after_bit
after_bit-IsOpen w bit o b = record {
  open_for_writing = o.open_for_writing;
  sized = omega (arith, length-put_bit w.bytes w.bit_position o.sized bit);
  bytes = put_bit-IsBytes w.bytes w.bit_position o.sized bit o.bytes;
  clear = λ q le. ground (
    arith,
    o.clear q,
    bit_at-put_bit w.bytes w.bit_position o.sized bit q o.bytes
        (o.clear w.bit_position (omega arith)) b,
  );
}

-- `write_bit` appends its bit.
pub write_bit-Writes : (bit : ℕ) → bit < 2 → Writes (write_bit bit) (bit ∷ [])
write_bit-Writes bit b w o h = (
  after_bit w bit,
  write_bit_ok w bit o b h,
  record {
    is_open = after_bit-IsOpen w bit o b;
    appended = content-after_bit w bit o b;
    same_limit = unfold after_bit in refl;
  },
)

bit_and_one : (a : ℕ) → bit_and a 1 ≡ a % 2
bit_and_one a = bit_and_mask 1 a

write_bits_loop-Writes : (n value : ℕ) → Writes (write_bits_loop n value) (bits_of n value)
unfolding write_bits_loop bits_of
write_bits_loop-Writes zero value = Writes-return
write_bits_loop-Writes (suc n) value =
    Writes->> (value / 2 ^ n % 2 ∷ []) (bits_of n value)
      (rw (bit_and_one (value / 2 ^ n)) (write_bit-Writes (value / 2 ^ n % 2) (omega arith)))
      (write_bits_loop-Writes n value)

-- On every open writer with room, write_bits of a value that fits at most 64 bits succeeds and
-- appends its bits, highest first.
pub write_bits-Writes :
    (bit_count value : ℕ)
    → bit_count ≤ 64
    → value < 2 ^ bit_count
    → Writes (write_bits value bit_count) (bits_of bit_count value)
write_bits-Writes n value small fits w o h =
    let room = rw (length-bits_of n value) at h in
    rw (enters room) (write_bits_loop-Writes n value w o h)
  where
    enters : HasRoom w n → write_bits value n w ≡ write_bits_loop n value w
    enters r = unfold write_bits in ground arith

-- The bits and the action up to equality.
pub Writes-of :
    {m m' : BitWriter → Outcome BitWriter (Unit {0})} {xs ys : List ℕ}
    → xs ≡ ys
    → ((w : BitWriter) → m' w ≡ m w)
    → Writes m xs
    → Writes m' ys
Writes-of {m' = m'} e same h = subst (Writes m') e (λ w o room. rw (same w) (h w o room))

-- The same for an action that returns a value; `Writes m bits` is `Emits m tt bits`.
abbrev pub Emits : {A : Type 0} → (BitWriter → Outcome BitWriter A) → A → List ℕ → Type 0
Emits m a bits =
    (w : BitWriter)
    → IsOpen w
    → HasRoom w (length bits)
    → (w' : BitWriter) × (m w ≡ ok a w') × IsAppended w bits w'

pub Emits-return : {A : Type 0} (a : A) → Emits (return a) a []
Emits-return a w o h = (w, refl, IsAppended-refl o)

pub Emits->>= :
    {A B : Type 0} (m : BitWriter → Outcome BitWriter A) (f : A → BitWriter → Outcome BitWriter B)
    {a : A} {b : B} (xs ys : List ℕ)
    → Emits m a xs
    → Emits (f a) b ys
    → Emits (m >>= f) b (xs ++ ys)
Emits->>= m f xs ys first second w o h =
    let (w', e, p) = first w o (omega (arith, length-append xs ys)) in
    let (w'', e', q) =
      second w' p.is_open (omega (arith, length-append xs ys, position_appended p, p.same_limit)) in
    (
      w'',
      >>=-ok m f e ∙ e',
      record {
        is_open = q.is_open;
        appended = q.appended ∙ rw p.appended (append_assoc (content w) xs ys);
        same_limit = q.same_limit ∙ p.same_limit;
      },
    )

pub Emits-of :
    {A : Type 0} {m m' : BitWriter → Outcome BitWriter A} {a : A} {xs ys : List ℕ}
    → xs ≡ ys
    → ((w : BitWriter) → m' w ≡ m w)
    → Emits m a xs
    → Emits m' a ys
Emits-of {m' = m'} {a = a} e same h = subst (Emits m' a) e (λ w o room. rw (same w) (h w o room))
