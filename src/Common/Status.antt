-- ===== src/Common/Status.antt =====
-- include/mffv1/result.hpp, src/util/status.cpp and src/util/status.hpp: the status that every
-- fallible function returns. The message is left out: a build may switch it off
-- (MFFV1_ENABLE_STATUS_MESSAGES), and no code reads it.
use mathlib.Core.Path.{◌≡◌, refl}
use mathlib.Core.Option.{Option, none, some}
use mathlib.Core.Bool.{Bool, true, false}
use Prim.Native.Nat.{ℕ}

pub data ErrorCode : Type 0 where
  invalid_argument invalid_state unsupported_feature syntax_error : ErrorCode
  crc_mismatch resource_exhausted not_implemented internal_error : ErrorCode

-- `none` is a location whose `has_…` flag is false.
pub record ErrorLocation : Type 0 where
  pub byte_offset : Option ℕ
  pub frame_index : Option ℕ
  pub slice_index : Option ℕ

-- A status that is not ok.
pub record Status : Type 0 where
  pub error_code : ErrorCode
  pub location : ErrorLocation

abbrev pub make_error : ErrorCode → Status
make_error c = record {
  error_code = c;
  location = record { byte_offset = none; frame_index = none; slice_index = none };
}

abbrev pub or_else : Option ℕ → ℕ → Option ℕ
or_else none v = some v
or_else (some u) v = some u

abbrev pub set_byte_location_if_missing : Status → ℕ → Status
set_byte_location_if_missing s offset = record s {
  location = record (s.location) { byte_offset = or_else s.location.byte_offset offset };
}

abbrev pub set_slice_location_if_missing : Status → ℕ → Status
set_slice_location_if_missing s index = record s {
  location = record (s.location) { slice_index = or_else s.location.slice_index index };
}

abbrev pub make_byte_error : ErrorCode → ℕ → Status
make_byte_error c offset = set_byte_location_if_missing (make_error c) offset

-- What a function that changes an object of type `S` returns: the value of its out parameter
-- when the status is ok, else the status; and in both cases the object as the call leaves it.
pub data Outcome (S A : Type 0) : Type 0 where
  ok : A → S → Outcome S A
  fail : Status → S → Outcome S A

infixl 5 ◌>>=◌ ◌>>◌
abbrev pub ◌>>=◌ : {S A B : Type 0} → (S → Outcome S A) → (A → S → Outcome S B) → S → Outcome S B
◌>>=◌ m f s = elim (m s) [ ok a s' ↦ f a s' | fail e s' ↦ fail e s' ]

abbrev pub ◌>>◌ : {S B : Type 0} → (S → Outcome S (Unit {0})) → (S → Outcome S B) → S → Outcome S B
m >> k = m >>= λ _. k

abbrev pub return : {S A : Type 0} → A → S → Outcome S A
return a s = ok a s

-- `if (refused) return make_error(code)`
abbrev pub refuse : {S : Type 0} → ErrorCode → Bool → S → Outcome S (Unit {0})
refuse code refused s = elim refused [ true ↦ fail (make_error code) s | false ↦ ok tt s ]

-- A step that succeeds hands its value and its state on; one that fails ends the block.
pub >>=-ok :
    {S A B : Type 0} (m : S → Outcome S A) (f : A → S → Outcome S B) {s : S} {a : A} {s' : S}
    → m s ≡ ok a s'
    → (m >>= f) s ≡ f a s'
>>=-ok m f e = rw (e, ◌>>=◌)

pub >>=-fail :
    {S A B : Type 0} (m : S → Outcome S A) (f : A → S → Outcome S B) {s : S} {e : Status} {s' : S}
    → m s ≡ fail e s'
    → (m >>= f) s ≡ fail e s'
>>=-fail m f h = rw (h, ◌>>=◌)

-- Steps that agree on every value and state.
pub >>=-ext :
    {S A B : Type 0} (m : S → Outcome S A) {f g : A → S → Outcome S B} (s : S)
    → ((a : A) (t : S) → f a t ≡ g a t)
    → (m >>= f) s ≡ (m >>= g) s
>>=-ext m s h = λ i. (m >>= (λ a t. h a t i)) s

pub >>=-assoc :
    {S A B C : Type 0} (m : S → Outcome S A) (f : A → S → Outcome S B) (g : B → S → Outcome S C)
    (s : S)
    → ((m >>= f) >>= g) s ≡ (m >>= (λ a. f a >>= g)) s
>>=-assoc {S} {A} m f g s = by_result (m s)
  where
    by_result :
        (o : Outcome S A)
        → (((λ (_ : S). o) >>= f) >>= g) s ≡ ((λ (_ : S). o) >>= (λ a. f a >>= g)) s
    by_result (ok a t) = refl
    by_result (fail e t) = refl

-- A last step that does nothing.
pub >>=-tt : {S : Type 0} (m : S → Outcome S (Unit {0})) (s : S) → m s ≡ (m >>= λ _. return tt) s
>>=-tt {S} m s = by_result (m s)
  where
    by_result : (o : Outcome S (Unit {0})) → o ≡ ((λ (_ : S). o) >>= λ _. return tt) s
    by_result (ok a t) = refl
    by_result (fail e t) = refl

pub >>=-return : {S A : Type 0} (m : S → Outcome S A) (s : S) → m s ≡ (m >>= return) s
>>=-return {S} {A} m s = by_result (m s)
  where
    by_result : (o : Outcome S A) → o ≡ ((λ (_ : S). o) >>= return) s
    by_result (ok a t) = refl
    by_result (fail e t) = refl

pub ok-injective : {S A : Type 0} {a a' : A} {s s' : S} → ok a s ≡ ok a' s' → (a ≡ a') × (s ≡ s')
ok-injective e = (cc, cc)

-- Where both steps succeeded, or the first failed.
pub >>=-inv :
    {S A B : Type 0} (m : S → Outcome S A) (f : A → S → Outcome S B) {s : S} {b : B} {s'' : S}
    → (m >>= f) s ≡ ok b s''
    → (a : A) × (s' : S) × (m s ≡ ok a s') × (f a s' ≡ ok b s'')
>>=-inv {S} {A} {B} m f {s} {b} {s''} h = by_result (m s) refl h
  where
    by_result :
        (o : Outcome S A)
        → m s ≡ o
        → ((λ (_ : S). o) >>= f) s ≡ ok b s''
        → (a : A) × (s' : S) × (m s ≡ ok a s') × (f a s' ≡ ok b s'')
    by_result (ok a s') e h = (a, s', e, h)
    by_result (fail e' s') e h = cc
