-- ===== src/Util/Tests.antt =====
-- The theorems on the CRC at a short message.
use mffv.Common.{ℕ, ◌≡◌, ◌≢◌, ◌↔◌, ◌==◌, false, arith, refl, List, [], ◌∷◌, ◌++◌}
use mffv.Util.Crc32.{crc32_ieee_msb}
use mffv.Util.Crc32.Checks.{big_endian, crc32_iff, crc32_single_byte}

crc32_iff_example :
    (crc32_ieee_msb ((1 ∷ 2 ∷ []) ++ (9 ∷ 8 ∷ 7 ∷ 6 ∷ [])) ≡ 0)
    ↔ (◌≡◌ {A = List ℕ} (9 ∷ 8 ∷ 7 ∷ 6 ∷ []) (big_endian (crc32_ieee_msb (1 ∷ 2 ∷ []))))
crc32_iff_example =
    crc32_iff (1 ∷ 2 ∷ []) 9 8 7 6 (omega arith, (omega arith, tt)) (omega arith) (omega arith)
      (omega arith) (omega arith)

apart : (a b : ℕ) → (a == b) ≡ false → a ≢ b
apart a b e same = ground arith

crc32_single_byte_example :
    crc32_ieee_msb ((1 ∷ []) ++ (2 ∷ 3 ∷ [])) ≢ crc32_ieee_msb ((1 ∷ []) ++ (4 ∷ 3 ∷ []))
crc32_single_byte_example =
    crc32_single_byte (1 ∷ []) (3 ∷ []) 2 4 (omega arith, tt) (omega arith, tt) (omega arith)
      (omega arith) (apart 2 4 refl)
