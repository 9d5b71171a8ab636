-- ===== src/Codec/Configuration/Mirror.antt =====
-- The mirrored half of a quantization table.
use mffv.Common.{
  ℕ, zero, suc, ◌+◌, ◌-◌, ◌≤◌, ◌<◌, ◌≡◌, refl, ap, ◌∙◌, arith, List, true, length, get_or, take,
  get_or-append_left, get_or-append_right, take-length,
}
use mffv.Common.Int.{ℤ, pos, eqb_ℤ}
use mffv.Codec.Configuration.Tables.{mirrored, mirror_tail, mirrors_agree, is_mirrored, negated}

eqb_self : (v : ℤ) → eqb_ℤ v v ≡ true
eqb_self v = ground arith

get_or-mirror_tail :
    (n i : ℕ) (half : List ℤ)
    → i < n
    → get_or (mirror_tail n half) i (pos 0) ≡ negated (get_or half (n - i) (pos 0))
unfolding mirror_tail
get_or-mirror_tail zero i half h = absurd (omega arith)
get_or-mirror_tail (suc n) zero half h = let e : suc n - 0 ≡ suc n = omega arith in rw e refl
get_or-mirror_tail (suc n) (suc i) half h =
    let e : suc n - suc i ≡ n - i = omega arith in rw e (get_or-mirror_tail n i half (omega arith))

module _ (half : List ℤ) (full : length half ≡ 128) where
  kept : (i : ℕ) → i < 128 → get_or (mirrored half) i (pos 0) ≡ get_or half i (pos 0)
  unfolding mirrored
  kept i h = get_or-append_left half _ i (pos 0) (omega arith)

  opposite :
      (m : ℕ)
      → 1 ≤ m
      → m ≤ 127
      → get_or (mirrored half) (256 - m) (pos 0) ≡ negated (get_or half m (pos 0))
  unfolding mirrored
  opposite m h h' =
      let e : 256 - m ≡ length half + suc (127 - m) = omega (arith, full) in
      let back : 127 - (127 - m) ≡ m = omega arith in
      rw e (
        get_or-append_right half _ (suc (127 - m)) (pos 0)
        ∙ (get_or-mirror_tail 127 (127 - m) half (omega arith)
            ∙ ap (λ (n : ℕ). negated (get_or half n (pos 0))) back))

  middle : get_or (mirrored half) 128 (pos 0) ≡ negated (get_or half 127 (pos 0))
  unfolding mirrored
  middle =
      let e : 128 ≡ length half + 0 = omega (arith, full) in
      rw e (get_or-append_right half _ 0 (pos 0))

  agree : (n : ℕ) → n ≤ 127 → mirrors_agree n (mirrored half) ≡ true
  unfolding mirrors_agree
  agree zero h = refl
  agree (suc n) h =
      rw (agree n (omega arith), opposite (suc n) (omega arith) h, kept (suc n) (omega arith))
        (eqb_self (negated (get_or half (suc n) (pos 0))))

  pub mirrored-is_mirrored : is_mirrored (mirrored half) ≡ true
  unfolding is_mirrored
  mirrored-is_mirrored =
      rw (agree 127 (omega arith), middle, kept 127 (omega arith))
        (eqb_self (negated (get_or half 127 (pos 0))))

  pub take-mirrored : take 128 (mirrored half) ≡ half
  unfolding mirrored
  take-mirrored = rw (← full) (take-length half _)
