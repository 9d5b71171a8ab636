-- ===== src/Syntax/Stream/Geometry.antt =====
-- The grid of slices of src/mffv1/stream_parameters.hpp and the subsampled planes.
use mffv.Common.{
  ℕ, zero, suc, ◌+◌, ◌-◌, ◌*◌, ◌/◌, ◌%◌, ◌^◌, ◌≤◌, ◌<◌, ◌≡◌, refl, arith, leb, ltb, ◌==◌,
  Bool-cases, inl, inr, false,
}
use mffv.Syntax.Stream.{
  StreamParameters, scaled_grid_position, slice_pixel_x, slice_pixel_width, sub_u32,
  subsampled_extent,
}
use native.Mathlib.Nat.{
  mul-le-mul, mul-le-mul_right, mul-le-mul_left, div-le_of_le-mul, mod-eq_of_lt,
  mul-div_cancel_left, div-add-mod, mod-lt, zero-mul, div-zero, one-le-pow, pow-le-pow_right,
  div-lt_iff_lt-mul,
}

div_mono : (m n k : ℕ) → m ≤ n → m / k ≤ n / k
div_mono m n zero h = omega (arith, div-zero m, div-zero n)
div_mono m n (suc k) h =
    let below : m < (n / suc k + 1) * suc k =
      omega (arith, div-add-mod n (suc k), mod-lt n {m = suc k} (omega arith), h) in
    omega (arith, (div-lt_iff_lt-mul {k = suc k} {x = m} {y = n / suc k + 1} (omega arith)).1 below)

-- On a grid of 32-bit size no step of the computation wraps.
pub scaled_grid_position_lem :
    (extent grid_count grid_position : ℕ)
    → extent < 2 ^ 32
    → grid_count < 2 ^ 32
    → 0 < grid_count
    → grid_position ≤ grid_count
    → scaled_grid_position extent grid_count grid_position ≡ grid_position * extent / grid_count
unfolding scaled_grid_position
scaled_grid_position_lem extent n position he hn positive inside =
    let product : position * extent ≤ 4294967295 * 4294967295 =
      mul-le-mul {n₂ = 4294967295} {m₂ = 4294967295} (omega arith) (omega arith) in
    let small : position * extent / n ≤ extent =
      div-le_of_le-mul n (mul-le-mul_right extent inside) in
    let whole : position * extent % 2 ^ 64 ≡ position * extent =
      mod-eq_of_lt (omega (arith, product)) in
    let fits : position * extent / n % 2 ^ 32 ≡ position * extent / n =
      mod-eq_of_lt (omega (arith, small)) in
    let some_slices : (n == 0) ≡ false = ground arith in rw (some_slices, whole, fits) refl

-- The grid starts at 0 and ends at the extent, and its lines do not go back.
module _ (extent grid_count : ℕ) (he : extent < 2 ^ 32) (hn : grid_count < 2 ^ 32)
    (positive : 0 < grid_count) where
  grid_start : scaled_grid_position extent grid_count 0 ≡ 0
  grid_start =
      rw (scaled_grid_position_lem extent grid_count 0 he hn positive (omega arith))
        (zero_by grid_count)
    where
      zero_by : (n : ℕ) → 0 * extent / n ≡ 0
      zero_by zero = div-zero (0 * extent)
      zero_by (suc n) = omega (arith, zero-mul extent, div-add-mod 0 (suc n))

  grid_end : scaled_grid_position extent grid_count grid_count ≡ extent
  grid_end =
      rw (scaled_grid_position_lem extent grid_count grid_count he hn positive (omega arith))
        (mul-div_cancel_left extent positive)

  grid_mono :
      (a b : ℕ)
      → a ≤ b
      → b ≤ grid_count
      → scaled_grid_position extent grid_count a ≤ scaled_grid_position extent grid_count b
  grid_mono a b h inside =
      rw
        (
          scaled_grid_position_lem extent grid_count a he hn positive (omega (arith, h, inside)),
          scaled_grid_position_lem extent grid_count b he hn positive inside,
        )
        (div_mono (a * extent) (b * extent) grid_count (mul-le-mul_right extent h))

  -- Below a line of the grid every position lies between two neighbouring lines.
  found_below :
      (k p : ℕ)
      → p < scaled_grid_position extent grid_count k
      → (cell : ℕ) × (cell < k)
        × (scaled_grid_position extent grid_count cell ≤ p)
        × (p < scaled_grid_position extent grid_count (suc cell))
  found_below zero p h = absurd (omega (arith, h, grid_start))
  found_below (suc k) p h = elim (Bool-cases (ltb p (scaled_grid_position extent grid_count k))) [
    | inl below ↦
        let (cell, inside, low, high) = found_below k p (ground (arith, below)) in
        (cell, omega (arith, inside), low, high)
    | inr above ↦ (k, omega arith, ground (arith, above), h)
  ]

  -- On a grid of 1 to 2^32 - 1 cells over an extent below 2^32, every position below the extent
  -- lies in exactly one cell of the grid.
  pub grid_partition :
      (p : ℕ)
      → p < extent
      → (cell : ℕ) × (cell < grid_count)
        × (scaled_grid_position extent grid_count cell ≤ p)
        × (p < scaled_grid_position extent grid_count (suc cell))
        × ((other : ℕ)
            → other < grid_count
            → scaled_grid_position extent grid_count other ≤ p
            → p < scaled_grid_position extent grid_count (suc other)
            → other ≡ cell)
  grid_partition p h =
      let (cell, inside, low, high) = found_below grid_count p (rw grid_end h) in
      (
        cell,
        inside,
        low,
        high,
        λ other fits below above. only cell other inside fits low high below above,
      )
    where
      only :
          (cell other : ℕ)
          → cell < grid_count
          → other < grid_count
          → scaled_grid_position extent grid_count cell ≤ p
          → p < scaled_grid_position extent grid_count (suc cell)
          → scaled_grid_position extent grid_count other ≤ p
          → p < scaled_grid_position extent grid_count (suc other)
          → other ≡ cell
      only cell other inside fits low high below above = elim (Bool-cases (ltb cell other)) [
        | inl right ↦ absurd (
            omega (
              arith,
              grid_mono (suc cell) other (ground (arith, right)) (omega (arith, fits)),
              high,
              below,
            ))
        | inr not_right ↦ elim (Bool-cases (ltb other cell)) [
          | inl left ↦ absurd (
              omega (
                arith,
                grid_mono (suc other) cell (ground (arith, left)) (omega (arith, inside)),
                above,
                low,
              ))
          | inr not_left ↦ ground (arith, not_right, not_left)
        ]
      ]

-- On a frame and a grid with 32-bit sizes, a slice inside the grid ends at the pixel column where
-- the slice behind it starts.
pub slice_pixel_width-slice_pixel_x :
    (s : StreamParameters) (slice_x slice_width : ℕ)
    → s.width < 2 ^ 32
    → s.num_h_slices < 2 ^ 32
    → 0 < s.num_h_slices
    → slice_x + slice_width ≤ s.num_h_slices
    → slice_pixel_x s slice_x + slice_pixel_width s slice_x slice_width
      ≡ slice_pixel_x s (slice_x + slice_width)
unfolding slice_pixel_x slice_pixel_width sub_u32
slice_pixel_width-slice_pixel_x s x w hw hn positive inside =
    let mono = grid_mono s.width s.num_h_slices hw hn positive x (x + w) (omega arith) inside in
    let last =
      grid_mono s.width s.num_h_slices hw hn positive (x + w) s.num_h_slices inside (omega arith) in
    let whole = grid_end s.width s.num_h_slices hw hn positive in
    omega (arith, mono, last, whole, hw)

-- A run of cells of the grid stays inside the extent.
pub slice_end_lem :
    (extent grid_count start count : ℕ)
    → extent < 2 ^ 32
    → grid_count < 2 ^ 32
    → 0 < grid_count
    → start + count ≤ grid_count
    → scaled_grid_position extent grid_count start
        + sub_u32
            (scaled_grid_position extent grid_count (start + count))
            (scaled_grid_position extent grid_count start)
      ≤ extent
unfolding sub_u32
slice_end_lem extent n start count he hn positive inside =
    let mono = grid_mono extent n he hn positive start (start + count) (omega arith) inside in
    let last = grid_mono extent n he hn positive (start + count) n inside (omega arith) in
    let whole = grid_end extent n he hn positive in omega (arith, mono, last, whole, he)

-- For a 32-bit extent and an exponent below 32, the subsampled extent is the least number of
-- groups that cover the extent.
pub subsampled_extent_lem :
    (value log2_subsample groups : ℕ)
    → value < 2 ^ 32
    → log2_subsample < 32
    → (value ≤ subsampled_extent value log2_subsample * 2 ^ log2_subsample)
      × (value ≤ groups * 2 ^ log2_subsample → subsampled_extent value log2_subsample ≤ groups)
unfolding subsampled_extent
subsampled_extent_lem value zero groups h h' = (omega arith, λ e. omega (arith, e))
subsampled_extent_lem value (suc bits) groups h h' =
    let d = 2 ^ suc bits in
    let some : 1 ≤ d = one-le-pow (suc bits) 2 (omega arith) in
    let small : d ≤ 2 ^ 32 = pow-le-pow_right {n = 2} (omega arith) {j = 32} (omega arith) in
    let bits_given : (suc bits == 0) ≡ false = ground arith in
    let few_bits : leb 32 (suc bits) ≡ false = ground arith in
    let whole : (value + d - 1) % 2 ^ 64 ≡ value + d - 1 = mod-eq_of_lt (omega arith) in
    let q = (value + d - 1) / d in
    let division = div-add-mod (value + d - 1) d in
    let rest = mod-lt (value + d - 1) {m = d} (omega (arith, some)) in
    let least : (groups : ℕ) → value ≤ groups * d → q ≤ groups = λ groups e. omega (
      arith,
      (div-lt_iff_lt-mul {k = d} {x = value + d - 1} {y = groups + 1} (omega (arith, some))).1
          (omega (arith, e, some)),
    ) in
    let fits : q % 2 ^ 32 ≡ q =
      mod-eq_of_lt (omega (arith, least value (omega (arith, mul-le-mul_left value some)), h)) in
    rw (bits_given, few_bits, whole, fits) (omega (arith, division, rest), least groups)
