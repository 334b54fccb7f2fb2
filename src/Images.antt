-- ===== src/Images.antt =====
-- Performancelab/kernels.c: the image kernels and their naive versions. An image is what the
-- memory holds from its pointer on, by the number of the pixel, so a place behind the dim * dim
-- pixels is one of memory that is not the image's. The source and the destination do not overlap.
-- Where the C index would be negative, the model's stops at 0: only a dimension that is no
-- multiple of 16 leads there.
pub mod Loops
pub mod Places
pub mod Pinwheel
pub mod Turned
pub mod Sums
pub mod Combo
pub mod Motion
use cs4400_fall.Prelude.{
  ℕ, zero, suc, ◌+◌, ◌-◌, ◌*◌, ◌/◌, ◌%◌, ◌^◌, Bool, true, false, ◌&&◌, ltb, ◌==◌, if◌then◌else◌,
}
use cs4400_fall.Images.Loops.{for_below, pairs, blocked}

pub record Pixel : Type 0 where
  pub red : ℕ
  pub green : ℕ
  pub blue : ℕ

abbrev pub Image : Type 0
Image = ℕ → Pixel

-- RIDX
unfoldable pub ridx : ℕ → ℕ → ℕ → ℕ
ridx i j n = i * n + j

unfoldable pub write : ℕ → Pixel → Image → Image
write a p d q = if q == a then p else d q

-- The pixel that a body of a pinwheel loop reads, and the place that it writes, for a quadrant
-- with its first row and column, and the last row of where it goes.
unfoldable pub turn : ℕ → Image → ℕ → ℕ → ℕ → ℕ → ℕ → Image → Image
turn dim src row column last i j =
    write (ridx (last - j) (column + i) dim) (src (ridx (row + i) (column + j) dim))

unfoldable pub naive_pinwheel : ℕ → Image → Image → Image
naive_pinwheel dim src dest =
    let half = dim / 2 in
    pairs half (turn dim src half half (dim - 1)) (
      pairs half (turn dim src half 0 (dim - 1)) (
        pairs half (turn dim src 0 half (half - 1))
          (pairs half (turn dim src 0 0 (half - 1)) dest)))

unfoldable pub pinwheel : ℕ → Image → Image → Image
pinwheel dim src dest =
    let semi_dim = dim / 2 in
    blocked semi_dim (turn dim src semi_dim semi_dim (dim - 1)) (
      blocked semi_dim (turn dim src semi_dim 0 (dim - 1)) (
        blocked semi_dim (turn dim src 0 semi_dim (semi_dim - 1))
          (blocked semi_dim (turn dim src 0 0 (semi_dim - 1)) dest)))

-- pixel_sum
pub record PixelSum : Type 0 where
  pub red : ℕ
  pub green : ℕ
  pub blue : ℕ

abbrev pub initialize_pixel_sum : PixelSum
initialize_pixel_sum = record { red = 0; green = 0; blue = 0 }

-- `sum += p * weight` for an `int` sum, with the weight in 32nds: doubles are exact here, and the
-- conversion back to `int` drops the fraction.
unfoldable pub add_weighted : ℕ → ℕ → ℕ → ℕ
add_weighted sum p weight = (sum * 32 + p * weight) / 32

unfoldable pub accumulate_weighted_sum : PixelSum → Pixel → ℕ → PixelSum
unfolding add_weighted
accumulate_weighted_sum sum p weight = record {
  red = add_weighted sum.red p.red weight;
  green = add_weighted sum.green p.green weight;
  blue = add_weighted sum.blue p.blue weight;
}

-- The conversion to `unsigned short`.
unfoldable pub assign_sum_to_pixel : PixelSum → Pixel
assign_sum_to_pixel sum = record {
  red = sum.red % 2 ^ 16;
  green = sum.green % 2 ^ 16;
  blue = sum.blue % 2 ^ 16;
}

-- 0.5, 0.03125, 0.25 and 0.125 in 32nds.
unfoldable pub weights : ℕ → ℕ → ℕ
weights zero zero = 16
weights zero (suc zero) = 1
weights (suc zero) zero = 1
weights (suc zero) (suc zero) = 8
weights (suc zero) (suc (suc zero)) = 1
weights (suc (suc zero)) (suc zero) = 1
weights (suc (suc zero)) (suc (suc zero)) = 4
weights _ _ = 0

abbrev pub inside : ℕ → ℕ → ℕ → Bool
inside dim i j = ltb i dim && ltb j dim

-- The body of the loops of `weighted_combo`.
unfoldable pub combine : ℕ → ℕ → ℕ → Image → ℕ → ℕ → PixelSum → PixelSum
combine dim i j src ii jj sum =
    if inside dim (i + ii) (j + jj)
    then accumulate_weighted_sum sum (src (ridx (i + ii) (j + jj) dim)) (weights ii jj)
    else sum

unfoldable pub weighted_combo : ℕ → ℕ → ℕ → Image → Pixel
weighted_combo dim i j src =
    assign_sum_to_pixel (pairs 3 (combine dim i j src) initialize_pixel_sum)

unfoldable pub naive_motion : ℕ → Image → Image → Image
naive_motion dim src = pairs dim λ i j. write (ridx i j dim) (weighted_combo dim i j src)

-- The three statements for the colours of one pixel.
unfoldable pub shade : ℕ → ((Pixel → ℕ) → ℕ) → Image → Image
shade a f d =
    let d₁ = write a (record (d a) { red = f (λ p. p.red) % 2 ^ 16 }) d in
    let d₂ = write a (record (d₁ a) { green = f (λ p. p.green) % 2 ^ 16 }) d₁ in
    write a (record (d₂ a) { blue = f (λ p. p.blue) % 2 ^ 16 }) d₂

module _ (dim : ℕ) (src : Image) where
  -- One colour of the pixel in a row and a column.
  abbrev pub shade_of : (Pixel → ℕ) → ℕ → ℕ → ℕ
  shade_of colour i j = colour (src (ridx i j dim))

  -- Case 1: all neighbours.
  unfoldable pub inner_shade : ℕ → ℕ → (Pixel → ℕ) → ℕ
  inner_shade i j colour =
      shade_of colour i j / 2
      + shade_of colour (i + 1) (j + 1) / 4
      + shade_of colour (i + 2) (j + 2) / 8
      + shade_of colour i (j + 1) / 32
      + shade_of colour (i + 1) j / 32
      + shade_of colour (i + 1) (j + 2) / 32
      + shade_of colour (i + 2) (j + 1) / 32

  -- Case 2: the last pixel.
  unfoldable pub corner_shade : ℕ → (Pixel → ℕ) → ℕ
  corner_shade last colour = shade_of colour last last / 2

  -- Cases 3 and 4: the last column, the last row.
  unfoldable pub last_column_shade : ℕ → ℕ → (Pixel → ℕ) → ℕ
  last_column_shade last i colour = shade_of colour i last / 2 + shade_of colour (i + 1) last / 32

  unfoldable pub last_row_shade : ℕ → ℕ → (Pixel → ℕ) → ℕ
  last_row_shade last i colour = shade_of colour last i / 2 + shade_of colour last (i + 1) / 32

  -- Cases 5 and 6: the column and the row before the last.
  unfoldable pub near_column_shade : ℕ → ℕ → ℕ → (Pixel → ℕ) → ℕ
  near_column_shade near last i colour =
      shade_of colour i near / 2
      + shade_of colour (i + 1) near / 32
      + shade_of colour i last / 32
      + shade_of colour (i + 1) last / 4
      + shade_of colour (i + 2) last / 32

  unfoldable pub near_row_shade : ℕ → ℕ → ℕ → (Pixel → ℕ) → ℕ
  near_row_shade near last i colour =
      shade_of colour near i / 2
      + shade_of colour last i / 32
      + shade_of colour near (i + 1) / 32
      + shade_of colour last (i + 1) / 4
      + shade_of colour last (i + 2) / 32

  -- The special case.
  unfoldable pub near_corner_shade : ℕ → ℕ → (Pixel → ℕ) → ℕ
  near_corner_shade near last colour =
      shade_of colour near near / 2
      + shade_of colour near last / 32
      + shade_of colour last near / 32
      + shade_of colour last last / 4

  unfoldable pub motion : Image → Image
  motion dst =
      let near = dim - 2 in
      let last = dim - 1 in
      let d₁ = blocked near (λ i j. shade (ridx i j dim) (inner_shade i j)) dst in
      let d₂ = shade (ridx last last dim) (corner_shade last) d₁ in
      let d₃ = for_below 0 last 1 (λ i. shade (ridx i last dim) (last_column_shade last i)) d₂ in
      let d₄ = for_below 0 last 1 (λ i. shade (ridx last i dim) (last_row_shade last i)) d₃ in
      let d₅ =
        for_below 0 near 1 (λ i. shade (ridx i near dim) (near_column_shade near last i)) d₄ in
      let d₆ = for_below 0 near 1 (λ i. shade (ridx near i dim) (near_row_shade near last i)) d₅ in
      shade (ridx near near dim) (near_corner_shade near last) d₆
