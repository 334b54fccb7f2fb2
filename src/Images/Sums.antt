-- ===== src/Images/Sums.antt =====
-- `weighted_combo` of Performancelab/kernels.c as a sum over the nine neighbours.
use mathlib.Core.Path.{fun_ext}
use cs4400_fall.Prelude.{
  ℕ, ◌+◌, ◌*◌, ◌/◌, ◌<◌, ◌≤◌, ◌≡◌, ◌⊎◌, refl, ap, ◌∙◌, Bool, true, false, if◌then◌else◌, arith,
}
use cs4400_fall.Images.{
  Pixel, Image, ridx, PixelSum, initialize_pixel_sum, add_weighted, accumulate_weighted_sum,
  assign_sum_to_pixel, weights, inside, combine, weighted_combo, shade_of, inner_shade,
  corner_shade, last_column_shade, last_row_shade, near_column_shade, near_row_shade,
  near_corner_shade,
}
use cs4400_fall.Images.Loops.{pairs}
use cs4400_fall.Images.Places.{shaded}

-- The sums of the three colours.
abbrev sums : ((Pixel → ℕ) → ℕ) → PixelSum
sums f = record { red = f (λ p. p.red); green = f (λ p. p.green); blue = f (λ p. p.blue) }

-- An `int` sum of whole numbers drops each weighted term's fraction by itself.
add_weighted_lem : (s p w : ℕ) → add_weighted s p w ≡ s + p * w / 32
unfolding add_weighted
add_weighted_lem s p w = omega arith

accumulate-sums :
    (f : (Pixel → ℕ) → ℕ) (p : Pixel) (w : ℕ)
    → accumulate_weighted_sum (sums f) p w ≡ sums (λ colour. f colour + colour p * w / 32)
unfolding accumulate_weighted_sum
accumulate-sums f p w =
    rw
      (
        add_weighted_lem (f (λ p. p.red)) p.red w,
        add_weighted_lem (f (λ p. p.green)) p.green w,
        add_weighted_lem (f (λ p. p.blue)) p.blue w,
      )
      refl

module _ (dim : ℕ) (src : Image) where
  -- What one neighbour adds to a colour.
  pub part : ℕ → ℕ → ℕ → ℕ → (Pixel → ℕ) → ℕ
  part i j ii jj colour =
      if inside dim (i + ii) (j + jj)
      then shade_of dim src colour (i + ii) (j + jj) * weights ii jj / 32
      else 0

  combine-sums :
      (i j ii jj : ℕ) (f : (Pixel → ℕ) → ℕ)
      → combine dim i j src ii jj (sums f) ≡ sums (λ colour. f colour + part i j ii jj colour)
  unfolding combine part
  combine-sums i j ii jj f = go (inside dim (i + ii) (j + jj))
    where
      go :
          (b : Bool)
          → (if b
              then accumulate_weighted_sum
                  (sums f)
                  (src (ridx (i + ii) (j + jj) dim))
                  (weights ii jj)
              else sums f)
            ≡ sums (λ colour.
              f colour
              + (if b then shade_of dim src colour (i + ii) (j + jj) * weights ii jj / 32 else 0))
      go true = accumulate-sums f (src (ridx (i + ii) (j + jj) dim)) (weights ii jj)
      go false =
          let zero_term : f ≡ (λ colour. f colour + 0) = fun_ext λ colour. omega arith in
          ap sums zero_term

  -- The sums as the nine rounds leave them.
  abbrev add_part : ℕ → ℕ → ℕ → ℕ → ((Pixel → ℕ) → ℕ) → (Pixel → ℕ) → ℕ
  add_part i j ii jj f colour = f colour + part i j ii jj colour

  abbrev rows : ℕ → ℕ → ℕ → ((Pixel → ℕ) → ℕ) → (Pixel → ℕ) → ℕ
  rows i j ii f = add_part i j ii 2 (add_part i j ii 1 (add_part i j ii 0 f))

  combine-row :
      (i j ii : ℕ) (f : (Pixel → ℕ) → ℕ)
      → combine dim i j src ii 2 (combine dim i j src ii 1 (combine dim i j src ii 0 (sums f)))
        ≡ sums (rows i j ii f)
  combine-row i j ii f =
      ap (λ s. combine dim i j src ii 2 (combine dim i j src ii 1 s)) (combine-sums i j ii 0 f)
      ∙ ap (combine dim i j src ii 2) (combine-sums i j ii 1 (add_part i j ii 0 f))
      ∙ combine-sums i j ii 2 (add_part i j ii 1 (add_part i j ii 0 f))

  abbrev pub total : ℕ → ℕ → (Pixel → ℕ) → ℕ
  total i j = rows i j 2 (rows i j 1 (rows i j 0 (λ _. 0)))

  pub combo-total : (i j : ℕ) → weighted_combo dim i j src ≡ shaded (total i j)
  unfolding weighted_combo pairs cs4400_fall.Images.Loops.for assign_sum_to_pixel
  combo-total i j = ap assign_sum_to_pixel (
      ap
        (λ s. combine dim i j src 2 2 (
          combine dim i j src 2 1 (
            combine dim i j src 2 0
              (combine dim i j src 1 2 (combine dim i j src 1 1 (combine dim i j src 1 0 s))))))
        (combine-row i j 0 (λ _. 0))
      ∙ ap (λ s. combine dim i j src 2 2 (combine dim i j src 2 1 (combine dim i j src 2 0 s)))
          (combine-row i j 1 (rows i j 0 (λ _. 0)))
      ∙ combine-row i j 2 (rows i j 1 (rows i j 0 (λ _. 0))))

  pub part_in :
      (i j ii jj r s : ℕ) (colour : Pixel → ℕ)
      → r ≡ i + ii
      → s ≡ j + jj
      → r < dim
      → s < dim
      → part i j ii jj colour ≡ shade_of dim src colour r s * weights ii jj / 32
  unfolding part
  part_in i j ii jj r s colour e f u v =
      let t : inside dim (i + ii) (j + jj) ≡ true = ground arith in rw (t, e, f) refl

  pub part_out :
      (i j ii jj : ℕ) (colour : Pixel → ℕ)
      → (dim ≤ i + ii) ⊎ (dim ≤ j + jj)
      → part i j ii jj colour ≡ 0
  unfolding part
  part_out i j ii jj colour out =
      let t : inside dim (i + ii) (j + jj) ≡ false = ground arith in rw t refl

  pub part_weightless :
      (i j ii jj : ℕ) (colour : Pixel → ℕ) → weights ii jj ≡ 0 → part i j ii jj colour ≡ 0
  unfolding part
  part_weightless i j ii jj colour e =
      let nothing : shade_of dim src colour (i + ii) (j + jj) * weights ii jj / 32 ≡ 0 =
        rw e (omega arith) in
      rw nothing (if_same (inside dim (i + ii) (j + jj)))
    where
      if_same : (b : Bool) → ◌≡◌ {A = ℕ} (if b then 0 else 0) 0
      if_same true = refl
      if_same false = refl
