-- ===== src/Images/Combo.antt =====
-- The value of `weighted_combo` of Performancelab/kernels.c in each part of the image.
use mathlib.Core.Path.{fun_ext}
use cs4400_fall.Prelude.{ℕ, ◌+◌, ◌<◌, ◌≡◌, inl, inr, refl, ap, ◌∙◌, arith}
use cs4400_fall.Images.{
  Image, weights, weighted_combo, inner_shade, corner_shade, last_column_shade, last_row_shade,
  near_column_shade, near_row_shade, near_corner_shade,
}
use cs4400_fall.Images.Places.{shaded}
use cs4400_fall.Images.Sums.{total, combo-total, part_in, part_out, part_weightless}

module _ (dim : ℕ) (src : Image) where
  -- A pixel with all its neighbours.
  pub combo_inner :
      (i j : ℕ)
      → i + 2 < dim
      → j + 2 < dim
      → weighted_combo dim i j src ≡ shaded (inner_shade dim src i j)
  unfolding inner_shade weights
  combo_inner i j u v =
      let same : total dim src i j ≡ inner_shade dim src i j = fun_ext λ c.
        let p₀₀ =
          part_in dim src i j 0 0 i j c (omega arith) (omega arith) (omega arith) (omega arith) in
        let p₀₁ =
          part_in dim src i j 0 1 i (j + 1) c (omega arith) refl (omega arith) (omega arith) in
        let p₀₂ =
          part_in dim src i j 0 2 i (j + 2) c (omega arith) refl (omega arith) (omega arith) in
        let p₁₀ =
          part_in dim src i j 1 0 (i + 1) j c refl (omega arith) (omega arith) (omega arith) in
        let p₁₁ = part_in dim src i j 1 1 (i + 1) (j + 1) c refl refl (omega arith) (omega arith) in
        let p₁₂ = part_in dim src i j 1 2 (i + 1) (j + 2) c refl refl (omega arith) (omega arith) in
        let p₂₀ =
          part_in dim src i j 2 0 (i + 2) j c refl (omega arith) (omega arith) (omega arith) in
        let p₂₁ = part_in dim src i j 2 1 (i + 2) (j + 1) c refl refl (omega arith) (omega arith) in
        let p₂₂ = part_in dim src i j 2 2 (i + 2) (j + 2) c refl refl (omega arith) (omega arith) in
        omega (arith, p₀₀, p₀₁, p₀₂, p₁₀, p₁₁, p₁₂, p₂₀, p₂₁, p₂₂) in
      combo-total dim src i j ∙ ap shaded same

  -- The last pixel.
  pub combo_corner :
      (last : ℕ)
      → last + 1 ≡ dim
      → weighted_combo dim last last src ≡ shaded (corner_shade dim src last)
  unfolding corner_shade weights
  combo_corner last u =
      let same : total dim src last last ≡ corner_shade dim src last = fun_ext λ c.
        let p₀₀ =
          part_in dim src last last 0 0 last last c (omega arith) (omega arith) (omega arith)
            (omega arith) in
        let p₀₁ = part_out dim src last last 0 1 c (inr (omega arith)) in
        let p₀₂ = part_out dim src last last 0 2 c (inr (omega arith)) in
        let p₁₀ = part_out dim src last last 1 0 c (inl (omega arith)) in
        let p₁₁ = part_out dim src last last 1 1 c (inl (omega arith)) in
        let p₁₂ = part_out dim src last last 1 2 c (inl (omega arith)) in
        let p₂₀ = part_out dim src last last 2 0 c (inl (omega arith)) in
        let p₂₁ = part_out dim src last last 2 1 c (inl (omega arith)) in
        let p₂₂ = part_out dim src last last 2 2 c (inl (omega arith)) in
        omega (arith, p₀₀, p₀₁, p₀₂, p₁₀, p₁₁, p₁₂, p₂₀, p₂₁, p₂₂) in
      combo-total dim src last last ∙ ap shaded same

  -- The last column.
  pub combo_last_column :
      (last i : ℕ)
      → last + 1 ≡ dim
      → i < last
      → weighted_combo dim i last src ≡ shaded (last_column_shade dim src last i)
  unfolding last_column_shade weights
  combo_last_column last i u v =
      let same : total dim src i last ≡ last_column_shade dim src last i = fun_ext λ c.
        let p₀₀ =
          part_in dim src i last 0 0 i last c (omega arith) (omega arith) (omega arith)
            (omega arith) in
        let p₀₁ = part_out dim src i last 0 1 c (inr (omega arith)) in
        let p₀₂ = part_out dim src i last 0 2 c (inr (omega arith)) in
        let p₁₀ =
          part_in dim src i last 1 0 (i + 1) last c (omega arith) (omega arith) (omega arith)
            (omega arith) in
        let p₁₁ = part_out dim src i last 1 1 c (inr (omega arith)) in
        let p₁₂ = part_out dim src i last 1 2 c (inr (omega arith)) in
        let p₂₀ = part_weightless dim src i last 2 0 c refl in
        let p₂₁ = part_out dim src i last 2 1 c (inr (omega arith)) in
        let p₂₂ = part_out dim src i last 2 2 c (inr (omega arith)) in
        omega (arith, p₀₀, p₀₁, p₀₂, p₁₀, p₁₁, p₁₂, p₂₀, p₂₁, p₂₂) in
      combo-total dim src i last ∙ ap shaded same

  -- The last row.
  pub combo_last_row :
      (last i : ℕ)
      → last + 1 ≡ dim
      → i < last
      → weighted_combo dim last i src ≡ shaded (last_row_shade dim src last i)
  unfolding last_row_shade weights
  combo_last_row last i u v =
      let same : total dim src last i ≡ last_row_shade dim src last i = fun_ext λ c.
        let p₀₀ =
          part_in dim src last i 0 0 last i c (omega arith) (omega arith) (omega arith)
            (omega arith) in
        let p₀₁ =
          part_in dim src last i 0 1 last (i + 1) c (omega arith) (omega arith) (omega arith)
            (omega arith) in
        let p₀₂ = part_weightless dim src last i 0 2 c refl in
        let p₁₀ = part_out dim src last i 1 0 c (inl (omega arith)) in
        let p₁₁ = part_out dim src last i 1 1 c (inl (omega arith)) in
        let p₁₂ = part_out dim src last i 1 2 c (inl (omega arith)) in
        let p₂₀ = part_out dim src last i 2 0 c (inl (omega arith)) in
        let p₂₁ = part_out dim src last i 2 1 c (inl (omega arith)) in
        let p₂₂ = part_out dim src last i 2 2 c (inl (omega arith)) in
        omega (arith, p₀₀, p₀₁, p₀₂, p₁₀, p₁₁, p₁₂, p₂₀, p₂₁, p₂₂) in
      combo-total dim src last i ∙ ap shaded same

  -- The column before the last.
  pub combo_near_column :
      (near last i : ℕ)
      → last + 1 ≡ dim
      → near + 1 ≡ last
      → i < near
      → weighted_combo dim i near src ≡ shaded (near_column_shade dim src near last i)
  unfolding near_column_shade weights
  combo_near_column near last i u v w =
      let same : total dim src i near ≡ near_column_shade dim src near last i = fun_ext λ c.
        let p₀₀ =
          part_in dim src i near 0 0 i near c (omega arith) (omega arith) (omega arith)
            (omega arith) in
        let p₀₁ =
          part_in dim src i near 0 1 i last c (omega arith) (omega arith) (omega arith)
            (omega arith) in
        let p₀₂ = part_out dim src i near 0 2 c (inr (omega arith)) in
        let p₁₀ =
          part_in dim src i near 1 0 (i + 1) near c (omega arith) (omega arith) (omega arith)
            (omega arith) in
        let p₁₁ =
          part_in dim src i near 1 1 (i + 1) last c (omega arith) (omega arith) (omega arith)
            (omega arith) in
        let p₁₂ = part_out dim src i near 1 2 c (inr (omega arith)) in
        let p₂₀ =
          part_in dim src i near 2 0 (i + 2) near c (omega arith) (omega arith) (omega arith)
            (omega arith) in
        let p₂₁ =
          part_in dim src i near 2 1 (i + 2) last c (omega arith) (omega arith) (omega arith)
            (omega arith) in
        let p₂₂ = part_out dim src i near 2 2 c (inr (omega arith)) in
        omega (arith, p₀₀, p₀₁, p₀₂, p₁₀, p₁₁, p₁₂, p₂₀, p₂₁, p₂₂) in
      combo-total dim src i near ∙ ap shaded same

  -- The row before the last.
  pub combo_near_row :
      (near last i : ℕ)
      → last + 1 ≡ dim
      → near + 1 ≡ last
      → i < near
      → weighted_combo dim near i src ≡ shaded (near_row_shade dim src near last i)
  unfolding near_row_shade weights
  combo_near_row near last i u v w =
      let same : total dim src near i ≡ near_row_shade dim src near last i = fun_ext λ c.
        let p₀₀ =
          part_in dim src near i 0 0 near i c (omega arith) (omega arith) (omega arith)
            (omega arith) in
        let p₀₁ =
          part_in dim src near i 0 1 near (i + 1) c (omega arith) (omega arith) (omega arith)
            (omega arith) in
        let p₀₂ =
          part_in dim src near i 0 2 near (i + 2) c (omega arith) (omega arith) (omega arith)
            (omega arith) in
        let p₁₀ =
          part_in dim src near i 1 0 last i c (omega arith) (omega arith) (omega arith)
            (omega arith) in
        let p₁₁ =
          part_in dim src near i 1 1 last (i + 1) c (omega arith) (omega arith) (omega arith)
            (omega arith) in
        let p₁₂ =
          part_in dim src near i 1 2 last (i + 2) c (omega arith) (omega arith) (omega arith)
            (omega arith) in
        let p₂₀ = part_out dim src near i 2 0 c (inl (omega arith)) in
        let p₂₁ = part_out dim src near i 2 1 c (inl (omega arith)) in
        let p₂₂ = part_out dim src near i 2 2 c (inl (omega arith)) in
        omega (arith, p₀₀, p₀₁, p₀₂, p₁₀, p₁₁, p₁₂, p₂₀, p₂₁, p₂₂) in
      combo-total dim src near i ∙ ap shaded same

  -- The pixel before the last one of its row and of its column.
  pub combo_near_corner :
      (near last : ℕ)
      → last + 1 ≡ dim
      → near + 1 ≡ last
      → weighted_combo dim near near src ≡ shaded (near_corner_shade dim src near last)
  unfolding near_corner_shade weights
  combo_near_corner near last u v =
      let same : total dim src near near ≡ near_corner_shade dim src near last = fun_ext λ c.
        let p₀₀ =
          part_in dim src near near 0 0 near near c (omega arith) (omega arith) (omega arith)
            (omega arith) in
        let p₀₁ =
          part_in dim src near near 0 1 near last c (omega arith) (omega arith) (omega arith)
            (omega arith) in
        let p₀₂ = part_out dim src near near 0 2 c (inr (omega arith)) in
        let p₁₀ =
          part_in dim src near near 1 0 last near c (omega arith) (omega arith) (omega arith)
            (omega arith) in
        let p₁₁ =
          part_in dim src near near 1 1 last last c (omega arith) (omega arith) (omega arith)
            (omega arith) in
        let p₁₂ = part_out dim src near near 1 2 c (inr (omega arith)) in
        let p₂₀ = part_out dim src near near 2 0 c (inl (omega arith)) in
        let p₂₁ = part_out dim src near near 2 1 c (inl (omega arith)) in
        let p₂₂ = part_out dim src near near 2 2 c (inl (omega arith)) in
        omega (arith, p₀₀, p₀₁, p₀₂, p₁₀, p₁₁, p₁₂, p₂₀, p₂₁, p₂₂) in
      combo-total dim src near near ∙ ap shaded same
