-- ===== src/Images/Turned.antt =====
-- Where the pinwheel kernels of Performancelab/kernels.c move the pixels.
use native.Mathlib.Decide.{ℕ_discrete}
use cs4400_fall.Prelude.{ℕ, zero, suc, ◌+◌, ◌-◌, ◌*◌, ◌/◌, ◌%◌, ◌<◌, ◌≤◌, ◌≡◌, refl, ap, ◌∙◌, arith}
use cs4400_fall.Images.{Pixel, Image, ridx, write, turn, pinwheel, naive_pinwheel}
use cs4400_fall.Images.Loops.{pairs, Keeps, Sets, pairs-Keeps, pairs-Sets}
use cs4400_fall.Images.Places.{ridx-inj, ridx_lt, write-same, write-other}
use cs4400_fall.Images.Pinwheel.{pinwheel-naive_pinwheel}

module _ (dim : ℕ) (src : Image) (row column last : ℕ) (fits : column + dim / 2 ≤ dim)
    (low : dim / 2 - 1 ≤ last) (high : last < dim) where
  abbrev move : Image → Image
  move = pairs (dim / 2) (turn dim src row column last)

  beyond : (a : ℕ) → dim * dim ≤ a → (d : Image) → move d a ≡ d a
  unfolding turn
  beyond a out d =
      pairs-Keeps (λ (d : Image). d a) (d a) (dim / 2) (turn dim src row column last)
        (λ i j l r d h.
          write-other (ridx (last - j) (column + i) dim) a (src (ridx (row + i) (column + j) dim)) d
            (λ e.
              absurd
                (omega (arith, e, ridx_lt (last - j) (column + i) dim (omega arith) (omega arith))))
          ∙ h)
        d refl

  elsewhere :
      (r c : ℕ)
      → c < dim
      → ((i j : ℕ) → i < dim / 2 → j < dim / 2 → (r ≡ last - j) × (c ≡ column + i) → ⊥)
      → (d : Image) → move d (ridx r c dim) ≡ d (ridx r c dim)
  unfolding turn
  elsewhere r c hc apart d =
      pairs-Keeps (λ (d : Image). d (ridx r c dim)) (d (ridx r c dim)) (dim / 2)
        (turn dim src row column last)
        (λ i j l u d h.
          write-other (ridx (last - j) (column + i) dim) (ridx r c dim)
            (src (ridx (row + i) (column + j) dim)) d
            (λ e. apart i j l u (ridx-inj r c (last - j) (column + i) dim hc (omega arith) e))
          ∙ h)
        d refl

  here :
      (i j : ℕ)
      → i < dim / 2
      → j < dim / 2
      → (d : Image)
      → move d (ridx (last - j) (column + i) dim) ≡ src (ridx (row + i) (column + j) dim)
  unfolding turn
  here i j l u d =
      let a = ridx (last - j) (column + i) dim in
      pairs-Sets (λ (d : Image). d a) (src (ridx (row + i) (column + j) dim)) (dim / 2) i j
        (turn dim src row column last) l u (write-same a (src (ridx (row + i) (column + j) dim)))
        (λ z w v x d h. elim (ℕ_discrete a (ridx (last - w) (column + z) dim)) [
          | yes e ↦
              let (p, q) =
                ridx-inj (last - j) (column + i) (last - w) (column + z) dim (omega arith)
                  (omega arith) e in
              let z_i : z ≡ i = omega arith in
              let w_j : w ≡ j = omega arith in
              rw (z_i, w_j) (write-same a (src (ridx (row + i) (column + j) dim)) d)
          | no ne ↦
              write-other (ridx (last - w) (column + z) dim) a
                (src (ridx (row + z) (column + w) dim)) d ne
              ∙ h
        ])
        d

  here_at :
      (i j r c s t : ℕ)
      → i < dim / 2
      → j < dim / 2
      → r ≡ last - j
      → c ≡ column + i
      → s ≡ row + i
      → t ≡ column + j
      → (d : Image) → move d (ridx r c dim) ≡ src (ridx s t dim)
  here_at i j r c s t l u e f g h d = rw (e, f, g, h) (here i j l u d)

-- Where the naive kernel moves the pixels of the four quarters of an image, and what it keeps.
module _ (dim : ℕ) (src dest : Image) (whole : dim % 16 ≡ 0) where
  abbrev half : ℕ
  half = dim / 2

  module _ (i j : ℕ) (hi : i < dim / 2) (hj : j < dim / 2) where
    upper_left : naive_pinwheel dim src dest (ridx (half - 1 - j) i dim) ≡ src (ridx i j dim)
    unfolding naive_pinwheel
    upper_left =
        elsewhere dim src half half (dim - 1) (omega arith) (omega arith) (omega arith)
          (half - 1 - j) i (omega arith) (λ x y l r h. absurd (omega arith)) _
        ∙ elsewhere dim src half 0 (dim - 1) (omega arith) (omega arith) (omega arith)
            (half - 1 - j) i (omega arith) (λ x y l r h. absurd (omega arith)) _
        ∙ elsewhere dim src 0 half (half - 1) (omega arith) (omega arith) (omega arith)
            (half - 1 - j) i (omega arith) (λ x y l r h. absurd (omega arith)) _
        ∙ here_at dim src 0 0 (half - 1) (omega arith) (omega arith) (omega arith) i j
            (half - 1 - j) i i j hi hj refl (omega arith) (omega arith) (omega arith) dest

    upper_right :
        naive_pinwheel dim src dest (ridx (half - 1 - j) (half + i) dim)
        ≡ src (ridx i (half + j) dim)
    unfolding naive_pinwheel
    upper_right =
        elsewhere dim src half half (dim - 1) (omega arith) (omega arith) (omega arith)
          (half - 1 - j) (half + i) (omega arith) (λ x y l r h. absurd (omega arith)) _
        ∙ elsewhere dim src half 0 (dim - 1) (omega arith) (omega arith) (omega arith)
            (half - 1 - j) (half + i) (omega arith) (λ x y l r h. absurd (omega arith)) _
        ∙ here_at dim src 0 half (half - 1) (omega arith) (omega arith) (omega arith) i j
            (half - 1 - j) (half + i) i (half + j) hi hj refl refl (omega arith) refl _

    lower_left :
        naive_pinwheel dim src dest (ridx (dim - 1 - j) i dim) ≡ src (ridx (half + i) j dim)
    unfolding naive_pinwheel
    lower_left =
        elsewhere dim src half half (dim - 1) (omega arith) (omega arith) (omega arith)
          (dim - 1 - j) i (omega arith) (λ x y l r h. absurd (omega arith)) _
        ∙ here_at dim src half 0 (dim - 1) (omega arith) (omega arith) (omega arith) i j
            (dim - 1 - j) i (half + i) j hi hj refl (omega arith) refl (omega arith) _

    lower_right :
        naive_pinwheel dim src dest (ridx (dim - 1 - j) (half + i) dim)
        ≡ src (ridx (half + i) (half + j) dim)
    unfolding naive_pinwheel
    lower_right =
        here_at dim src half half (dim - 1) (omega arith) (omega arith) (omega arith) i j
          (dim - 1 - j) (half + i) (half + i) (half + j) hi hj refl refl refl refl _

-- For a dimension that is a multiple of 16, the kernel turns each quarter of the image by itself:
-- the pixel in row `i` and column `j` of a quarter goes to the row that is `j` rows above that
-- quarter's last one, and to the quarter's column `i`.
pub pinwheel-quarters :
    (dim i j : ℕ) (src dest : Image)
    → dim % 16 ≡ 0
    → i < dim / 2
    → j < dim / 2
    → (pinwheel dim src dest (ridx (dim / 2 - 1 - j) i dim) ≡ src (ridx i j dim))
      × (pinwheel dim src dest (ridx (dim / 2 - 1 - j) (dim / 2 + i) dim)
          ≡ src (ridx i (dim / 2 + j) dim))
      × (pinwheel dim src dest (ridx (dim - 1 - j) i dim) ≡ src (ridx (dim / 2 + i) j dim))
      × (pinwheel dim src dest (ridx (dim - 1 - j) (dim / 2 + i) dim)
          ≡ src (ridx (dim / 2 + i) (dim / 2 + j) dim))
pinwheel-quarters dim i j src dest whole hi hj = rw (pinwheel-naive_pinwheel dim src dest whole) (
  upper_left dim src dest whole i j hi hj,
  upper_right dim src dest whole i j hi hj,
  lower_left dim src dest whole i j hi hj,
  lower_right dim src dest whole i j hi hj,
)

-- For a dimension that is a multiple of 16, the kernel writes nothing behind the last pixel.
pub pinwheel_behind :
    (dim a : ℕ) (src dest : Image) → dim % 16 ≡ 0 → dim * dim ≤ a → pinwheel dim src dest a ≡ dest a
unfolding naive_pinwheel pairs cs4400_fall.Images.Loops.for
pinwheel_behind zero a src dest whole out = ap (λ f. f a) (pinwheel-naive_pinwheel 0 src dest whole)
pinwheel_behind (suc n) a src dest whole out =
    let dim = suc n in
    let half = dim / 2 in
    ap (λ f. f a) (pinwheel-naive_pinwheel dim src dest whole)
    ∙ beyond dim src half half (dim - 1) (omega arith) (omega arith) (omega arith) a out _
    ∙ beyond dim src half 0 (dim - 1) (omega arith) (omega arith) (omega arith) a out _
    ∙ beyond dim src 0 half (half - 1) (omega arith) (omega arith) (omega arith) a out _
    ∙ beyond dim src 0 0 (half - 1) (omega arith) (omega arith) (omega arith) a out dest
