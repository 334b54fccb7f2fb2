-- ===== src/Images/Places.antt =====
-- Places in an image of Performancelab/kernels.c, and writes to them.
use cs4400_fall.Prelude.{
  ℕ, ◌+◌, ◌-◌, ◌*◌, ◌%◌, ◌^◌, ◌<◌, ◌≡◌, ◌≢◌, ◌⊎◌, inl, inr, refl, sym, ap, true, false, ◌==◌, arith,
}
use cs4400_fall.Images.{Pixel, Image, ridx, write, shade}

rows_apart : (i j k l n : ℕ) → j < n → l < n → i < k → i * n + j ≢ k * n + l
rows_apart i j k l n hj hl h e =
    let d = k - i - 1 in
    let far : k ≡ i + 1 + d = omega arith in
    let spread : (i + 1 + d) * n ≡ i * n + n + d * n = grind arith in
    absurd (omega (arith, e, ap (λ x. x * n) far, spread))

pub lt_cases : (i k : ℕ) → (i < k) ⊎ (k < i) ⊎ (i ≡ k)
lt_cases i k = ground arith

-- Different pixels of an image have different places.
pub ridx-inj : (i j k l n : ℕ) → j < n → l < n → ridx i j n ≡ ridx k l n → (i ≡ k) × (j ≡ l)
unfolding ridx
ridx-inj i j k l n hj hl e =
    let row : i ≡ k = elim (lt_cases i k) [
      | inl less ↦ absurd (rows_apart i j k l n hj hl less e)
      | inr (inl more) ↦ absurd (rows_apart k l i j n hl hj more (sym e))
      | inr (inr same) ↦ same
    ] in
    (row, omega (arith, e, ap (λ x. x * n) row))

-- The pixels are the first dim * dim places.
pub ridx_lt : (i j n : ℕ) → i < n → j < n → ridx i j n < n * n
unfolding ridx
ridx_lt i j n hi hj =
    let d = n - i - 1 in
    let far : n ≡ i + 1 + d = omega arith in
    let spread : (i + 1 + d) * n ≡ i * n + n + d * n = grind arith in
    omega (arith, ap (λ x. x * n) far, spread)

pub write-same : (a : ℕ) (p : Pixel) (d : Image) → write a p d a ≡ p
unfolding write
write-same a p d = let same : (a == a) ≡ true = ground arith in rw same refl

pub write-other : (a q : ℕ) (p : Pixel) (d : Image) → q ≢ a → write a p d q ≡ d q
unfolding write
write-other a q p d n = let other : (q == a) ≡ false = ground arith in rw other refl

-- The pixel that three colours make.
abbrev pub shaded : ((Pixel → ℕ) → ℕ) → Pixel
shaded f = record {
  red = f (λ p. p.red) % 2 ^ 16;
  green = f (λ p. p.green) % 2 ^ 16;
  blue = f (λ p. p.blue) % 2 ^ 16;
}

pub shade-same : (a : ℕ) (f : (Pixel → ℕ) → ℕ) (d : Image) → shade a f d a ≡ shaded f
unfolding shade write
shade-same a f d = let same : (a == a) ≡ true = ground arith in rw same refl

pub shade-other : (a q : ℕ) (f : (Pixel → ℕ) → ℕ) (d : Image) → q ≢ a → shade a f d q ≡ d q
unfolding shade write
shade-other a q f d n = let other : (q == a) ≡ false = ground arith in rw other refl
