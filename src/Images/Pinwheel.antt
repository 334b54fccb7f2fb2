-- ===== src/Images/Pinwheel.antt =====
-- The two pinwheel kernels of Performancelab/kernels.c.
use mathlib.Core.Path.{subst, fun_ext}
use native.Mathlib.Decide.{ℕ_discrete}
use cs4400_fall.Prelude.{
  ℕ, zero, suc, ◌+◌, ◌-◌, ◌/◌, ◌%◌, ◌<◌, ◌≤◌, ◌≡◌, ◌≢◌, ◌⊎◌, inl, inr, refl, sym, ap, ◌∙◌, arith,
}
use cs4400_fall.Images.{Pixel, Image, ridx, write, turn, pinwheel, naive_pinwheel}
use cs4400_fall.Images.Loops.{
  pairs, blocked, Keeps, Sets, pairs-Keeps, pairs-Sets, blocked-Keeps, blocked-Sets,
}
use cs4400_fall.Images.Places.{ridx-inj, write-same, write-other}

-- Whether a bounded number has a property that is decided.
search :
    (P : ℕ → Type 0) (n : ℕ)
    → ((x : ℕ) → P x ⊎ (P x → ⊥))
    → ((x : ℕ) × (x < n) × P x) ⊎ ((x : ℕ) → x < n → P x → ⊥)
search P zero dec = inr (λ x l p. absurd (omega arith))
search P (suc n) dec = elim (dec n) [
  | inl p ↦ inl (n, omega arith, p)
  | inr fails ↦ elim (search P n dec) [
    | inl (x, l, p) ↦ inl (x, omega arith, p)
    | inr none_below ↦ inr (λ x l p. elim (ℕ_discrete x n) [
      | yes e ↦ fails (subst P e p)
      | no ne ↦ none_below x (omega arith) p
    ])
  ]
]

module _ (n : ℕ) (place : ℕ → ℕ → ℕ) (a : ℕ) where
  abbrev InRow : ℕ → Type 0
  InRow x = (y : ℕ) × (y < n) × (place x y ≡ a)

  in_row : (x : ℕ) → InRow x ⊎ (InRow x → ⊥)
  in_row x =
      elim (search (λ y. place x y ≡ a) n
        (λ y. elim (ℕ_discrete (place x y) a) [ yes e ↦ inl e | no ne ↦ inr ne ])) [
          | inl h ↦ inl h
          | inr miss ↦ inr (λ h. miss h.0 h.1 h.2)
        ]

  pub hit_or_miss :
      ((x : ℕ) × (y : ℕ) × (x < n) × (y < n) × (place x y ≡ a))
      ⊎ ((x y : ℕ) → x < n → y < n → place x y ≢ a)
  hit_or_miss = elim (search InRow n in_row) [
    | inl (x, l, h) ↦ inl (x, h.0, l, h.1, h.2)
    | inr miss ↦ inr (λ x y l r e. miss x l (y, r, e))
  ]

-- Writes to distinct places may be done in any order.
module _ (n : ℕ) (whole : n % 8 ≡ 0) (place : ℕ → ℕ → ℕ) (pixel : ℕ → ℕ → Pixel)
    (distinct : (x y z w : ℕ)
      → x < n
      → y < n
      → z < n
      → w < n
      → place x y ≡ place z w
      → (x ≡ z) × (y ≡ w)) where
  abbrev body : ℕ → ℕ → Image → Image
  body x y = write (place x y) (pixel x y)

  body-Keeps :
      (x y z w : ℕ)
      → x < n
      → y < n
      → z < n
      → w < n
      → Keeps (λ (d : Image). d (place x y)) (pixel x y) (body z w)
  body-Keeps x y z w l r u v d h = elim (ℕ_discrete (place z w) (place x y)) [
    | yes e ↦
        let (p, q) = distinct z w x y u v l r e in rw (p, q) (write-same (place x y) (pixel x y) d)
    | no ne ↦ write-other (place z w) (place x y) (pixel z w) d (λ e. ne (sym e)) ∙ h
  ]

  miss-Keeps :
      (a : ℕ) (p : Pixel)
      → ((x y : ℕ) → x < n → y < n → place x y ≢ a)
      → (x y : ℕ) → x < n
      → y < n
      → Keeps (λ (d : Image). d a) p (body x y)
  miss-Keeps a p miss x y l r d h =
      write-other (place x y) a (pixel x y) d (λ e. miss x y l r (sym e)) ∙ h

  blocked-pairs : (d : Image) → blocked n body d ≡ pairs n body d
  blocked-pairs d = fun_ext λ a. elim (hit_or_miss n place a) [
    | inl (x, y, l, r, e) ↦
        let read : Image → Pixel = λ d. d (place x y) in
        let keep : (z w : ℕ) → z < n → w < n → Keeps read (pixel x y) (body z w) =
          λ z w. body-Keeps x y z w l r in
        ap (blocked n body d) (sym e)
        ∙ blocked-Sets read (pixel x y) n x y body (omega arith) (omega arith)
            (write-same (place x y) (pixel x y)) (λ z w u v. keep z w (omega arith) (omega arith)) d
        ∙ sym
            (pairs-Sets read (pixel x y) n x y body l r (write-same (place x y) (pixel x y)) keep d)
        ∙ ap (pairs n body d) e
    | inr miss ↦
        let read : Image → Pixel = λ d. d a in
        blocked-Keeps read (d a) n body
          (λ z w u v. miss-Keeps a (d a) miss z w (omega arith) (omega arith)) d refl
        ∙ sym (pairs-Keeps read (d a) n body (miss-Keeps a (d a) miss) d refl)
  ]

module _ (dim : ℕ) (whole : dim % 16 ≡ 0) (src : Image) where
  half_whole : dim / 2 % 8 ≡ 0
  half_whole = omega arith

  quadrant :
      (row column last : ℕ)
      → column + dim / 2 ≤ dim
      → dim / 2 - 1 ≤ last
      → last < dim
      → (d : Image)
      → blocked (dim / 2) (turn dim src row column last) d
        ≡ pairs (dim / 2) (turn dim src row column last) d
  unfolding turn
  quadrant row column last c l m d =
      blocked-pairs (dim / 2) half_whole (λ i j. ridx (last - j) (column + i) dim)
        (λ i j. src (ridx (row + i) (column + j) dim))
        (λ x y z w u v s t e.
          let (p, q) =
            ridx-inj (last - y) (column + x) (last - w) (column + z) dim (omega arith) (omega arith)
              e in
          (omega arith, omega arith))
        d

-- For a dimension that is a multiple of 16, the blocked kernel does to the destination what the
-- naive one does.
pub pinwheel-naive_pinwheel :
    (dim : ℕ) (src dest : Image)
    → dim % 16 ≡ 0
    → pinwheel dim src dest ≡ naive_pinwheel dim src dest
unfolding pinwheel naive_pinwheel pairs blocked turn cs4400_fall.Images.Loops.for
pinwheel-naive_pinwheel zero src dest whole = refl
pinwheel-naive_pinwheel (suc n) src dest whole =
    let dim = suc n in
    let half = dim / 2 in
    quadrant dim whole src half half (dim - 1) (omega arith) (omega arith) (omega arith) _
    ∙ ap (pairs half (turn dim src half half (dim - 1))) (
        quadrant dim whole src half 0 (dim - 1) (omega arith) (omega arith) (omega arith) _
        ∙ ap (pairs half (turn dim src half 0 (dim - 1))) (
            quadrant dim whole src 0 half (half - 1) (omega arith) (omega arith) (omega arith) _
            ∙ ap (pairs half (turn dim src 0 half (half - 1))) (
                quadrant dim whole src 0 0 (half - 1) (omega arith) (omega arith) (omega arith)
                  dest)))
