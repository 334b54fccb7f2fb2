-- ===== src/Images/Motion.antt =====
-- The motion kernels of Performancelab/kernels.c.
use mathlib.Core.Path.{subst, fun_ext}
use native.Mathlib.Decide.{ℕ_discrete}
use cs4400_fall.Prelude.{
  ℕ, ◌+◌, ◌-◌, ◌%◌, ◌<◌, ◌≤◌, ◌≡◌, ◌≢◌, ◌⊎◌, inl, inr, refl, sym, ap, ◌∙◌, arith,
}
use cs4400_fall.Images.{
  Pixel, Image, ridx, weighted_combo, naive_motion, shade, motion, inner_shade, corner_shade,
  last_column_shade, last_row_shade, near_column_shade, near_row_shade, near_corner_shade,
}
use cs4400_fall.Images.Loops.{
  for_below, blocked, Keeps, Sets, each-Keeps, each-Sets, pairs-Keeps, pairs-Sets, blocked-Keeps,
  blocked-Sets,
}
use cs4400_fall.Images.Places.{
  lt_cases, ridx-inj, write-same, write-other, shaded, shade-same, shade-other,
}
use cs4400_fall.Images.Pinwheel.{hit_or_miss}
use cs4400_fall.Images.Combo.{
  combo_inner, combo_corner, combo_last_column, combo_last_row, combo_near_column, combo_near_row,
  combo_near_corner,
}

-- A dimension of whole blocks, a place, and what it holds.
module _ (near : ℕ) (src : Image) (whole : (near + 2) % 8 ≡ 0) where
  abbrev dim : ℕ
  dim = near + 2

  abbrev last : ℕ
  last = near + 1

  -- The statements of `motion`.
  abbrev inner : Image → Image
  inner = blocked near (λ i j. shade (ridx i j dim) (inner_shade dim src i j))

  abbrev corner : Image → Image
  corner = shade (ridx last last dim) (corner_shade dim src last)

  abbrev last_column : Image → Image
  last_column = for_below 0 last 1 (λ i. shade (ridx i last dim) (last_column_shade dim src last i))

  abbrev last_row : Image → Image
  last_row = for_below 0 last 1 (λ i. shade (ridx last i dim) (last_row_shade dim src last i))

  abbrev near_column : Image → Image
  near_column =
      for_below 0 near 1 (λ i. shade (ridx i near dim) (near_column_shade dim src near last i))

  abbrev near_row : Image → Image
  near_row = for_below 0 near 1 (λ i. shade (ridx near i dim) (near_row_shade dim src near last i))

  abbrev near_corner : Image → Image
  near_corner = shade (ridx near near dim) (near_corner_shade dim src near last)

  motion_lem :
      (d : Image)
      → motion dim src d
        ≡ near_corner (near_row (near_column (last_row (last_column (corner (inner d))))))
  unfolding motion
  motion_lem d =
      let n : near + 2 - 2 ≡ near = omega arith in
      let l : near + 2 - 1 ≡ near + 1 = omega arith in rw (n, l) refl

  module _ (a : ℕ) (v : Pixel) where
    abbrev read : Image → Pixel
    read d = d a

    apart-Keeps :
        (i j : ℕ) (f : (Pixel → ℕ) → ℕ) → a ≢ ridx i j dim → Keeps read v (shade (ridx i j dim) f)
    apart-Keeps i j f n d h = shade-other (ridx i j dim) a f d n ∙ h

  -- A place in a row and a column.
  module _ (r c : ℕ) (hr : r < dim) (hc : c < dim) where
    abbrev at : Image → Pixel
    at d = d (ridx r c dim)

    abbrev goal : Pixel
    goal = weighted_combo dim r c src

    shade-Keeps :
        (i j : ℕ) (f : (Pixel → ℕ) → ℕ)
        → j < dim
        → ((r ≡ i) × (c ≡ j) → ⊥)
        → Keeps at goal (shade (ridx i j dim) f)
    shade-Keeps i j f hj n =
        apart-Keeps (ridx r c dim) goal i j f (λ e. n (ridx-inj r c i j dim hc hj e))

    shade-Sets :
        (i j : ℕ) (f : (Pixel → ℕ) → ℕ)
        → i ≡ r
        → j ≡ c
        → goal ≡ shaded f
        → Sets at goal (shade (ridx i j dim) f)
    shade-Sets i j f e e' g d = rw (e, e', g) (shade-same (ridx r c dim) f d)

    corner-Keeps : r < last ⊎ c < last → Keeps at goal corner
    corner-Keeps n =
        shade-Keeps last last (corner_shade dim src last) (omega arith) (λ h. absurd (omega arith))

    last_column-Keeps : c < last ⊎ r ≡ last → Keeps at goal last_column
    last_column-Keeps n = each-Keeps at goal 0 last _ λ i _ l.
        shade-Keeps i last (last_column_shade dim src last i) (omega arith)
          (λ h. absurd (omega arith))

    last_row-Keeps : r < last ⊎ c ≡ last → Keeps at goal last_row
    last_row-Keeps n = each-Keeps at goal 0 last _ λ i _ l.
        shade-Keeps last i (last_row_shade dim src last i) (omega arith) (λ h. absurd (omega arith))

    near_column-Keeps : c ≢ near ⊎ near ≤ r → Keeps at goal near_column
    near_column-Keeps n = each-Keeps at goal 0 near _ λ i _ l.
        shade-Keeps i near (near_column_shade dim src near last i) (omega arith)
          (λ h. absurd (omega arith))

    near_row-Keeps : r ≢ near ⊎ near ≤ c → Keeps at goal near_row
    near_row-Keeps n = each-Keeps at goal 0 near _ λ i _ l.
        shade-Keeps near i (near_row_shade dim src near last i) (omega arith)
          (λ h. absurd (omega arith))

    near_corner-Keeps : r ≢ near ⊎ c ≢ near → Keeps at goal near_corner
    near_corner-Keeps n =
        shade-Keeps near near (near_corner_shade dim src near last) (omega arith)
          (λ h. absurd (omega arith))

    -- A loop along a line that comes to the place once.
    line-Sets :
        (n k : ℕ) (p q : ℕ → ℕ) (f : ℕ → (Pixel → ℕ) → ℕ)
        → k < n
        → p k ≡ r
        → q k ≡ c
        → ((x : ℕ) → x < n → q x < dim)
        → ((x : ℕ) → r ≡ p x → c ≡ q x → x ≡ k)
        → goal ≡ shaded (f k)
        → Sets at goal (for_below 0 n 1 (λ x. shade (ridx (p x) (q x) dim) (f x)))
    line-Sets n k p q f l e e' fits once g =
        each-Sets at goal 0 n k _ (omega arith) l (shade-Sets (p k) (q k) (f k) e e' g)
          (λ x _ u d h. elim (ℕ_discrete x k) [
            | yes same ↦
                shade-Sets (p x) (q x) (f x) (ap p same ∙ e) (ap q same ∙ e')
                  (g ∙ sym (ap (λ y. shaded (f y)) same)) d
            | no other ↦ shade-Keeps (p x) (q x) (f x) (fits x u) (λ h. other (once x h.0 h.1)) d h
          ])

    inner-Sets : r < near → c < near → Sets at goal inner
    inner-Sets l m =
        let hit : Sets at goal (shade (ridx r c dim) (inner_shade dim src r c)) =
          shade-Sets r c (inner_shade dim src r c) refl refl
            (combo_inner dim src r c (omega arith) (omega arith)) in
        blocked-Sets at goal near r c _ (omega arith) (omega arith) hit (λ x y u v d h.
          elim (ℕ_discrete x r) [
            | yes e ↦ elim (ℕ_discrete y c) [
              | yes e' ↦ rw (e, e') (hit d)
              | no other ↦
                  shade-Keeps x y (inner_shade dim src x y) (omega arith) (λ h. other (sym h.1)) d h
            ]
            | no other ↦
                shade-Keeps x y (inner_shade dim src x y) (omega arith) (λ h. other (sym h.0)) d h
          ])

    -- What `motion` leaves at the place, by its part of the image.
    at_near_corner : (d : Image) → r ≡ near → c ≡ near → at (motion dim src d) ≡ goal
    at_near_corner d e f =
        ap at (motion_lem d)
        ∙ shade-Sets near near (near_corner_shade dim src near last) (sym e) (sym f)
            (rw (e, f) (combo_near_corner dim src near last (omega arith) (omega arith))) _

    at_near_row : (d : Image) → r ≡ near → c < near → at (motion dim src d) ≡ goal
    at_near_row d e l =
        ap at (motion_lem d)
        ∙ near_corner-Keeps (inr (omega arith)) _ (
            line-Sets near c (λ _. near) (λ x. x) (λ x. near_row_shade dim src near last x) l
              (sym e) refl (λ x u. omega arith) (λ x _ h. sym h)
              (rw e (combo_near_row dim src near last c (omega arith) (omega arith) l)) _)

    at_near_column : (d : Image) → r < near → c ≡ near → at (motion dim src d) ≡ goal
    at_near_column d l e =
        ap at (motion_lem d)
        ∙ near_corner-Keeps (inl (omega arith)) _ (
            near_row-Keeps (inl (omega arith)) _ (
              line-Sets near r (λ x. x) (λ _. near) (λ x. near_column_shade dim src near last x) l
                refl (sym e) (λ x u. omega arith) (λ x h _. sym h)
                (rw e (combo_near_column dim src near last r (omega arith) (omega arith) l)) _))

    -- The statements behind the two loops for the last column and row leave those alone.
    after_edges : r ≡ last ⊎ c ≡ last → Keeps at goal (λ d. near_corner (near_row (near_column d)))
    after_edges (inl e) d h =
        near_corner-Keeps (inl (omega arith)) _
          (near_row-Keeps (inl (omega arith)) _ (near_column-Keeps (inr (omega arith)) d h))
    after_edges (inr e) d h =
        near_corner-Keeps (inr (omega arith)) _
          (near_row-Keeps (inr (omega arith)) _ (near_column-Keeps (inl (omega arith)) d h))

    at_last_row : (d : Image) → r ≡ last → c < last → at (motion dim src d) ≡ goal
    at_last_row d e l =
        ap at (motion_lem d)
        ∙ after_edges (inl e) _ (
            line-Sets last c (λ _. last) (λ x. x) (λ x. last_row_shade dim src last x) l (sym e)
              refl (λ x u. omega arith) (λ x _ h. sym h)
              (rw e (combo_last_row dim src last c (omega arith) l)) _)

    at_last_column : (d : Image) → r < last → c ≡ last → at (motion dim src d) ≡ goal
    at_last_column d l e =
        ap at (motion_lem d)
        ∙ after_edges (inr e) _ (
            last_row-Keeps (inl l) _ (
              line-Sets last r (λ x. x) (λ _. last) (λ x. last_column_shade dim src last x) l refl
                (sym e) (λ x u. omega arith) (λ x h _. sym h)
                (rw e (combo_last_column dim src last r (omega arith) l)) _))

    at_corner : (d : Image) → r ≡ last → c ≡ last → at (motion dim src d) ≡ goal
    at_corner d e f =
        ap at (motion_lem d)
        ∙ after_edges (inl e) _ (
            last_row-Keeps (inr f) _ (
              last_column-Keeps (inr e) _ (
                shade-Sets last last (corner_shade dim src last) (sym e) (sym f)
                  (rw (e, f) (combo_corner dim src last (omega arith))) _)))

    at_inner : (d : Image) → r < near → c < near → at (motion dim src d) ≡ goal
    at_inner d l m =
        ap at (motion_lem d)
        ∙ near_corner-Keeps (inl (omega arith)) _ (
            near_row-Keeps (inl (omega arith)) _ (
              near_column-Keeps (inl (omega arith)) _ (
                last_row-Keeps (inl (omega arith)) _ (
                  last_column-Keeps (inl (omega arith)) _
                    (corner-Keeps (inl (omega arith)) _ (inner-Sets l m d))))))

    at_place : (d : Image) → at (motion dim src d) ≡ goal
    at_place d = elim (lt_cases r near) [
      | inl up ↦ elim (lt_cases c near) [
        | inl left ↦ at_inner d up left
        | inr (inl right) ↦ at_last_column d (omega arith) (omega arith)
        | inr (inr middle) ↦ at_near_column d up middle
      ]
      | inr (inl down) ↦ elim (lt_cases c last) [
        | inl left ↦ at_last_row d (omega arith) left
        | inr (inl right) ↦ absurd (omega arith)
        | inr (inr middle) ↦ at_corner d (omega arith) middle
      ]
      | inr (inr level) ↦ elim (lt_cases c near) [
        | inl left ↦ at_near_row d level left
        | inr (inl right) ↦ at_last_column d (omega arith) (omega arith)
        | inr (inr middle) ↦ at_near_corner d level middle
      ]
    ]

    naive_at_place : (d : Image) → at (naive_motion dim src d) ≡ goal
    unfolding naive_motion
    naive_at_place d =
        pairs-Sets at goal dim r c _ hr hc (write-same (ridx r c dim) goal)
          (λ x y u v d h. elim (ℕ_discrete (ridx x y dim) (ridx r c dim)) [
            | yes e ↦
                let (p, q) = ridx-inj x y r c dim v hc e in
                rw (p, q) (write-same (ridx r c dim) goal d)
            | no other ↦
                write-other (ridx x y dim) (ridx r c dim) (weighted_combo dim x y src) d
                  (λ e. other (sym e))
                ∙ h
          ])
          d

  -- A place that no pixel has.
  module _ (a : ℕ) (miss : (x y : ℕ) → x < dim → y < dim → ridx x y dim ≢ a) where
    away :
        (v : Pixel) (i j : ℕ) (f : (Pixel → ℕ) → ℕ)
        → i < dim
        → j < dim
        → Keeps (read a v) v (shade (ridx i j dim) f)
    away v i j f u w = apart-Keeps a v i j f (λ e. miss i j u w (sym e))

    motion_misses : (d : Image) → motion dim src d a ≡ d a
    motion_misses d =
        let v = d a in
        ap (λ f. f a) (motion_lem d)
        ∙ away v near near _ (omega arith) (omega arith) _ (
            each-Keeps (read a v) v 0 near _ (λ i _ l. away v near i _ (omega arith) (omega arith))
              _
              (each-Keeps (read a v) v 0 near _
                (λ i _ l. away v i near _ (omega arith) (omega arith)) _
                (each-Keeps (read a v) v 0 last _
                  (λ i _ l. away v last i _ (omega arith) (omega arith)) _
                  (each-Keeps (read a v) v 0 last _
                    (λ i _ l. away v i last _ (omega arith) (omega arith)) _
                    (away v last last _ (omega arith) (omega arith) _ (
                      blocked-Keeps (read a v) v near _
                        (λ i j l u. away v i j _ (omega arith) (omega arith)) d refl))))))

    naive_misses : (d : Image) → naive_motion dim src d a ≡ d a
    unfolding naive_motion
    naive_misses d =
        pairs-Keeps (read a (d a)) (d a) dim _
          (λ x y u v e h.
            write-other (ridx x y dim) a (weighted_combo dim x y src) e (λ q. miss x y u v (sym q))
            ∙ h)
          d refl

  same : (d : Image) → motion dim src d ≡ naive_motion dim src d
  same d = fun_ext λ a. elim (hit_or_miss dim (λ x y. ridx x y dim) a) [
    | inl (x, y, l, r, e) ↦
        ap (motion dim src d) (sym e)
        ∙ at_place x y l r d
        ∙ sym (naive_at_place x y l r d)
        ∙ ap (naive_motion dim src d) e
    | inr miss ↦ motion_misses a miss d ∙ sym (naive_misses a miss d)
  ]

-- For a dimension that is a positive multiple of 8, the kernel with its cases for the edges does
-- to the destination what the naive one does, whatever lies behind the source image.
pub motion-naive_motion :
    (dim : ℕ) (src dst : Image)
    → 0 < dim
    → dim % 8 ≡ 0
    → motion dim src dst ≡ naive_motion dim src dst
motion-naive_motion dim src dst l whole =
    let back : dim - 2 + 2 ≡ dim = omega arith in
    subst (λ n. motion n src dst ≡ naive_motion n src dst) back
      (same (dim - 2) src (omega arith) dst)
