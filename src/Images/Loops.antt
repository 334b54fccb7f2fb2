-- ===== src/Images/Loops.antt =====
-- Counting loops over a state, and the loop nests of Performancelab/kernels.c.
use mathlib.Core.Path.{subst}
use cs4400_fall.Prelude.{ℕ, zero, suc, ◌+◌, ◌-◌, ◌*◌, ◌/◌, ◌<◌, ◌≤◌, ◌≡◌, arith}

-- `for (k = i; ...; k += step)`, by the number of rounds.
unfoldable pub for {ℓ} : {S : Type ℓ} → ℕ → ℕ → ℕ → (ℕ → S → S) → S → S
for zero i step body s = s
for (suc n) i step body s = for n (i + step) step body (body i s)

-- How often `for (k = lo; k < hi; k += step)` runs.
abbrev pub rounds : ℕ → ℕ → ℕ → ℕ
rounds lo hi step = (hi - lo + (step - 1)) / step

abbrev pub for_below {ℓ} : {S : Type ℓ} → ℕ → ℕ → ℕ → (ℕ → S → S) → S → S
for_below lo hi step body = for (rounds lo hi step) lo step body

-- The nest over all pairs below `n`.
unfoldable pub pairs {ℓ} : {S : Type ℓ} → ℕ → (ℕ → ℕ → S → S) → S → S
pairs n body = for_below 0 n 1 λ i. for_below 0 n 1 λ j. body i j

-- The nest over blocks of 8 by 8, as far as `n` and to the end of the last block.
unfoldable pub blocked {ℓ} : {S : Type ℓ} → ℕ → (ℕ → ℕ → S → S) → S → S
blocked n body = for_below 0 n 8 λ i. for_below 0 n 8 λ j. for_below j (j + 8) 8 λ jj.
    for_below i (i + 8) 8
      λ ii. for_below jj (jj + 8) 1 λ jjj. for_below ii (ii + 8) 1 λ iii. body iii jjj

next_place : (i step k : ℕ) → i + suc k * step ≡ i + step + k * step
next_place i step k = grind arith

first_place : (i step : ℕ) → i + 0 * step ≡ i
first_place i step = grind arith

-- A step keeps a place that holds `v`, or makes it hold `v`.
module _ {ℓ κ} {S : Type ℓ} {A : Type κ} (read : S → A) (v : A) where
  abbrev pub Keeps : (S → S) → Type (ℓ ⊔ κ)
  Keeps f = (s : S) → read s ≡ v → read (f s) ≡ v

  abbrev pub Sets : (S → S) → Type (ℓ ⊔ κ)
  Sets f = (s : S) → read (f s) ≡ v

  pub for-Keeps :
      (n i step : ℕ) (body : ℕ → S → S)
      → ((k : ℕ) → k < n → Keeps (body (i + k * step)))
      → Keeps (for n i step body)
  unfolding for
  for-Keeps zero i step body keep s h = h
  for-Keeps (suc n) i step body keep s h =
      for-Keeps n (i + step) step body
        (λ k l. subst (λ x. Keeps (body x)) (next_place i step k) (keep (suc k) (omega arith)))
        (body i s) (subst (λ x. Keeps (body x)) (first_place i step) (keep 0 (omega arith)) s h)

  pub for-Sets :
      (n i step k : ℕ) (body : ℕ → S → S)
      → k < n
      → Sets (body (i + k * step))
      → ((k : ℕ) → k < n → Keeps (body (i + k * step)))
      → Sets (for n i step body)
  unfolding for
  for-Sets zero i step k body l hit keep s = absurd (omega arith)
  for-Sets (suc n) i step zero body l hit keep s =
      for-Keeps n (i + step) step body
        (λ k l. subst (λ x. Keeps (body x)) (next_place i step k) (keep (suc k) (omega arith)))
        (body i s) (subst (λ x. Sets (body x)) (first_place i step) hit s)
  for-Sets (suc n) i step (suc k) body l hit keep s =
      for-Sets n (i + step) step k body (omega arith)
        (subst (λ x. Sets (body x)) (next_place i step k) hit)
        (λ k l. subst (λ x. Keeps (body x)) (next_place i step k) (keep (suc k) (omega arith)))
        (body i s)

  -- Loops in steps of 1.
  pub each-Keeps :
      (lo hi : ℕ) (body : ℕ → S → S)
      → ((x : ℕ) → lo ≤ x → x < hi → Keeps (body x))
      → Keeps (for_below lo hi 1 body)
  each-Keeps lo hi body keep =
      for-Keeps (rounds lo hi 1) lo 1 body (λ k l. keep (lo + k * 1) (omega arith) (omega arith))

  pub each-Sets :
      (lo hi x : ℕ) (body : ℕ → S → S)
      → lo ≤ x
      → x < hi
      → Sets (body x)
      → ((x : ℕ) → lo ≤ x → x < hi → Keeps (body x))
      → Sets (for_below lo hi 1 body)
  each-Sets lo hi x body l r hit keep =
      for-Sets (rounds lo hi 1) lo 1 (x - lo) body (omega arith)
        (subst (λ y. Sets (body y)) (omega arith) hit)
        (λ k l. keep (lo + k * 1) (omega arith) (omega arith))

  -- Loops over one block of 8, and over the blocks.
  pub block-Keeps :
      (lo : ℕ) (body : ℕ → S → S) → Keeps (body lo) → Keeps (for_below lo (lo + 8) 8 body)
  block-Keeps lo body keep =
      for-Keeps (rounds lo (lo + 8) 8) lo 8 body
        (λ k l. subst (λ y. Keeps (body y)) (omega arith) keep)

  pub block-Sets :
      (lo : ℕ) (body : ℕ → S → S)
      → Sets (body lo)
      → Keeps (body lo)
      → Sets (for_below lo (lo + 8) 8 body)
  block-Sets lo body hit keep =
      for-Sets (rounds lo (lo + 8) 8) lo 8 0 body (omega arith)
        (subst (λ y. Sets (body y)) (omega arith) hit)
        (λ k l. subst (λ y. Keeps (body y)) (omega arith) keep)

  pub blocks-Keeps :
      (n : ℕ) (body : ℕ → S → S)
      → ((b : ℕ) → b < (n + 7) / 8 → Keeps (body (b * 8)))
      → Keeps (for_below 0 n 8 body)
  blocks-Keeps n body keep =
      for-Keeps (rounds 0 n 8) 0 8 body
        (λ k l. subst (λ y. Keeps (body y)) (omega arith) (keep k (omega arith)))

  pub blocks-Sets :
      (n b : ℕ) (body : ℕ → S → S)
      → b < (n + 7) / 8
      → Sets (body (b * 8))
      → ((b : ℕ) → b < (n + 7) / 8 → Keeps (body (b * 8)))
      → Sets (for_below 0 n 8 body)
  blocks-Sets n b body l hit keep =
      for-Sets (rounds 0 n 8) 0 8 b body (omega arith)
        (subst (λ y. Sets (body y)) (omega arith) hit)
        (λ k l. subst (λ y. Keeps (body y)) (omega arith) (keep k (omega arith)))

  pub pairs-Keeps :
      (n : ℕ) (body : ℕ → ℕ → S → S)
      → ((x y : ℕ) → x < n → y < n → Keeps (body x y))
      → Keeps (pairs n body)
  unfolding pairs
  pairs-Keeps n body keep = each-Keeps 0 n _ λ x _ l. each-Keeps 0 n _ λ y _ r. keep x y l r

  pub pairs-Sets :
      (n x y : ℕ) (body : ℕ → ℕ → S → S)
      → x < n
      → y < n
      → Sets (body x y)
      → ((x y : ℕ) → x < n → y < n → Keeps (body x y))
      → Sets (pairs n body)
  unfolding pairs
  pairs-Sets n x y body l r hit keep =
      each-Sets 0 n x _ (omega arith) l
        (each-Sets 0 n y _ (omega arith) r hit (λ y _ r. keep x y l r))
        (λ x _ l. each-Keeps 0 n _ λ y _ r. keep x y l r)

  pub blocked-Keeps :
      (n : ℕ) (body : ℕ → ℕ → S → S)
      → ((x y : ℕ) → x < (n + 7) / 8 * 8 → y < (n + 7) / 8 * 8 → Keeps (body x y))
      → Keeps (blocked n body)
  unfolding blocked
  blocked-Keeps n body keep = blocks-Keeps n _ λ b l. blocks-Keeps n _ λ c r.
      block-Keeps (c * 8) _ (
        block-Keeps (b * 8) _ (
          each-Keeps (c * 8) (c * 8 + 8) _ λ y _ v.
            each-Keeps (b * 8) (b * 8 + 8) _ λ x _ u. keep x y (omega arith) (omega arith)))

  pub blocked-Sets :
      (n x y : ℕ) (body : ℕ → ℕ → S → S)
      → x < (n + 7) / 8 * 8
      → y < (n + 7) / 8 * 8
      → Sets (body x y)
      → ((x y : ℕ) → x < (n + 7) / 8 * 8 → y < (n + 7) / 8 * 8 → Keeps (body x y))
      → Sets (blocked n body)
  unfolding blocked
  blocked-Sets n x y body l r hit keep =
      let inner : (b c : ℕ)
          → b < (n + 7) / 8
          → c < (n + 7) / 8
          → Keeps
              (for_below (c * 8) (c * 8 + 8) 1 λ y. for_below (b * 8) (b * 8 + 8) 1 λ x. body x y) =
        λ b c l r.
          each-Keeps (c * 8) (c * 8 + 8) _ λ y _ v.
            each-Keeps (b * 8) (b * 8 + 8) _ λ x _ u. keep x y (omega arith) (omega arith) in
      let middle : (b c : ℕ)
          → b < (n + 7) / 8
          → c < (n + 7) / 8
          → Keeps (
              for_below (c * 8) (c * 8 + 8) 8 λ jj.
                for_below (b * 8) (b * 8 + 8) 8
                  λ ii. for_below jj (jj + 8) 1 λ y. for_below ii (ii + 8) 1 λ x. body x y) =
        λ b c l r. block-Keeps (c * 8) _ (block-Keeps (b * 8) _ (inner b c l r)) in
      let b = x / 8 in
      let c = y / 8 in
      blocks-Sets n b _ (omega arith)
        (blocks-Sets n c _ (omega arith)
          (block-Sets (c * 8) _
            (block-Sets (b * 8) _
              (each-Sets (c * 8) (c * 8 + 8) y _ (omega arith) (omega arith)
                (each-Sets (b * 8) (b * 8 + 8) x _ (omega arith) (omega arith) hit
                  (λ x _ u. keep x y (omega arith) r))
                (λ y _ v.
                  each-Keeps (b * 8) (b * 8 + 8) _ λ x _ u. keep x y (omega arith) (omega arith)))
              (inner b c (omega arith) (omega arith)))
            (block-Keeps (b * 8) _ (inner b c (omega arith) (omega arith))))
          (λ c r. middle b c (omega arith) r))
        (λ b l. blocks-Keeps n _ λ c r. middle b c l r)
