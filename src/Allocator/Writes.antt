-- ===== src/Allocator/Writes.antt =====
-- The writes that the operations of Malloclab/mm.c make: a tag at each end of a block, and links.
use cs4400_fall.Prelude.{
  ℕ, ◌+◌, ◌-◌, ◌%◌, ◌^◌, ◌<◌, ◌≤◌, ◌≡◌, ◌≢◌, ◌∙◌, Bool, true, List, [], ◌∷◌, ◌++◌, Option, some,
  arith,
}
use cs4400_fall.Allocator.Memory.{
  Ptr, null, Cells, Heap, Cmd, update, Mapped, Mapped-update, bind-run, ◌>>=◌, ◌>>◌,
}
use cs4400_fall.Allocator.Tags.{pack, put, header, footer}
use cs4400_fall.Allocator.FreeList.Chain.{has, first, last_of, has-append}
use cs4400_fall.Allocator.FreeList.Add.{added}
use cs4400_fall.Allocator.FreeList.Remove.{unlinked}
use cs4400_fall.Allocator.FreeList.Unlink.{first_mem, last_mem}
use cs4400_fall.Allocator.Runs.{put-run, footer-run}

abbrev pub tagged : Cells → Ptr → ℕ → Bool → Cells
tagged c x s u = update (update c (x - 4) (pack s u)) (x + s - 8) (pack s u)

module _ (h : Heap) (x s : ℕ) (u : Bool) (real : 16 ≤ x) (aligned : s % 16 ≡ 0) (small : s < 2 ^ 31)
    (reach : x + s < 2 ^ 48) (head : Mapped h.cell (x - 4)) (foot : Mapped h.cell (x + s - 8)) where
  -- Both tags of a block are written by the header, which tells where the footer is.
  pub tags-run :
      {B : Type 0} (k : Cmd B) {r : Option (B × Heap)}
      → k (record h { cell = tagged h.cell x s u }) ≡ r
      → (put (header x) (pack s u) >> (footer x >>= λ f. put f (pack s u) >> k)) h ≡ r
  tags-run k e =
      let c₁ = update h.cell (x - 4) (pack s u) in
      bind-run (put (header x) (pack s u)) _ h (put-run h (x - 4) s u (omega arith) small head) (
        bind-run (footer x) _ (record h { cell = c₁ })
          (footer-run (record h { cell = c₁ }) x s u real aligned small reach (ground arith))
          (bind-run (put (x + s - 8) (pack s u)) _ (record h { cell = c₁ })
            (put-run (record h { cell = c₁ }) (x + s - 8) s u (omega arith) small
              (Mapped-update h.cell (x - 4) (pack s u) (x + s - 8) foot))
            e))

module _ (c : Cells) (x s : ℕ) (u : Bool) where
  pub tagged-head : 16 ≤ x → tagged c x s u (x - 4) ≡ some (pack s u)
  tagged-head real = ground arith

  pub tagged-foot : tagged c x s u (x + s - 8) ≡ some (pack s u)
  tagged-foot = ground arith

  pub tagged-other : (a : Ptr) → a ≢ x - 4 → a ≢ x + s - 8 → tagged c x s u a ≡ c a
  tagged-other a n m = ground arith

  pub Mapped-tagged : (a : Ptr) → Mapped c a → Mapped (tagged c x s u) a
  Mapped-tagged a m = ground arith

-- Places that no link of a list lies at.
abbrev pub OffLinks : List Ptr → Ptr → Type 0
OffLinks fs a = (q : Ptr) → has q fs ≡ true → (a ≢ q) × (a ≢ q + 8)

module _ (c : Cells) (p n a : Ptr) where
  unlinked-off : (p ≢ null → a ≢ p + 8) → (n ≢ null → a ≢ n) → unlinked c p n a ≡ c a
  unlinked-off off_p off_n = ground arith

pub Mapped-unlinked : (c : Cells) (p n a : Ptr) → Mapped c a → Mapped (unlinked c p n) a
Mapped-unlinked c p n a m = ground arith

pub unlinked-other :
    (c : Cells) (xs ys : List Ptr) (x a : Ptr)
    → OffLinks (xs ++ x ∷ ys) a
    → unlinked c (last_of null xs) (first ys) a ≡ c a
unlinked-other c xs ys x a off =
    unlinked-off c (last_of null xs) (first ys) a
      (λ q. (off (last_of null xs) (last_mem xs (x ∷ ys) q)).1)
      (λ q. (off (first ys) (has-append (first ys) xs (x ∷ ys) ∙ ground (arith, first_mem ys q))).0)

-- The links of a block that is added lie in it.
pub added-other :
    (c : Cells) (fs : List Ptr) (x a : Ptr)
    → OffLinks fs a
    → a ≢ x
    → a ≢ x + 8
    → added c x (first fs) a ≡ c a
added-other c [] x a off n m = ground arith
added-other c (y ∷ ys) x a off n m = ground (arith, (off y (ground arith)).0)

pub Mapped-added : (c : Cells) (x y a : Ptr) → Mapped c a → Mapped (added c x y) a
Mapped-added c x y a m = ground arith
