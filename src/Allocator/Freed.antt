-- ===== src/Allocator/Freed.antt =====
-- `mm_free` of Malloclab/mm.c of a block that has no free neighbour and does not fill its page.
use mathlib.Core.Path.{subst}
use cs4400_fall.Prelude.{
  ℕ, ◌+◌, ◌-◌, ◌≡◌, ◌≢◌, ◌⊎◌, inl, inr, refl, sym, ap, ◌∙◌, true, false, List, ◌∷◌, some, arith,
}
use cs4400_fall.Allocator.Memory.{Ptr, Cells, Heap}
use cs4400_fall.Allocator.Tags.{overhead, pack, header}
use cs4400_fall.Allocator.Blocks.{Pages, mm_free, prev_allocated, next_allocated, fills_page}
use cs4400_fall.Allocator.Extend.{with_block}
use cs4400_fall.Allocator.Invariant.{Layout, Within, Blocks, IsHeap, other_links, layout_ne}
use cs4400_fall.Allocator.Neighbours.{
  prev_allocated-prologue, prev_allocated-block, next_allocated-end, next_allocated-block,
  fills_page-before, fills_page-behind,
}
use cs4400_fall.Allocator.Writes.{tagged-head, tagged-other, OffLinks}
use cs4400_fall.Allocator.Free.{
  c₁, c₂, kept, added_run, coalesce-run, free_run, freed-Blocks, freed-Lists,
}

-- What stands before and behind a block: a block in use, or the prologue and the terminator.
abbrev pub UsedBefore : Layout → ℕ → Type 0
UsedBefore g x = (y : ℕ) × (t : ℕ) × (g y ≡ some (t, true)) × (y + t ≡ x)

abbrev pub UsedBehind : Layout → ℕ → ℕ → Type 0
UsedBehind g x s = (r : ℕ) × (g (x + s) ≡ some (r, true))

abbrev pub AfterPrologue : Cells → ℕ → Type 0
AfterPrologue c x =
    (c (header x - 4) ≡ some (pack 8 true)) × (c (header x - overhead) ≡ some (pack 8 true))

abbrev pub AtEnd : Cells → ℕ → ℕ → Type 0
AtEnd c x s = c (x + s - 4) ≡ some (pack 0 true)

module _ (h : Heap) (g : Layout) (fs : List Ptr) (x s : ℕ) (ok : IsHeap h g fs)
    (at : g x ≡ some (s, true)) where
  used_not_free : (q r : ℕ) → g q ≡ some (r, false) → q ≢ x
  used_not_free q r e f = let same : g q ≡ some (s, true) = ap g f ∙ at in absurd (ground arith)

  -- The places of the prologue and of the terminator are off the links and the tags.
  edge_kept :
      (a : ℕ)
      → (a ≡ header x - 4) ⊎ (a ≡ header x - overhead) ⊎ (a ≡ x + s - 4)
      → (c₁ h g fs x s ok at a ≡ h.cell a) × (c₂ h g fs x s ok at a ≡ h.cell a)
  edge_kept a w =
      let b = ok.blocks.block x s true at in
      let off : OffLinks fs a = λ q k.
        let (r, e) = ok.lists.listed q k in
        let o = ok.blocks.block q r false e in
        let ne : q ≢ x = λ f. used_not_free q r e f in
        let away = ok.blocks.apart q r false x s true e at ne in
        (
          omega
              (arith, b.real, b.aligned, b.size_aligned, b.size_min, o.real, o.aligned, o.size_min),
          omega
              (arith, b.real, b.aligned, b.size_aligned, b.size_min, o.real, o.aligned, o.size_min),
        ) in
      (
        tagged-other h.cell x s false a (omega (arith, b.real, b.size_min))
            (omega (arith, b.real, b.size_min)),
        kept h g fs x s ok at a off (
          omega (arith, b.real, b.size_min),
          omega (arith, b.real, b.size_min),
          omega (arith, b.real, b.size_min),
          omega (arith, b.real, b.size_min),
        ),
      )

  before_run :
      UsedBefore g x ⊎ AfterPrologue h.cell x
      → prev_allocated x (record h { cell = c₁ h g fs x s ok at })
        ≡ some (true, record h { cell = c₁ h g fs x s ok at })
  before_run (inr (foot, head)) =
      prev_allocated-prologue (record h { cell = c₁ h g fs x s ok at }) x
        (ok.blocks.block x s true at).real ((edge_kept (header x - 4) (inl refl)).0 ∙ foot)
  before_run (inl (y, t, e, ends)) =
      let b = ok.blocks.block x s true at in
      let o = ok.blocks.block y t true e in
      let place : header x - 4 ≡ y + t - 8 = omega (arith, b.real) in
      prev_allocated-block (record h { cell = c₁ h g fs x s ok at }) x b.real y t ends o.real
        (omega (arith, b.in_reach)) o.size_aligned o.size_min o.size_max
        (tagged-other h.cell x s false (y - 4) (omega (arith, o.real, o.size_min, b.real))
            (omega (arith, o.real, o.size_min, b.real))
          ∙ o.head)
        ((edge_kept (header x - 4) (inl refl)).0 ∙ ap (λ p. h.cell p) place ∙ o.foot)

  behind_run :
      UsedBehind g x s ⊎ AtEnd h.cell x s
      → next_allocated x (x + s - 4) (record h { cell = c₁ h g fs x s ok at })
        ≡ some (true, record h { cell = c₁ h g fs x s ok at })
  behind_run (inr tag) =
      let b = ok.blocks.block x s true at in
      next_allocated-end (record h { cell = c₁ h g fs x s ok at }) x b.real (x + s - 4)
        (omega (arith, b.real)) ((edge_kept (x + s - 4) (inr (inr refl))).0 ∙ tag)
  behind_run (inl (r, e)) =
      let b = ok.blocks.block x s true at in
      let o = ok.blocks.block (x + s) r true e in
      next_allocated-block (record h { cell = c₁ h g fs x s ok at }) x b.real s r false
        b.size_aligned b.size_max b.in_reach (tagged-head h.cell x s false b.real) o.size_aligned
        o.size_min ((edge_kept (x + s - 4) (inr (inr refl))).0 ∙ o.head)

  partial_run :
      (h' : Heap)
      → h'.cell ≡ c₂ h g fs x s ok at
      → UsedBefore g x ⊎ (AfterPrologue h.cell x × UsedBehind g x s)
      → fills_page x (x + s - 4) h' ≡ some (false, h')
  partial_run h' eq (inl (y, t, e, ends)) =
      let b = ok.blocks.block x s true at in
      let o = ok.blocks.block y t true e in
      let place : header x - 4 ≡ y + t - 8 = omega (arith, b.real) in
      fills_page-before h' x (x + s - 4) t b.real o.size_aligned o.size_min (
        ap (λ (c : Cells). c (header x - 4)) eq
        ∙ (edge_kept (header x - 4) (inl refl)).1
        ∙ ap (λ p. h.cell p) place
        ∙ o.foot)
  partial_run h' eq (inr ((foot, head), (r, e))) =
      let b = ok.blocks.block x s true at in
      let o = ok.blocks.block (x + s) r true e in
      fills_page-behind h' x (x + s - 4) r b.real (omega (arith, b.real))
        (ap (λ (c : Cells). c (header x - 4)) eq ∙ (edge_kept (header x - 4) (inl refl)).1 ∙ foot)
        (ap (λ (c : Cells). c (header x - overhead)) eq
          ∙ (edge_kept (header x - overhead) (inr (inl refl))).1
          ∙ head)
        o.size_aligned o.size_min
        (ap (λ (c : Cells). c (x + s - 4)) eq ∙ (edge_kept (x + s - 4) (inr (inr refl))).1 ∙ o.head)

  -- A block in use other than the one that is freed keeps its cells.
  spared :
      (y t p : ℕ) → g y ≡ some (t, true) → y ≢ x → Within y t p → c₂ h g fs x s ok at p ≡ h.cell p
  spared y t p e ne w =
      let b = ok.blocks.block x s true at in
      let away = ok.blocks.apart y t true x s true e at ne in
      kept h g fs x s ok at p
        (λ q k.
          let (r, f) = ok.lists.listed q k in
          other_links h.cell g fs ok.blocks ok.lists q y t p true k e (layout_ne g q y r t f e) w)
        (
          omega (arith, b.real, b.size_min),
          omega (arith, b.real, b.size_min),
          omega (arith, b.real, b.size_min),
          omega (arith, b.real, b.size_min),
        )

freed_heap :
    (pages : Pages) (h : Heap) (g : Layout) (fs : List Ptr) (x s : ℕ) (ok : IsHeap h g fs)
    (at : g x ≡ some (s, true))
    → UsedBefore g x ⊎ AfterPrologue h.cell x
    → UsedBehind g x s ⊎ AtEnd h.cell x s
    → UsedBefore g x ⊎ (AfterPrologue h.cell x × UsedBehind g x s)
    → (h' : Heap) × (mm_free pages x h ≡ some (tt, h'))
      × IsHeap h' (with_block g x s) (x ∷ fs)
      × ((y t p : ℕ) → g y ≡ some (t, true) → y ≢ x → Within y t p → h'.cell p ≡ h.cell p)
freed_heap pages h g fs x s ok at before behind partial =
    let (h', run, list, eq) = added_run h g fs x s ok at in
    let merged =
      coalesce-run h g fs x s ok at h' run (before_run h g fs x s ok at before)
        (behind_run h g fs x s ok at behind) in
    (
      h',
      free_run h g fs x s ok at pages h' merged eq (partial_run h g fs x s ok at h' eq partial),
      record {
        blocks =
            subst (λ (c : Cells). Blocks c (with_block g x s)) (sym eq)
              (freed-Blocks h g fs x s ok at);
        lists = freed-Lists h g fs x s ok at;
        list = list;
      },
      λ y t p e ne w. ap (λ (c : Cells). c p) eq ∙ spared h g fs x s ok at y t p e ne w,
    )

-- On a heap in order, `mm_free` of a block in use runs without a fault if what stands before it
-- and behind it is in use, a block or an edge of the page, and not both are edges. Then the heap
-- is in order again, with the block free and in front of the free list; nothing is merged, no page
-- is given back, and no cell of another block in use is written.
pub mm_free-IsHeap :
    (pages : Pages) (h : Heap) (g : Layout) (fs : List Ptr) (x s : ℕ)
    → IsHeap h g fs
    → g x ≡ some (s, true)
    → (UsedBefore g x × (UsedBehind g x s ⊎ AtEnd h.cell x s))
      ⊎ (AfterPrologue h.cell x × UsedBehind g x s)
    → (h' : Heap) × (mm_free pages x h ≡ some (tt, h'))
      × IsHeap h' (with_block g x s) (x ∷ fs)
      × ((y t p : ℕ) → g y ≡ some (t, true) → y ≢ x → Within y t p → h'.cell p ≡ h.cell p)
mm_free-IsHeap pages h g fs x s ok at (inl (before, behind)) =
    freed_heap pages h g fs x s ok at (inl before) behind (inl before)
mm_free-IsHeap pages h g fs x s ok at (inr (before, behind)) =
    freed_heap pages h g fs x s ok at (inr before) (inl behind) (inr (before, behind))
