-- ===== src/Allocator/FreeList/Add.antt =====
-- `add_to_free_list` of Malloclab/mm.c puts a block in front of the free list.
use cs4400_fall.Prelude.{
  ◌+◌, ◌%◌, ◌<◌, ◌≡◌, ◌≢◌, refl, false, List, [], ◌∷◌, some, ◌==◌, arith, if◌then◌else◌, ap, ◌∙◌,
}
use cs4400_fall.Allocator.Memory.{Ptr, null, Cells, Heap, update, Mapped, store}
use cs4400_fall.Allocator.FreeList.{add_to_free_list}
use cs4400_fall.Allocator.FreeList.Chain.{
  has, first, Chain, IsFreeList, Chain-relink, has_aligned, ne_of_has,
}

-- The links that are written.
abbrev pub added : Cells → Ptr → Ptr → Cells
added c bp list =
    if list == null
    then update (update c bp null) (bp + 8) null
    else update (update (update c (bp + 8) list) bp null) list bp

module _ (h : Heap) (bp : Ptr) (real : 0 < bp) (here : Mapped h.cell bp)
    (there : Mapped h.cell (bp + 8)) where
  pub add_to_free_list-run :
      (xs : List Ptr)
      → IsFreeList h xs
      → add_to_free_list bp h
        ≡ some (tt, record { cell = added h.cell bp h.free_list_ptr; free_list_ptr = bp })
  unfolding add_to_free_list store
  add_to_free_list-run [] f = ground arith
  add_to_free_list-run (y ∷ ys) f = ground arith

-- Other blocks keep their links, but for the back link of the block that stood in front.
added-next :
    (c : Cells) (bp y x : Ptr)
    → bp % 16 ≡ 0
    → y % 16 ≡ 0
    → x % 16 ≡ 0
    → x ≢ bp
    → added c bp y (x + 8) ≡ c (x + 8)
added-next c bp y x ab ay ax n = ground arith

added-prev :
    (c : Cells) (bp y x : Ptr) → bp % 16 ≡ 0 → x % 16 ≡ 0 → x ≢ bp → x ≢ y → added c bp y x ≡ c x
added-prev c bp y x ab ax n ny = ground arith

module _ (c : Cells) (bp : Ptr) (real : 0 < bp) (aligned : bp % 16 ≡ 0) where
  pub added-Chain :
      (xs : List Ptr)
      → Chain c null xs
      → has bp xs ≡ false
      → Chain (added c bp (first xs)) null (bp ∷ xs)
  added-Chain [] k new = ground arith
  added-Chain (y ∷ ys) k new = (
    real,
    aligned,
    ground arith,
    ground arith,
    new,
    Chain-relink c _ null bp (y ∷ ys) (λ _. ground arith)
        (λ x h.
          added-next c bp y x aligned k.1 (has_aligned c null x (y ∷ ys) k h)
            (ne_of_has x bp (y ∷ ys) h new))
        (λ x h ne.
          added-prev c bp y x aligned (has_aligned c null x (y ∷ ys) k h)
            (ne_of_has x bp (y ∷ ys) h new) ne)
        k,
  )

-- `add_to_free_list` of an aligned block that is not in the free list runs without a fault if the
-- places of its links are mapped, and leaves the free list with the block in front.
pub add_to_free_list-IsFreeList :
    (h : Heap) (bp : Ptr) (xs : List Ptr)
    → IsFreeList h xs
    → 0 < bp
    → bp % 16 ≡ 0
    → Mapped h.cell bp
    → Mapped h.cell (bp + 8)
    → has bp xs ≡ false
    → (h' : Heap) × (add_to_free_list bp h ≡ some (tt, h'))
      × IsFreeList h' (bp ∷ xs)
      × (h'.cell ≡ added h.cell bp (first xs))
add_to_free_list-IsFreeList h bp xs f real aligned here there new =
    let same = ap (λ l. added h.cell bp l) f.0 in
    (
      record { cell = added h.cell bp (first xs); free_list_ptr = bp },
      add_to_free_list-run h bp real here there xs f
          ∙ ap (λ (c : Cells). some (tt, record { cell = c; free_list_ptr = bp })) same,
      (refl, added-Chain h.cell bp real aligned xs f.1 new),
      refl,
    )
