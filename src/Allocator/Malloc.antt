-- ===== src/Allocator/Malloc.antt =====
-- `mm_malloc` of Malloclab/mm.c when the free list has a block that is large enough.
use cs4400_fall.Prelude.{
  ℕ, ◌+◌, ◌%◌, ◌^◌, ◌<◌, ◌≤◌, ◌≡◌, ◌≢◌, refl, ap, ◌∙◌, true, false, List, ◌∷◌, ◌++◌, some, ◌==◌,
  arith, length,
}
use mathlib.Core.Path.{subst}
use cs4400_fall.Allocator.Memory.{Ptr, null, Heap, bind-run, pure, ◌>>◌}
use cs4400_fall.Allocator.Tags.{to_int, to_size, align, max_size}
use cs4400_fall.Allocator.FreeList.Chain.{has, has-append}
use cs4400_fall.Allocator.Blocks.{Pages, mm_malloc, request_size, find_fit, set_allocated}
use cs4400_fall.Allocator.Invariant.{Layout, Within, IsHeap, layout_ne}
use cs4400_fall.Allocator.Runs.{to_size_small}
use cs4400_fall.Allocator.Find.{first_fit, find_fit-first, first_fit-found, size_at}
use cs4400_fall.Allocator.Allocate.{allocated, left_free, set_allocated-IsHeap}

-- A request is rounded to whole blocks, and leaves place for the tags.
pub request_size_bounds :
    (size : ℕ)
    → size ≤ 2 ^ 30
    → (request_size size % 16 ≡ 0)
      × (32 ≤ request_size size)
      × (size + 8 ≤ request_size size)
      × (request_size size < 2 ^ 31)
unfolding request_size to_int to_size align max_size
request_size_bounds size small = ground arith

size_at-some : (g : Layout) (x s : ℕ) → g x ≡ some (s, false) → size_at g x ≡ s
size_at-some g x s e = rw (e, size_at) refl

pub used_stays :
    (h : Heap) (g : Layout) (fs : List Ptr) (x s n y t : ℕ)
    → IsHeap h g fs
    → g x ≡ some (s, false)
    → 32 ≤ n
    → g y ≡ some (t, true)
    → allocated g x s n y ≡ some (t, true)
used_stays h g fs x s n y t ok at least e =
    let ne = layout_ne g x y s t at e in
    let away = ok.blocks.apart x s false y t true at e ne in
    let o = ok.blocks.block y t true e in ground (arith, o.size_min)

module _ (pages : Pages) (h : Heap) (rounds size x : ℕ) (some_size : (size == 0) ≡ false) where
  found_run :
      (h' : Heap)
      → find_fit rounds (request_size size) h.free_list_ptr h ≡ some (x, h)
      → (x == null) ≡ false
      → to_size (request_size size) ≡ request_size size
      → set_allocated x (request_size size) h ≡ some (tt, h')
      → mm_malloc pages rounds size h ≡ some (x, h')
  unfolding mm_malloc
  found_run h' found real whole run =
      let hand_out : (set_allocated x (to_size (request_size size)) >> pure x) h ≡ some (x, h') =
        bind-run (set_allocated x (to_size (request_size size))) _ h
          (ap (λ n. set_allocated x n h) whole ∙ run) refl in
      rw some_size (
        bind-run (find_fit rounds (request_size size) h.free_list_ptr) _ h found (rw real hand_out))

-- On a heap in order, with a round of its loop for each free block, `mm_malloc` of 1 to 2 ^ 30
-- bytes that fit in a free block runs without a fault, and returns the first free block that is
-- large enough. Then the heap is in order again; the block is in use, its address is a multiple
-- of 16, and its size leaves the bytes asked for beside 8 bytes of tags. Each block that was in
-- use still is, with the same size, and none of its cells is written.
pub mm_malloc-fit :
    (pages : Pages) (h : Heap) (g : Layout) (fs : List Ptr) (rounds size : ℕ)
    → IsHeap h g fs
    → 0 < size
    → size ≤ 2 ^ 30
    → length fs ≤ rounds
    → first_fit g (request_size size) fs ≢ null
    → (h' : Heap) × (g' : Layout) × (fs' : List Ptr) × (t : ℕ) × (mm_malloc pages rounds size h
        ≡ some (first_fit g (request_size size) fs, h'))
      × IsHeap h' g' fs'
      × (g' (first_fit g (request_size size) fs) ≡ some (t, true))
      × (size + 8 ≤ t)
      × (first_fit g (request_size size) fs % 16 ≡ 0)
      × ((y r : ℕ)
          → g y ≡ some (r, true)
          → (g' y ≡ some (r, true)) × ((p : ℕ) → Within y r p → h'.cell p ≡ h.cell p))
mm_malloc-fit pages h g fs rounds size ok some_size small enough ne =
    let n = request_size size in
    let x = first_fit g n fs in
    let (aligned, least, payload, top) = request_size_bounds size small in
    let (a, b, split, room) = first_fit-found g n fs ne in
    let ok' : IsHeap h g (a ++ x ∷ b) = subst (λ l. IsHeap h g l) split ok in
    let (s, at) =
      ok.lists.listed x (ap (λ l. has x l) split ∙ has-append x a (x ∷ b) ∙ ground arith) in
    let fits : n ≤ s = omega (arith, size_at-some g x s at, room) in
    let o = ok.blocks.block x s false at in
    let (h', run, heap, (t, here, large), same) =
      set_allocated-IsHeap h g a x b s n ok' at fits least aligned in
    let found =
      find_fit-first h g ok.blocks n top null rounds fs ok.list.1 ok.lists.listed enough in
    (
      h',
      allocated g x s n,
      left_free a x b s n,
      t,
      found_run pages h rounds size x (ground arith) h'
          (ap (λ l. find_fit rounds n l h) ok.list.0 ∙ found) (ground (arith, o.real))
          (to_size_small n top) run,
      heap,
      here,
      omega (arith, payload, large),
      o.aligned,
      λ y r e. (used_stays h g fs x s n y r ok at least e, λ p w. same y r p e w),
    )
