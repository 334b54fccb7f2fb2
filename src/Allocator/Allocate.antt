-- ===== src/Allocator/Allocate.antt =====
-- `set_allocated` of Malloclab/mm.c hands a free block out and keeps the heap in order.
use cs4400_fall.Prelude.{
  ℕ, ◌+◌, ◌-◌, ◌%◌, ◌^◌, ◌<◌, ◌≤◌, ◌≡◌, ap, ◌∙◌, true, false, List, ◌∷◌, ◌++◌, some, ltb, arith,
  if◌then◌else◌, Bool-cases, inl, inr,
}
use cs4400_fall.Allocator.Memory.{Ptr, Heap, bind-run}
use cs4400_fall.Allocator.Tags.{header, get_size, align}
use cs4400_fall.Allocator.Blocks.{set_allocated, split_block, take_block}
use cs4400_fall.Allocator.Invariant.{Layout, Within, IsHeap, Local, used_spared}
use cs4400_fall.Allocator.Runs.{get_size-run, to_size_small}
use cs4400_fall.Allocator.Take.{taken, take_block-IsHeap}
use cs4400_fall.Allocator.Split.{cut, split_block-IsHeap}

-- What becomes of the blocks and of the free list when `n` bytes of the free block at `x`, which
-- has `s`, are asked for: a rest of more than 16 bytes becomes a free block.
abbrev pub allocated : Layout → Ptr → ℕ → ℕ → Layout
allocated g x s n = if ltb 16 (s - n) then cut g x n (s - n) else taken g x s

abbrev pub left_free : List Ptr → Ptr → List Ptr → ℕ → ℕ → List Ptr
left_free a x b s n = if ltb 16 (s - n) then (x + n) ∷ a ++ b else a ++ b

branch_run :
    (h : Heap) (x s n : ℕ)
    → n ≤ s
    → s < 2 ^ 31
    → get_size (header x) h ≡ some (s, h)
    → set_allocated x n h ≡ (if ltb 16 (s - n) then split_block x n (s - n) else take_block x s) h
unfolding set_allocated align
branch_run h x s n fits small run = bind-run (get_size (header x)) _ h run (
    rw (to_size_small s small)
      (ap (λ e. (if ltb 16 e then split_block x n e else take_block x s) h) (omega arith)))

allocated_here :
    (g : Layout) (x s n : ℕ) → n ≤ s → (t : ℕ) × (allocated g x s n x ≡ some (t, true)) × (n ≤ t)
allocated_here g x s n fits = elim (Bool-cases (ltb 16 (s - n))) [
  | inl more ↦ (n, ground arith, omega arith)
  | inr none_left ↦ (s, ground arith, fits)
]

-- On a heap in order, `set_allocated` of a free block that is large enough for `n` bytes, tags
-- included, runs without a fault. The heap is in order again, the block is in use with at least
-- `n` bytes, a rest of more than 16 bytes is a free block in front of the free list, and no cell
-- of a block that was in use is written.
pub set_allocated-IsHeap :
    (h : Heap) (g : Layout) (a : List Ptr) (x : Ptr) (b : List Ptr) (s n : ℕ)
    → IsHeap h g (a ++ x ∷ b)
    → g x ≡ some (s, false)
    → n ≤ s
    → 32 ≤ n
    → n % 16 ≡ 0
    → (h' : Heap) × (set_allocated x n h ≡ some (tt, h'))
      × IsHeap h' (allocated g x s n) (left_free a x b s n)
      × ((t : ℕ) × (allocated g x s n x ≡ some (t, true)) × (n ≤ t))
      × ((y t p : ℕ) → g y ≡ some (t, true) → Within y t p → h'.cell p ≡ h.cell p)
set_allocated-IsHeap h g a x b s n ok at fits least aligned =
    let o = ok.blocks.block x s false at in
    let step =
      branch_run h x s n fits o.size_max
        (get_size-run h (x - 4) s false (omega (arith, o.real)) o.size_aligned o.head) in
    let here = allocated_here g x s n fits in
    let keeps : (h' : Heap)
        → Local h.cell h'.cell x s (a ++ x ∷ b)
        → (y t p : ℕ) → g y ≡ some (t, true)
        → Within y t p
        → h'.cell p ≡ h.cell p =
      λ h' k y t p e w.
        k.same p (used_spared h.cell g (a ++ x ∷ b) ok.blocks ok.lists x s at y t p e w) in
    elim (Bool-cases (ltb 16 (s - n))) [
      | inl more ↦
          let (h', run, heap, k) =
            split_block-IsHeap h g a x b s ok at n (s - n) (omega arith) least aligned
              (ground (arith, o.size_aligned)) (omega (arith, o.size_aligned)) in
          (h', step ∙ rw more run, rw more heap, here, keeps h' k)
      | inr none_left ↦
          let (h', run, heap, k) = take_block-IsHeap h g a x b s ok at in
          (h', step ∙ rw none_left run, rw none_left heap, here, keeps h' k)
    ]
