-- ===== src/Allocator/Take.antt =====
-- The branch of `set_allocated` of Malloclab/mm.c that hands out a whole free block.
use cs4400_fall.Prelude.{
  ℕ, ◌+◌, ◌-◌, ◌≡◌, ◌≢◌, ◌⊎◌, inl, inr, sym, ◌∙◌, Bool, true, false, List, ◌∷◌, ◌++◌, some, ◌==◌,
  arith, if◌then◌else◌,
}
use native.Mathlib.Decide.{ℕ_discrete}
use cs4400_fall.Allocator.Memory.{Ptr, null, Heap}
use cs4400_fall.Allocator.Tags.{pack}
use cs4400_fall.Allocator.FreeList.Chain.{has}
use cs4400_fall.Allocator.Blocks.{take_block}
use cs4400_fall.Allocator.Invariant.{Layout, IsBlock, IsBlock-same, Blocks, Lists, IsHeap, Local}
use cs4400_fall.Allocator.Refine.{Blocks-refine}
use cs4400_fall.Allocator.Claim.{claim-run, has-middle, has-rest}

-- The blocks after the block at `x` has been handed out.
abbrev pub taken : Layout → Ptr → ℕ → Layout
taken g x s y = if y == x then some (s, true) else g y

module _ (h : Heap) (g : Layout) (a : List Ptr) (x : Ptr) (b : List Ptr) (s : ℕ)
    (ok : IsHeap h g (a ++ x ∷ b)) (at : g x ≡ some (s, false)) where
  out : has x (a ++ b) ≡ false
  out = has-rest h.cell null x a b ok.list.1

  taken-Lists : Lists (taken g x s) (a ++ b)
  taken-Lists = record {
    listed = λ y k.
        let (t, e) = ok.lists.listed y (ground (arith, has-middle y x a b)) in
        (t, ground (arith, out));
    free = λ y t e. ground (arith, has-middle y x a b, ok.lists.free y t);
  }

  module _ (h' : Heap) (k : Local h.cell h'.cell x s (a ++ x ∷ b))
      (head : h'.cell (x - 4) ≡ some (pack s true))
      (foot : h'.cell (x + s - 8) ≡ some (pack s true)) where
    taken-IsBlock : IsBlock h'.cell x s true
    taken-IsBlock =
        let o = ok.blocks.block x s false at in
        record {
          real = o.real;
          aligned = o.aligned;
          size_aligned = o.size_aligned;
          size_min = o.size_min;
          size_max = o.size_max;
          in_reach = o.in_reach;
          head = head;
          foot = foot;
          mapped = λ p w. k.maps p (o.mapped p w);
        }

    taken_cover :
        (y t : ℕ) (u : Bool)
        → taken g x s y ≡ some (t, u)
        → (((x ≡ y) × (s ≡ t)) × IsBlock h'.cell y t u) ⊎ ((x ≢ y) × (g y ≡ some (t, u)))
    taken_cover y t u e = elim (ℕ_discrete x y) [
      | no n ↦ inr (n, ground arith)
      | yes p ↦
          let same : (s ≡ t) × (true ≡ u) = ground arith in
          inl ((p, same.0), IsBlock-same h'.cell x s true y t u p same.0 same.1 taken-IsBlock)
    ]

    taken-Blocks : Blocks h'.cell (taken g x s)
    taken-Blocks =
        Blocks-refine h.cell h'.cell g (taken g x s) (a ++ x ∷ b) ok.blocks ok.lists x s at k
          (λ y t. (x ≡ y) × (s ≡ t)) (λ y t p. omega (arith, p.0, p.1))
          (λ y t z r p q n. absurd (n (sym p.0 ∙ q.0))) taken_cover

  -- The run of the branch.
  pub take_block-IsHeap :
      (h' : Heap) × (take_block x s h ≡ some (tt, h'))
      × IsHeap h' (taken g x s) (a ++ b)
      × Local h.cell h'.cell x s (a ++ x ∷ b)
  unfolding take_block
  take_block-IsHeap =
      let o = ok.blocks.block x s false at in
      let (h', run, list, k, head, foot) =
        claim-run h g a x b s ok at s (omega arith) o.size_min o.size_aligned in
      (
        h',
        run,
        record { blocks = taken-Blocks h' k head foot; lists = taken-Lists; list = list },
        k,
      )
