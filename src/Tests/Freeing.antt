-- ===== src/Tests/Freeing.antt =====
-- A heap of Malloclab/mm.c with two blocks in use, of which the first is freed.
use cs4400_fall.Prelude.{
  ℕ, ◌≡◌, ◌≢◌, ◌⊎◌, inl, inr, refl, Bool, true, ◌||◌, [], ◌∷◌, none, some, ◌==◌, arith,
  if◌then◌else◌,
}
use cs4400_fall.Allocator.Memory.{null, Heap}
use cs4400_fall.Allocator.Tags.{pack}
use cs4400_fall.Allocator.Blocks.{Pages, mm_free}
use cs4400_fall.Allocator.Invariant.{Layout, Within, IsBlock, IsBlock-same, IsHeap}
use cs4400_fall.Allocator.Extend.{with_block}
use cs4400_fall.Allocator.Freed.{mm_free-IsHeap}

abbrev no_page : Pages
no_page = record { mem_pagesize = 4096; mem_map = λ n h. none; mem_unmap = λ p n h. none }

abbrev two : Heap
two = record {
  cell = λ a.
      if a == 28 || a == 120
      then some 97
      else if a == 124 || a == 152
      then some 33
      else if a == 20 || a == 24
      then some 9
      else some 0;
  free_list_ptr = null;
}

abbrev two_blocks : Layout
two_blocks y = if y == 32 then some (96, true) else if y == 128 then some (32, true) else none

two_only :
    (x s : ℕ) (u : Bool)
    → two_blocks x ≡ some (s, u)
    → ((32 ≡ x) × (96 ≡ s) × (true ≡ u)) ⊎ ((128 ≡ x) × (32 ≡ s) × (true ≡ u))
two_only x s u e = ground arith

first-IsBlock : IsBlock two.cell 32 96 true
unfolding pack
first-IsBlock = record {
  real = omega arith;
  aligned = refl;
  size_aligned = refl;
  size_min = omega arith;
  size_max = omega arith;
  in_reach = omega arith;
  head = refl;
  foot = refl;
  mapped = λ a w. ground arith;
}

second-IsBlock : IsBlock two.cell 128 32 true
unfolding pack
second-IsBlock = record {
  real = omega arith;
  aligned = refl;
  size_aligned = refl;
  size_min = omega arith;
  size_max = omega arith;
  in_reach = omega arith;
  head = refl;
  foot = refl;
  mapped = λ a w. ground arith;
}

IsBlock-cases :
    (x s : ℕ) (u : Bool)
    → ((32 ≡ x) × (96 ≡ s) × (true ≡ u)) ⊎ ((128 ≡ x) × (32 ≡ s) × (true ≡ u))
    → IsBlock two.cell x s u
IsBlock-cases x s u (inl (p, q, r)) = IsBlock-same two.cell 32 96 true x s u p q r first-IsBlock
IsBlock-cases x s u (inr (p, q, r)) = IsBlock-same two.cell 128 32 true x s u p q r second-IsBlock

two-IsHeap : IsHeap two two_blocks []
two-IsHeap = record {
  blocks = record {
    block = λ x s u e. IsBlock-cases x s u (two_only x s u e);
    apart =
        λ x s u y t v e f ne. let p = two_only x s u e in let q = two_only y t v f in omega arith;
  };
  lists = record { listed = λ x k. ground arith; free = λ x s e. ground arith };
  list = (refl, tt);
}

mm_free-IsHeap_example :
    (h' : Heap) × (mm_free no_page 32 two ≡ some (tt, h'))
    × IsHeap h' (with_block two_blocks 32 96) (32 ∷ [])
    × ((y t p : ℕ) → two_blocks y ≡ some (t, true) → y ≢ 32 → Within y t p → h'.cell p ≡ two.cell p)
unfolding pack
mm_free-IsHeap_example =
    mm_free-IsHeap no_page two two_blocks [] 32 96 two-IsHeap refl (inr ((refl, refl), (32, refl)))
