-- ===== src/Tests/Allocator.antt =====
-- Small heaps that Malloclab/mm.c works on.
use cs4400_fall.Prelude.{
  ℕ, ◌+◌, ◌-◌, ◌%◌, ◌^◌, ◌<◌, ◌≤◌, ◌≡◌, refl, Bool, true, false, ◌&&◌, ◌||◌, List, [], ◌∷◌, none,
  some, ltb, leb, ◌==◌, arith, if◌then◌else◌,
}
use cs4400_fall.Allocator.Memory.{Ptr, null, Heap, Cmd}
use cs4400_fall.Allocator.Tags.{pack, to_int, to_size, align, max_size}
use cs4400_fall.Allocator.FreeList.{add_to_free_list, remove_from_free_list}
use cs4400_fall.Allocator.FreeList.Chain.{IsFreeList}
use cs4400_fall.Allocator.FreeList.Add.{added, add_to_free_list-IsFreeList}
use cs4400_fall.Allocator.FreeList.Remove.{unlinked}
use cs4400_fall.Allocator.FreeList.Unlink.{remove_from_free_list-IsFreeList}
use cs4400_fall.Allocator.Blocks.{
  Pages, mm_malloc, request_size, find_fit, set_allocated, extend, page_align,
}
use cs4400_fall.Allocator.Invariant.{Layout, Within, IsBlock, IsBlock-same, IsHeap}
use cs4400_fall.Allocator.Find.{first_fit, find_fit-first}
use cs4400_fall.Allocator.Allocate.{allocated, left_free, set_allocated-IsHeap}
use cs4400_fall.Allocator.Malloc.{mm_malloc-fit}
use cs4400_fall.Allocator.Extend.{IsFreshPage, with_block}
use cs4400_fall.Allocator.Grow.{page_bytes, IsServed, extend-IsHeap, mm_malloc-IsServed}

-- Pages at a fixed place.
abbrev fixed_map : ℕ → Cmd Ptr
fixed_map n h =
    some (
      65536,
      record h { cell = λ a. if leb 65536 a && ltb a (65536 + n) then some 0 else h.cell a },
    )

abbrev pages : Pages
pages = record { mem_pagesize = 4096; mem_map = fixed_map; mem_unmap = λ p n h. some (tt, h) }

abbrev nowhere : Heap
nowhere = record { cell = λ a. none; free_list_ptr = null }

abbrev no_blocks : Layout
no_blocks y = none

nowhere-IsHeap : IsHeap nowhere no_blocks []
nowhere-IsHeap = record {
  blocks = record { block = λ x s u e. ground arith; apart = λ x s u y t v e f ne. ground arith };
  lists = record { listed = λ x k. ground arith; free = λ x s e. ground arith };
  list = (refl, tt);
}

fixed-IsFreshPage :
    (n : ℕ)
    → n < 2 ^ 31
    → IsFreshPage nowhere
        (record nowhere { cell = λ a. if leb 65536 a && ltb a (65536 + n) then some 0 else none })
        65536
        n
fixed-IsFreshPage n small = record {
  real = omega arith;
  aligned = refl;
  reach = omega arith;
  mapped = λ a l r. ground arith;
  fresh = λ a l r. refl;
  same = λ a m. ground arith;
  list = refl;
}

small_page : (size : ℕ) → size ≤ 200 → page_bytes pages size < 2 ^ 31
unfolding page_align max_size
small_page size small = ground arith

small_request : request_size 100 ≤ 200
unfolding request_size to_int to_size align max_size
small_request = ground arith

mm_malloc-IsServed_example :
    (x : Ptr) × (h' : Heap) × (mm_malloc pages 0 100 nowhere ≡ some (x, h'))
    × IsServed nowhere no_blocks 100 x h'
mm_malloc-IsServed_example =
    mm_malloc-IsServed pages nowhere _ no_blocks [] 0 100 65536 refl nowhere-IsHeap (omega arith)
      (omega arith) (omega arith) refl
      (fixed-IsFreshPage (page_bytes pages (request_size 100))
        (small_page (request_size 100) small_request))

extend-IsHeap_example :
    (h' : Heap) × (extend pages 104 nowhere ≡ some (65536 + 16, h'))
    × IsHeap h' (with_block no_blocks (65536 + 16) (page_bytes pages 104 - 16)) ((65536 + 16) ∷ [])
    × (104 ≤ page_bytes pages 104 - 16)
    × ((y t : ℕ)
        → no_blocks y ≡ some (t, true)
        → (with_block no_blocks (65536 + 16) (page_bytes pages 104 - 16) y ≡ some (t, true))
          × ((a : ℕ) → Within y t a → h'.cell a ≡ nowhere.cell a))
extend-IsHeap_example =
    extend-IsHeap pages refl nowhere _ no_blocks [] 65536 104 nowhere-IsHeap (omega arith) refl
      (fixed-IsFreshPage (page_bytes pages 104) (small_page 104 (omega arith)))

-- One free block of 96 bytes at 32, and all else mapped.
abbrev one : Heap
one = record { cell = λ a. if a == 28 || a == 120 then some 96 else some 0; free_list_ptr = 32 }

abbrev one_block : Layout
one_block y = if y == 32 then some (96, false) else none

one-IsFreeList : IsFreeList one (32 ∷ [])
one-IsFreeList = (refl, (omega arith, refl, refl, refl, refl, tt))

one_only : (x s : ℕ) (u : Bool) → one_block x ≡ some (s, u) → (32 ≡ x) × (96 ≡ s) × (false ≡ u)
one_only x s u e = ground arith

one-IsBlock : IsBlock one.cell 32 96 false
unfolding pack
one-IsBlock = record {
  real = omega arith;
  aligned = refl;
  size_aligned = refl;
  size_min = omega arith;
  size_max = omega arith;
  in_reach = omega arith;
  head = refl;
  foot = refl;
  mapped = λ a w. ground arith;
}

one-IsHeap : IsHeap one one_block (32 ∷ [])
one-IsHeap = record {
  blocks = record {
    block = λ x s u e.
        let (p, q, r) = one_only x s u e in
        IsBlock-same one.cell 32 96 false x s u p q r one-IsBlock;
    apart =
        λ x s u y t v e f ne. absurd (omega (arith, (one_only x s u e).0, (one_only y t v f).0));
  };
  lists = record { listed = λ x k. (96, ground arith); free = λ x s e. ground arith };
  list = one-IsFreeList;
}

set_allocated-IsHeap_example :
    (h' : Heap) × (set_allocated 32 48 one ≡ some (tt, h'))
    × IsHeap h' (allocated one_block 32 96 48) (left_free [] 32 [] 96 48)
    × ((t : ℕ) × (allocated one_block 32 96 48 32 ≡ some (t, true)) × (48 ≤ t))
    × ((y t p : ℕ) → one_block y ≡ some (t, true) → Within y t p → h'.cell p ≡ one.cell p)
set_allocated-IsHeap_example =
    set_allocated-IsHeap one one_block [] 32 [] 96 48 one-IsHeap refl (omega arith) (omega arith)
      refl

find_fit-first_example : find_fit 1 48 32 one ≡ some (first_fit one_block 48 (32 ∷ []), one)
find_fit-first_example =
    find_fit-first one one_block one-IsHeap.blocks 48 (omega arith) null 1 (32 ∷ [])
      one-IsFreeList.1 one-IsHeap.lists.listed (omega arith)

mm_malloc-fit_example :
    (h' : Heap) × (g' : Layout) × (fs' : List Ptr) × (t : ℕ) × (mm_malloc pages 1 20 one
      ≡ some (first_fit one_block (request_size 20) (32 ∷ []), h'))
    × IsHeap h' g' fs'
    × (g' (first_fit one_block (request_size 20) (32 ∷ [])) ≡ some (t, true))
    × (20 + 8 ≤ t)
    × (first_fit one_block (request_size 20) (32 ∷ []) % 16 ≡ 0)
    × ((y r : ℕ)
        → one_block y ≡ some (r, true)
        → (g' y ≡ some (r, true)) × ((p : ℕ) → Within y r p → h'.cell p ≡ one.cell p))
unfolding request_size to_int to_size align max_size
mm_malloc-fit_example =
    mm_malloc-fit pages one one_block (32 ∷ []) 1 20 one-IsHeap (omega arith) (omega arith)
      (omega arith) (omega arith)

add_to_free_list-IsFreeList_example :
    (h' : Heap) × (add_to_free_list 256 one ≡ some (tt, h'))
    × IsFreeList h' (256 ∷ 32 ∷ [])
    × (h'.cell ≡ added one.cell 256 32)
add_to_free_list-IsFreeList_example =
    add_to_free_list-IsFreeList one 256 (32 ∷ []) one-IsFreeList (omega arith) refl refl refl refl

-- A free list of three blocks.
abbrev three : Heap
three = record {
  cell = λ a.
      if a == 40 || a == 256
      then some 128
      else if a == 128
      then some 32
      else if a == 136
      then some 256
      else some 0;
  free_list_ptr = 32;
}

remove_from_free_list-IsFreeList_example :
    (h' : Heap) × (remove_from_free_list 128 three ≡ some (tt, h'))
    × IsFreeList h' (32 ∷ 256 ∷ [])
    × (h'.cell ≡ unlinked three.cell 32 256)
remove_from_free_list-IsFreeList_example =
    remove_from_free_list-IsFreeList three (32 ∷ []) 128 (256 ∷ []) (
      refl,
      (
        omega arith,
        refl,
        refl,
        refl,
        refl,
        (omega arith, refl, refl, refl, refl, (omega arith, refl, refl, refl, refl, tt)),
      ),
    )
