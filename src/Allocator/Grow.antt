-- ===== src/Allocator/Grow.antt =====
-- `mm_malloc` of Malloclab/mm.c in every case: a block of the free list, or a new page.
use cs4400_fall.Prelude.{
  ℕ, ◌+◌, ◌-◌, ◌*◌, ◌%◌, ◌^◌, ◌<◌, ◌≤◌, ◌≡◌, ◌≢◌, refl, ap, ◌∙◌, true, false, List, [], ◌∷◌, some,
  ◌==◌, arith, length,
}
use native.Mathlib.Decide.{ℕ_discrete}
use cs4400_fall.Allocator.Memory.{Ptr, null, Heap, bind-run, pure, ◌>>=◌, ◌>>◌}
use cs4400_fall.Allocator.Tags.{to_int, align, to_size, max_size}
use cs4400_fall.Allocator.FreeList.Chain.{has, has-append}
use cs4400_fall.Allocator.Blocks.{
  Pages, mm_malloc, request_size, find_fit, set_allocated, extend, page_align,
}
use cs4400_fall.Allocator.Invariant.{Layout, Within, IsHeap, layout_ne}
use cs4400_fall.Allocator.Runs.{to_size_small}
use cs4400_fall.Allocator.Find.{first_fit, first_fit-found, find_fit-first}
use cs4400_fall.Allocator.Allocate.{allocated, left_free, set_allocated-IsHeap}
use cs4400_fall.Allocator.Malloc.{request_size_bounds, used_stays, mm_malloc-fit}
use cs4400_fall.Allocator.Extend.{IsFreshPage, with_block, page_run}

-- The bytes that `extend` asks `mem_map` for.
abbrev pub page_bytes : Pages → ℕ → ℕ
page_bytes pages size = page_align pages (max_size pages.mem_pagesize size * 16 % 2 ^ 64)

module _ (pages : Pages) (usual : pages.mem_pagesize ≡ 4096) where
  page_bytes_bounds :
      (size : ℕ)
      → size ≤ 2 ^ 26
      → (page_bytes pages size % 16 ≡ 0)
        × (48 ≤ page_bytes pages size)
        × (size + 16 ≤ page_bytes pages size)
        × (page_bytes pages size < 2 ^ 31)
  unfolding page_align max_size
  page_bytes_bounds size small = ground (arith, usual)

  -- With pages of 4096 bytes and a heap in order, `extend` for at most 2 ^ 26 bytes runs without a
  -- fault if `mem_map` gives it a fresh page. The heap is in order with one more free block, the
  -- first of the free list, which takes all of the page but 16 bytes, and is large enough; the
  -- blocks in use stay as they are.
  pub extend-IsHeap :
      (h h₁ : Heap) (g : Layout) (fs : List Ptr) (p size : ℕ)
      → IsHeap h g fs
      → size ≤ 2 ^ 26
      → pages.mem_map (page_bytes pages size) h ≡ some (p, h₁)
      → IsFreshPage h h₁ p (page_bytes pages size)
      → (h' : Heap) × (extend pages size h ≡ some (p + 16, h'))
        × IsHeap h' (with_block g (p + 16) (page_bytes pages size - 16)) ((p + 16) ∷ fs)
        × (size ≤ page_bytes pages size - 16)
        × ((y t : ℕ)
            → g y ≡ some (t, true)
            → (with_block g (p + 16) (page_bytes pages size - 16) y ≡ some (t, true))
              × ((a : ℕ) → Within y t a → h'.cell a ≡ h.cell a))
  unfolding extend
  extend-IsHeap h h₁ g fs p size ok small got page =
      let n = page_bytes pages size in
      let (aligned, least, room, top) = page_bytes_bounds size small in
      let (h', run, heap, same) = page_run h g fs ok h₁ p n page least top aligned in
      (h', bind-run (pages.mem_map n) _ h got run, heap, omega (arith, room), same)

module _ (pages : Pages) (h : Heap) (rounds size x : ℕ) (some_size : (size == 0) ≡ false) where
  grown_run :
      (h' h'' : Heap)
      → find_fit rounds (request_size size) h.free_list_ptr h ≡ some (null, h)
      → to_size (request_size size) ≡ request_size size
      → extend pages (request_size size) h ≡ some (x, h')
      → set_allocated x (request_size size) h' ≡ some (tt, h'')
      → mm_malloc pages rounds size h ≡ some (x, h'')
  unfolding mm_malloc
  grown_run h' h'' found whole grown run =
      let hand_out : (extend pages (to_size (request_size size)) >>= λ bp.
      set_allocated bp (to_size (request_size size)) >> pure bp)
            h
          ≡ some (x, h'') =
        bind-run (extend pages (to_size (request_size size))) _ h
          (ap (λ n. extend pages n h) whole ∙ grown)
          (bind-run (set_allocated x (to_size (request_size size))) _ h'
            (ap (λ n. set_allocated x n h') whole ∙ run) refl) in
      rw some_size
        (bind-run (find_fit rounds (request_size size) h.free_list_ptr) _ h found hand_out)

-- What a request for `size` bytes promises when it returns `x`.
pub record IsServed (h : Heap) (g : Layout) (size x : ℕ) (h' : Heap) : Type 0 where
  pub layout : Layout
  pub frees : List Ptr
  pub room : ℕ
  pub heap : IsHeap h' layout frees
  pub used : layout x ≡ some (room, true)
  pub large : size + 8 ≤ room
  pub aligned : x % 16 ≡ 0
  pub unused : (r : ℕ) → g x ≢ some (r, true)
  pub others :
      (y r : ℕ)
      → g y ≡ some (r, true)
      → (layout y ≡ some (r, true)) × ((a : ℕ) → Within y r a → h'.cell a ≡ h.cell a)

request_small : (size : ℕ) → size ≤ 2 ^ 26 - 32 → request_size size ≤ 2 ^ 26
unfolding request_size to_int to_size align max_size
request_small size small = ground arith

module _ (pages : Pages) (usual : pages.mem_pagesize ≡ 4096) (h : Heap) (g : Layout) (fs : List Ptr)
    (rounds size : ℕ) (ok : IsHeap h g fs) (some_size : 0 < size) (small : size ≤ 2 ^ 26 - 32)
    (enough : length fs ≤ rounds) where
  mm_malloc-grow :
      (p : ℕ) (h₁ : Heap)
      → first_fit g (request_size size) fs ≡ null
      → pages.mem_map (page_bytes pages (request_size size)) h ≡ some (p, h₁)
      → IsFreshPage h h₁ p (page_bytes pages (request_size size))
      → (h' : Heap) × (mm_malloc pages rounds size h ≡ some (p + 16, h'))
        × IsServed h g size (p + 16) h'
  mm_malloc-grow p h₁ nothing got page =
      let n = request_size size in
      let s = page_bytes pages n - 16 in
      let (aligned, least, payload, top) = request_size_bounds size (omega arith) in
      let (h', grown, heap, room, same) =
        extend-IsHeap pages usual h h₁ g fs p n ok (request_small size small) got page in
      let at : with_block g (p + 16) s (p + 16) ≡ some (s, false) = ground arith in
      let (h'', run, heap', (t, here, large), same') =
        set_allocated-IsHeap h' (with_block g (p + 16) s) [] (p + 16) fs s n heap at room least
          aligned in
      let found =
        find_fit-first h g ok.blocks n top null rounds fs ok.list.1 ok.lists.listed enough in
      (
        h'',
        grown_run pages h rounds size (p + 16) (ground arith) h' h''
            (ap (λ l. find_fit rounds n l h) ok.list.0 ∙ found ∙ ap (λ x. some (x, h)) nothing)
            (to_size_small n top) grown run,
        record {
          layout = allocated (with_block g (p + 16) s) (p + 16) s n;
          frees = left_free [] (p + 16) fs s n;
          room = t;
          heap = heap';
          used = here;
          large = omega (arith, payload, large);
          aligned = omega (arith, page.aligned);
          unused = λ r e.
              layout_ne (with_block g (p + 16) s) (p + 16) (p + 16) s r at (same (p + 16) r e).0
                refl;
          others = λ y r e.
              let (e', keep) = same y r e in
              (
                used_stays h' (with_block g (p + 16) s) ((p + 16) ∷ fs) (p + 16) s n y r heap at
                    least e',
                λ a w. same' y r a e' w ∙ keep a w,
              );
        },
      )

  mm_malloc-found :
      first_fit g (request_size size) fs ≢ null
      → (h' : Heap) × (mm_malloc pages rounds size h
          ≡ some (first_fit g (request_size size) fs, h'))
        × IsServed h g size (first_fit g (request_size size) fs) h'
  mm_malloc-found ne =
      let x = first_fit g (request_size size) fs in
      let (h', g', fs', t, run, heap, here, large, aligned, others) =
        mm_malloc-fit pages h g fs rounds size ok some_size (omega arith) enough ne in
      let (a, b, split, _) = first_fit-found g (request_size size) fs ne in
      let (s, at) =
        ok.lists.listed x (ap (λ l. has x l) split ∙ has-append x a (x ∷ b) ∙ ground arith) in
      (
        h',
        run,
        record {
          layout = g';
          frees = fs';
          room = t;
          heap = heap;
          used = here;
          large = large;
          aligned = aligned;
          unused = λ r e. layout_ne g x x s r at e refl;
          others = others;
        },
      )

-- On a heap in order, with a round of the loop of `mm_malloc` for each free block, pages of 4096
-- bytes and a `mem_map` that has a fresh page to give, `mm_malloc` of 1 to 2 ^ 26 - 32 bytes runs
-- without a fault and serves the request: the heap is in order again, the address returned is
-- that of a block that was not in use and now is, a multiple of 16, its size leaves the bytes
-- asked for beside 8 bytes of tags, and each block that was in use still is, with the same size
-- and the same cells.
pub mm_malloc-IsServed :
    (pages : Pages) (h h₁ : Heap) (g : Layout) (fs : List Ptr) (rounds size p : ℕ)
    → pages.mem_pagesize ≡ 4096
    → IsHeap h g fs
    → 0 < size
    → size ≤ 2 ^ 26 - 32
    → length fs ≤ rounds
    → pages.mem_map (page_bytes pages (request_size size)) h ≡ some (p, h₁)
    → IsFreshPage h h₁ p (page_bytes pages (request_size size))
    → (x : Ptr) × (h' : Heap) × (mm_malloc pages rounds size h ≡ some (x, h'))
      × IsServed h g size x h'
mm_malloc-IsServed pages h h₁ g fs rounds size p usual ok some_size small enough got page =
    elim (ℕ_discrete (first_fit g (request_size size) fs) null) [
      | yes nothing ↦
          let (h', run, served) =
            mm_malloc-grow pages usual h g fs rounds size ok some_size small enough p h₁ nothing got
              page in
          (p + 16, h', run, served)
      | no ne ↦
          let (h', run, served) =
            mm_malloc-found pages usual h g fs rounds size ok some_size small enough ne in
          (first_fit g (request_size size) fs, h', run, served)
    ]
