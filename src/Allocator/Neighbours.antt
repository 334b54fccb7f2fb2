-- ===== src/Allocator/Neighbours.antt =====
-- What `coalesce` and `mm_free` of Malloclab/mm.c read of the neighbours of a block.
use cs4400_fall.Prelude.{
  ℕ, ◌+◌, ◌-◌, ◌%◌, ◌^◌, ◌<◌, ◌≤◌, ◌≡◌, refl, ap, ◌∙◌, Bool, true, false, some, ◌==◌, arith,
}
use cs4400_fall.Allocator.Memory.{Heap, bind-run, load, load-some}
use cs4400_fall.Allocator.Tags.{
  overhead, pack, header, size_of, alloc_of, to_size, get_size, get_alloc, next_block, prev_block,
}
use cs4400_fall.Allocator.Blocks.{and_also, size_is, prev_allocated, next_allocated, fills_page}
use cs4400_fall.Allocator.Runs.{next_block-run, to_size_small}

module _ (h : Heap) where
  -- A tag whose size is a multiple of 8, such as that of a prologue.
  tag_size :
      (p s : ℕ) (u : Bool)
      → 0 < p
      → s % 8 ≡ 0
      → h.cell p ≡ some (pack s u)
      → get_size p h ≡ some (s, h)
  unfolding get_size size_of pack
  tag_size p s u real low tag =
      bind-run (load p) _ h (load-some h p (ground arith) (pack s u) tag)
        (ap (λ n. some (n, h)) (ground arith))

  tag_alloc :
      (p s : ℕ) (u : Bool)
      → 0 < p
      → s % 8 ≡ 0
      → h.cell p ≡ some (pack s u)
      → get_alloc p h ≡ some (u, h)
  unfolding get_alloc alloc_of pack
  tag_alloc p s true real low tag =
      bind-run (load p) _ h (load-some h p (ground arith) (pack s true) tag)
        (ap (λ n. some (n, h)) (ground arith))
  tag_alloc p s false real low tag =
      bind-run (load p) _ h (load-some h p (ground arith) (pack s false) tag)
        (ap (λ n. some (n, h)) (ground arith))

  -- The test that a tag is in use and has the size `n`.
  used_and_size :
      (p s n : ℕ)
      → 0 < p
      → s % 8 ≡ 0
      → h.cell p ≡ some (pack s true)
      → and_also (get_alloc p) (size_is p n) h ≡ some (s == n, h)
  used_and_size p s n real low tag =
      bind-run (get_alloc p) _ h (tag_alloc p s true real low tag)
        (bind-run (get_size p) _ h (tag_size p s true real low tag) refl)

  module _ (x : ℕ) (real : 16 ≤ x) where
    pub prev_allocated-prologue :
        h.cell (header x - 4) ≡ some (pack 8 true) → prev_allocated x h ≡ some (true, h)
    unfolding prev_allocated
    prev_allocated-prologue tag =
        bind-run (and_also (get_alloc (header x - 4)) (size_is (header x - 4) overhead)) _ h
          (used_and_size (header x - 4) 8 8 (omega arith) refl tag) refl

    pub prev_allocated-block :
        (y t : ℕ)
        → y + t ≡ x
        → 16 ≤ y
        → x < 2 ^ 48
        → t % 16 ≡ 0
        → 32 ≤ t
        → t < 2 ^ 31
        → h.cell (y - 4) ≡ some (pack t true)
        → h.cell (header x - 4) ≡ some (pack t true)
        → prev_allocated x h ≡ some (true, h)
    unfolding prev_allocated prev_block
    prev_allocated-block y t at low reach aligned least small head foot =
        let differs : (t == overhead) ≡ false = ground arith in
        let place : x - overhead ≡ header x - 4 = omega arith in
        let back : (x + 2 ^ 64 - to_size t) % 2 ^ 64 ≡ y = omega (arith, to_size_small t small) in
        bind-run (and_also (get_alloc (header x - 4)) (size_is (header x - 4) overhead)) _ h
          (used_and_size (header x - 4) t overhead (omega arith) (omega arith) foot
            ∙ ap (λ b. some (b, h)) differs)
          (bind-run (prev_block x) _ h
            (bind-run (get_size (x - overhead)) _ h
              (tag_size (x - overhead) t true (omega arith) (omega arith)
                (ap (λ p. h.cell p) place ∙ foot))
              (ap (λ p. some (p, h)) back))
            (tag_alloc (header y) t true (omega arith) (omega arith) head))

    pub next_allocated-end :
        (z : ℕ) → 0 < z → h.cell z ≡ some (pack 0 true) → next_allocated x z h ≡ some (true, h)
    unfolding next_allocated
    next_allocated-end z low tag =
        bind-run (and_also (get_alloc z) (size_is z 0)) _ h (used_and_size z 0 0 low refl tag) refl

    pub next_allocated-block :
        (s r : ℕ) (u : Bool)
        → s % 16 ≡ 0
        → s < 2 ^ 31
        → x + s < 2 ^ 48
        → h.cell (x - 4) ≡ some (pack s u)
        → r % 16 ≡ 0
        → 32 ≤ r
        → h.cell (x + s - 4) ≡ some (pack r true)
        → next_allocated x (x + s - 4) h ≡ some (true, h)
    unfolding next_allocated
    next_allocated-block s r u aligned small reach head r_aligned least tag =
        let differs : (r == 0) ≡ false = ground arith in
        bind-run (and_also (get_alloc (x + s - 4)) (size_is (x + s - 4) 0)) _ h
          (used_and_size (x + s - 4) r 0 (omega arith) (omega arith) tag
            ∙ ap (λ b. some (b, h)) differs)
          (bind-run (next_block x) _ h (next_block-run h x s u real aligned small reach head)
            (tag_alloc (header (x + s)) r true (omega arith) (omega arith) tag))

  -- The test that a block fills its page, where another block stands before it or behind it.
  pub fills_page-before :
      (x z t : ℕ)
      → 16 ≤ x
      → t % 16 ≡ 0
      → 32 ≤ t
      → h.cell (header x - 4) ≡ some (pack t true)
      → fills_page x z h ≡ some (false, h)
  unfolding fills_page
  fills_page-before x z t real aligned least tag =
      let differs : (t == overhead) ≡ false = ground arith in
      bind-run (size_is (header x - 4) overhead) _ h
        (bind-run (get_size (header x - 4)) _ h
          (tag_size (header x - 4) t true (omega arith) (omega arith) tag)
          (ap (λ b. some (b, h)) differs))
        refl

  pub fills_page-behind :
      (x z r : ℕ)
      → 16 ≤ x
      → 0 < z
      → h.cell (header x - 4) ≡ some (pack 8 true)
      → h.cell (header x - overhead) ≡ some (pack 8 true)
      → r % 16 ≡ 0
      → 32 ≤ r
      → h.cell z ≡ some (pack r true)
      → fills_page x z h ≡ some (false, h)
  unfolding fills_page
  fills_page-behind x z r real low foot head aligned least tag =
      let differs : (r == 0) ≡ false = ground arith in
      let near = header x - 4 in
      let far = header x - overhead in
      bind-run (size_is near overhead) _ h
        (bind-run (get_size near) _ h (tag_size near 8 true (omega arith) refl foot) refl)
        (bind-run (get_alloc near) _ h (tag_alloc near 8 true (omega arith) refl foot) (
          bind-run (size_is far overhead) _ h
            (bind-run (get_size far) _ h (tag_size far 8 true (omega arith) refl head) refl)
            (bind-run (get_alloc far) _ h (tag_alloc far 8 true (omega arith) refl head) (
              bind-run (get_alloc z) _ h (tag_alloc z r true low (omega arith) tag) (
                bind-run (get_size z) _ h (tag_size z r true low (omega arith) tag)
                  (ap (λ b. some (b, h)) differs))))))
