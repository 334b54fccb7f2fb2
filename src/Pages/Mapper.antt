-- ===== src/Pages/Mapper.antt =====
-- Malloclab/memlib.c: the calls of mmap and munmap, with the pages and their number kept. The
-- kernel is a parameter: a state, and what each call returns and leaves; `none` is MAP_FAILED. The
-- counter of the calls and the number of pages are taken not to overflow, that number stops at 0,
-- and an abort is a none.
use Prim.Native.Nat.{bit_and}
use cs4400_fall.Prelude.{
  ℕ, zero, suc, ◌+◌, ◌-◌, ◌*◌, ◌/◌, ◌%◌, ◌^◌, ◌<◌, ◌≤◌, ◌≡◌, refl, Bool, true, false, not, ltb,
  List, [], ◌∷◌, Option, none, some, ◌==◌, if◌then◌else◌, ◌>>=◌, arith,
}
use cs4400_fall.Allocator.FreeList.Chain.{has}
use cs4400_fall.Pages.{Pagemap, pagemap_modify, pagemap_is_mapped, pagemap_for_each}
use cs4400_fall.Pages.Links.{IsPages}
use cs4400_fall.Pages.Mapping.{pagemap_modify-IsPages}

pub record Memory : Type 0 where
  pub activity_counter : ℕ
  pub page_count : ℕ
  pub pages : Pagemap

abbrev pub page_size : ℕ
page_size = 4096

-- A product of two `int`s, taken to wrap around, that becomes a `size_t`: a negative one is
-- extended by its sign.
unfoldable pub mem_heapsize : Memory → ℕ
mem_heapsize m =
    let product = page_size * m.page_count % 2 ^ 32 in
    if ltb product (2 ^ 31) then product else product + (2 ^ 64 - 2 ^ 32)

-- The loop of `mem_map`, with the pages that are left.
unfoldable pub map_pages : ℕ → ℕ → Memory → Option Memory
map_pages zero p m = some m
map_pages (suc n) p m = do
  pages ← pagemap_modify m.pages p true
  map_pages n (p + page_size) (record m { pages = pages; page_count = m.page_count + 1 })

-- The loop of `mem_unmap`.
unfoldable pub unmap_pages : ℕ → ℕ → Memory → Option Memory
unmap_pages zero p m = some m
unmap_pages (suc n) p m = if not (pagemap_is_mapped m.pages p) then none else do
  pages ← pagemap_modify m.pages p false
  unmap_pages n (p + page_size) (record m { pages = pages; page_count = m.page_count - 1 })

module _ {World : Type 0} (mmap : ℕ → World → Option ℕ × World)
    (munmap : ℕ → ℕ → World → Bool × World) where
  -- Now and then a page is taken that nobody uses.
  unfoldable pub stir : ℕ → World → World
  stir count w = if bit_and count (count - 1) == 0 then (mmap page_size w).1 else w

  unfoldable pub mem_map : ℕ → Memory → World → Option (ℕ × Memory × World)
  mem_map sz m w =
      let count = m.activity_counter + 1 in
      let r = mmap sz (stir count w) in
      if not (sz % page_size == 0) then none else elim r.0 [
        | none ↦ none
        | some p ↦ do
          m' ← map_pages (sz / page_size) p (record m { activity_counter = count })
          some (p, m', r.1)
      ]

  unfoldable pub mem_unmap : ℕ → ℕ → Memory → World → Option (Memory × World)
  mem_unmap p sz m w =
      if not (p % page_size == 0) then none else if not (sz % page_size == 0) then none else do
        m' ← unmap_pages (sz / page_size) p m
        let r = munmap p sz w
        if r.0 then some (m', r.1) else none

  -- The callback of `mem_reset` on each page.
  unfoldable pub unmap_all : List ℕ → World → Option World
  unmap_all [] w = some w
  unmap_all (p ∷ ps) w =
      let r = munmap p page_size w in let rest = unmap_all ps r.1 in if r.0 then rest else none

  unfoldable pub mem_reset : ℕ → Memory → World → Option (Memory × World)
  mem_reset rounds m w = do
    seen ← pagemap_for_each rounds m.pages
    w' ← unmap_all (seen.0) w
    some (record { activity_counter = 0; page_count = 0; pages = seen.1 }, w')

-- The list after `n` pages from `p` on have been put in front.
abbrev pub with_pages : ℕ → ℕ → List ℕ → List ℕ
with_pages zero p ps = ps
with_pages (suc n) p ps = with_pages n (p + page_size) (p ∷ ps)

map_pages-IsPages :
    (n p : ℕ) (m : Memory) (ps : List ℕ)
    → IsPages m.pages ps
    → 0 < p
    → p % 2 ^ 12 ≡ 0
    → ((q : ℕ) → p ≤ q → q < p + n * page_size → has q ps ≡ false)
    → (m' : Memory) × (map_pages n p m ≡ some m')
      × IsPages m'.pages (with_pages n p ps)
      × (m'.page_count ≡ m.page_count + n)
      × (m'.activity_counter ≡ m.activity_counter)
unfolding map_pages
map_pages-IsPages zero p m ps ok real low new = (m, refl, ok, omega arith, refl)
map_pages-IsPages (suc n) p m ps ok real low new =
    let (pages, run, ok') =
      pagemap_modify-IsPages m.pages ps p ok real low (new p (omega arith) (omega arith)) in
    let (m', rest, list, count, calls) =
      map_pages-IsPages n (p + page_size)
        (record m { pages = pages; page_count = m.page_count + 1 }) (p ∷ ps) ok' (omega arith)
        (omega arith) (λ q l r. ground (arith, new q (omega arith) (omega arith))) in
    (m', rw run rest, list, omega (arith, count), calls)

heapsize_small :
    (m : Memory) → page_size * m.page_count < 2 ^ 31 → mem_heapsize m ≡ page_size * m.page_count
unfolding mem_heapsize
heapsize_small m l = ground arith

-- If the kernel gives `mem_map` an aligned place of which no page is mapped, `mem_map` of whole
-- pages ends without an abort and returns the place; all of its pages are then in the list of the
-- mapped pages, in front of those that were there, and `mem_heapsize` has grown by the size. The
-- pages, with the new ones, are less than 2 GB.
pub mem_map-IsPages :
    {World : Type 0} (mmap : ℕ → World → Option ℕ × World) (munmap : ℕ → ℕ → World → Bool × World)
    (sz : ℕ) (m : Memory) (ps : List ℕ) (w : World) (p : ℕ)
    → IsPages m.pages ps
    → sz % page_size ≡ 0
    → page_size * m.page_count + sz < 2 ^ 31
    → (mmap sz (stir mmap munmap (m.activity_counter + 1) w)).0 ≡ some p
    → 0 < p
    → p % 2 ^ 12 ≡ 0
    → ((q : ℕ) → p ≤ q → q < p + sz → has q ps ≡ false)
    → (m' : Memory) × (mem_map mmap munmap sz m w
        ≡ some (p, m', (mmap sz (stir mmap munmap (m.activity_counter + 1) w)).1))
      × IsPages m'.pages (with_pages (sz / page_size) p ps)
      × (mem_heapsize m' ≡ mem_heapsize m + sz)
unfolding mem_map
mem_map-IsPages mmap munmap sz m ps w p ok whole small got real low new =
    let (m', run, list, count, _) =
      map_pages-IsPages (sz / page_size) p (record m { activity_counter = m.activity_counter + 1 })
        ps ok real low (λ q l r. new q l (omega (arith, whole))) in
    let fits : (sz % page_size == 0) ≡ true = ground arith in
    let before : mem_heapsize m ≡ page_size * m.page_count =
      heapsize_small m (omega (arith, small)) in
    let after : mem_heapsize m' ≡ page_size * m'.page_count =
      heapsize_small m' (omega (arith, small, whole, count)) in
    (m', rw (fits, got, run) refl, list, omega (arith, whole, count, before, after))
