-- ===== src/Tests/Pages.antt =====
-- A page map of Malloclab/pagemap.c with two pages.
use cs4400_fall.Prelude.{ℕ, ◌+◌, Bool, Option, ◌≡◌, refl, true, [], ◌∷◌, none, some, arith}
use cs4400_fall.Pages.{Pagemap, page_at, pagemap_modify, pagemap_is_mapped}
use cs4400_fall.Pages.Links.{IsPages, pagemap_is_mapped-has}
use cs4400_fall.Pages.Mapper.{Memory, mem_map, stir, with_pages, mem_heapsize, mem_map-IsPages}
use cs4400_fall.Pages.Mapping.{pagemap_modify-IsPages}

abbrev no_pages : Pagemap
no_pages = record { all_mapped_pages = none; page_maps1 = none }

no_pages-IsPages : IsPages no_pages []
unfolding page_at
no_pages-IsPages = record { head = refl; linked = tt; others = λ q low h. refl }

pagemap_modify-IsPages_example :
    (m' : Pagemap) × (pagemap_modify no_pages 8192 true ≡ some m') × IsPages m' (8192 ∷ [])
pagemap_modify-IsPages_example =
    pagemap_modify-IsPages no_pages [] 8192 no_pages-IsPages (omega arith) refl refl

one_made : (m' : Pagemap) × (pagemap_modify no_pages 8192 true ≡ some m') × IsPages m' (8192 ∷ [])
one_made = pagemap_modify-IsPages no_pages [] 8192 no_pages-IsPages (omega arith) refl refl

abbrev one_page : Pagemap
one_page = one_made.0

pagemap_is_mapped-has_example : pagemap_is_mapped one_page 8192 ≡ true
pagemap_is_mapped-has_example = pagemap_is_mapped-has one_page (8192 ∷ []) 8192 one_made.2 refl

-- A kernel that maps at one place.
abbrev one_place : ℕ → ℕ → Option ℕ × ℕ
one_place n calls = (some 65536, calls + 1)

abbrev willing : ℕ → ℕ → ℕ → Bool × ℕ
willing p n calls = (true, calls + 1)

abbrev fresh : Memory
fresh = record { activity_counter = 0; page_count = 0; pages = no_pages }

mem_map-IsPages_example :
    (m' : Memory) × (mem_map one_place willing 8192 fresh 0
      ≡ some (65536, m', (one_place 8192 (stir one_place willing 1 0)).1))
    × IsPages m'.pages (with_pages 2 65536 [])
    × (mem_heapsize m' ≡ mem_heapsize fresh + 8192)
mem_map-IsPages_example =
    mem_map-IsPages one_place willing 8192 fresh [] 0 65536 no_pages-IsPages refl (omega arith) refl
      (omega arith) refl (λ q l r. refl)
