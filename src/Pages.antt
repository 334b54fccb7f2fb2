-- ===== src/Pages.antt =====
-- Malloclab/pagemap.c: which pages are mapped, in a table of three levels whose entries are also
-- linked in a list. A pointer to an entry is the address of its page, and `none` is NULL; an
-- access through a table that was not allocated is a fault, and so is an abort.
pub mod Table
pub mod Entries
pub mod Links
pub mod Mapping
pub mod Mapper
use cs4400_fall.Prelude.{
  ℕ, zero, suc, ◌+◌, ◌-◌, ◌*◌, ◌/◌, ◌%◌, ◌^◌, ◌≡◌, Bool, true, false, not, List, [], ◌∷◌, Option,
  none, some, ◌==◌, if◌then◌else◌, ◌>>=◌,
}

-- mpage
pub record Mpage : Type 0 where
  pub addr : ℕ
  pub prev : Option ℕ
  pub next : Option ℕ

abbrev pub Level3 : Type 0
Level3 = ℕ → Mpage

abbrev pub Level2 : Type 0
Level2 = ℕ → Option Level3

abbrev pub Level1 : Type 0
Level1 = ℕ → Option Level2

pub record Pagemap : Type 0 where
  pub all_mapped_pages : Option ℕ
  pub page_maps1 : Option Level1

-- PAGEMAP64_LEVEL1_BITS, PAGEMAP64_LEVEL2_BITS, PAGEMAP64_LEVEL3_BITS, for pages of 2 ^ 12 bytes.
abbrev pub level1_bits : ℕ → ℕ
level1_bits p = p / 2 ^ 48

abbrev pub level2_bits : ℕ → ℕ
level2_bits p = p / 2 ^ 32 % 2 ^ 16

abbrev pub level3_bits : ℕ → ℕ
level3_bits p = p / 2 ^ 12 % 2 ^ 20

-- What calloc leaves in a new table.
abbrev pub blank : Mpage
blank = record { addr = 0; prev = none; next = none }

abbrev pub or_new {ℓ} : {A : Type ℓ} → Option A → A → A
or_new none new = new
or_new (some a) new = a

abbrev pub at_index {ℓ} : {A : Type ℓ} → (ℕ → A) → ℕ → A → ℕ → A
at_index t i a j = if j == i then a else t j

-- The tables on the way to an entry are allocated where they are not there.
unfoldable pub reserve : Pagemap → ℕ → Pagemap
reserve m p =
    let t₁ = or_new m.page_maps1 (λ _. none) in
    let t₂ = or_new (t₁ (level1_bits p)) (λ _. none) in
    let t₃ = or_new (t₂ (level2_bits p)) (λ _. blank) in
    record m {
      page_maps1 =
          some (at_index t₁ (level1_bits p) (some (at_index t₂ (level2_bits p) (some t₃))));
    }

-- The entry of the page of `p`, read and written.
unfoldable pub page_at : Pagemap → ℕ → Option Mpage
page_at m p = do
  t₁ ← m.page_maps1
  t₂ ← t₁ (level1_bits p)
  t₃ ← t₂ (level2_bits p)
  some (t₃ (level3_bits p))

unfoldable pub set_page : Pagemap → ℕ → Mpage → Option Pagemap
set_page m p e = do
  t₁ ← m.page_maps1
  t₂ ← t₁ (level1_bits p)
  t₃ ← t₂ (level2_bits p)
  let s₃ = at_index t₃ (level3_bits p) e
  let s₂ = at_index t₂ (level2_bits p) (some s₃)
  some (record m { page_maps1 = some (at_index t₁ (level1_bits p) (some s₂)) })

-- The page that `p` lies in.
abbrev pub page_of : ℕ → ℕ
page_of p = p / 2 ^ 12 * 2 ^ 12

-- `q->prev = e` and `q->next = e`.
unfoldable pub set_prev : Pagemap → ℕ → Option ℕ → Option Pagemap
set_prev m q e = do x ← page_at m q; set_page m q (record x { prev = e })

unfoldable pub set_next : Pagemap → ℕ → Option ℕ → Option Pagemap
set_next m q e = do x ← page_at m q; set_page m q (record x { next = e })

-- `page == all_mapped_pages`
abbrev pub is_head : Option ℕ → ℕ → Bool
is_head none p = false
is_head (some q) p = q == p

-- The branch of `pagemap_modify` that maps a page.
unfoldable pub link_page : Pagemap → ℕ → Mpage → Option Pagemap
link_page m p page =
    if not (page.addr == 0)
    then none
    else if is_head m.all_mapped_pages (page_of p)
    then none
    else do
      m₁ ← set_page m p (record { addr = p; prev = none; next = m.all_mapped_pages })
      m₂ ← elim m.all_mapped_pages [ none ↦ some m₁ | some q ↦ set_prev m₁ q (some (page_of p)) ]
      some (record m₂ { all_mapped_pages = some (page_of p) })

-- The branch that takes a page out.
unfoldable pub unlink_page : Pagemap → ℕ → Mpage → Option Pagemap
unlink_page m p page = if page.addr == 0 then none else do
  m₁ ← set_page m p (record page { addr = 0 })
  m₂ ← elim page.prev [
    | none ↦ some (record m₁ { all_mapped_pages = page.next })
    | some q ↦ set_next m₁ q page.next
  ]
  left ← page_at m₂ p
  elim left.next [ none ↦ some m₂ | some q ↦ set_prev m₂ q left.prev ]

unfoldable pub pagemap_modify : Pagemap → ℕ → Bool → Option Pagemap
pagemap_modify m p mapped = do
  page ← page_at (reserve m p) p
  if mapped then link_page (reserve m p) p page else unlink_page (reserve m p) p page

unfoldable pub pagemap_is_mapped : Pagemap → ℕ → Bool
pagemap_is_mapped m p = elim (page_at m p) [ none ↦ false | some page ↦ not (page.addr == 0) ]

-- The loop of `pagemap_for_each`, with the rounds that are left: the addresses that the callback
-- gets, and the map that is left.
unfoldable pub each_page : ℕ → Pagemap → Option ℕ → Option (List ℕ × Pagemap)
each_page rounds m none = some ([], m)
each_page zero m (some p) = none
each_page (suc rounds) m (some p) = do
  page ← page_at m p
  m' ← pagemap_modify m page.addr false
  rest ← each_page rounds m' page.next
  some (page.addr ∷ rest.0, rest.1)

unfoldable pub pagemap_for_each : ℕ → Pagemap → Option (List ℕ × Pagemap)
pagemap_for_each rounds m = do
  seen ← each_page rounds m m.all_mapped_pages
  some (seen.0, record (seen.1) { all_mapped_pages = none })
