-- ===== src/Pages/Links.antt =====
-- The list of the mapped pages of Malloclab/pagemap.c.
use cs4400_fall.Prelude.{
  ℕ, ◌%◌, ◌^◌, ◌<◌, ◌≡◌, inl, inr, refl, sym, ap, ◌∙◌, true, false, not, List, [], ◌∷◌, Option,
  none, some, ◌==◌, arith, Bool-cases,
}
use cs4400_fall.Allocator.FreeList.Chain.{has}
use cs4400_fall.Pages.{Mpage, Pagemap, blank, or_new, page_at, pagemap_is_mapped}
use cs4400_fall.Pages.Table.{entry}

abbrev pub first_page : List ℕ → Option ℕ
first_page [] = none
first_page (x ∷ xs) = some x

-- Distinct pages with entries that are linked both ways; `prev` stands before them.
abbrev pub Linked : Pagemap → Option ℕ → List ℕ → Type 0
Linked m prev [] = Unit
Linked m prev (x ∷ xs) =
    (0 < x)
    × (x % 2 ^ 12 ≡ 0)
    × (page_at m x ≡ some (record { addr = x; prev = prev; next = first_page xs }))
    × (has x xs ≡ false)
    × Linked m (some x) xs

-- The mapped pages are those of the list, in its order.
pub record IsPages (m : Pagemap) (ps : List ℕ) : Type 0 where
  pub head : m.all_mapped_pages ≡ first_page ps
  pub linked : Linked m none ps
  pub others : (q : ℕ) → q % 2 ^ 12 ≡ 0 → has q ps ≡ false → (entry m q).addr ≡ 0

pub Linked-frame :
    (m m' : Pagemap) (prev : Option ℕ) (xs : List ℕ)
    → ((x : ℕ) (e : Mpage)
        → x % 2 ^ 12 ≡ 0
        → has x xs ≡ true
        → page_at m x ≡ some e
        → page_at m' x ≡ some e)
    → Linked m prev xs
    → Linked m' prev xs
Linked-frame m m' prev [] same k = tt
Linked-frame m m' prev (x ∷ xs) same k = (
  k.0,
  k.1,
  same x _ k.1 (ground arith) k.2,
  k.3,
  Linked-frame m m' (some x) xs (λ y e low h f. same y e low (ground arith) f) k.4,
)

Linked-mem :
    (m : Pagemap) (prev : Option ℕ) (xs : List ℕ) (q : ℕ)
    → Linked m prev xs
    → has q xs ≡ true
    → (e : Mpage) × (page_at m q ≡ some e) × (e.addr ≡ q) × (0 < q)
Linked-mem m prev [] q k h = absurd (ground arith)
Linked-mem m prev (x ∷ xs) q k h = elim (Bool-cases (x == q)) [
  | inl here ↦
      let at : x ≡ q = ground arith in (_, ap (page_at m) (sym at) ∙ k.2, at, omega (arith, k.0))
  | inr there ↦ Linked-mem m (some x) xs q k.4 (ground arith)
]

tested :
    (r : Option Mpage)
    → elim r [ none ↦ false | some page ↦ not (page.addr == 0) ] ≡ not ((or_new r blank).addr == 0)
tested none = refl
tested (some page) = refl

by_entry : (m : Pagemap) (q : ℕ) → pagemap_is_mapped m q ≡ not ((entry m q).addr == 0)
unfolding pagemap_is_mapped
by_entry m q = tested (page_at m q)

-- `pagemap_is_mapped` of a page tells whether it is in the list of the mapped pages.
pub pagemap_is_mapped-has :
    (m : Pagemap) (ps : List ℕ) (q : ℕ)
    → IsPages m ps
    → q % 2 ^ 12 ≡ 0
    → pagemap_is_mapped m q ≡ has q ps
unfolding pagemap_is_mapped
pagemap_is_mapped-has m ps q ok low = elim (Bool-cases (has q ps)) [
  | inl held ↦
      let (e, f, at, real) = Linked-mem m none ps q ok.linked held in
      by_entry m q
      ∙ ap (λ (r : Option Mpage). not ((or_new r blank).addr == 0)) f
      ∙ rw (at, held) (ground arith)
  | inr free ↦ by_entry m q ∙ rw (ok.others q low free, free) refl
]
