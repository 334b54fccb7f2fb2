-- ===== src/Allocator/Extend.antt =====
-- `extend` of Malloclab/mm.c gets a page from memlib.c and makes it one free block.
use cs4400_fall.Prelude.{
  ℕ, ◌+◌, ◌-◌, ◌%◌, ◌^◌, ◌<◌, ◌≤◌, ◌≡◌, ◌≢◌, ◌⊎◌, inl, inr, refl, ap, ◌∙◌, Bool, true, false, List,
  ◌∷◌, none, some, ltb, ◌==◌, arith, if◌then◌else◌, Bool-cases,
}
use native.Mathlib.Decide.{ℕ_discrete}
use cs4400_fall.Allocator.Memory.{
  Ptr, null, Cells, Heap, update, Mapped, is_some, Mapped-update, bind-run, pure, ◌>>=◌, ◌>>◌,
}
use cs4400_fall.Allocator.Tags.{pack, put}
use cs4400_fall.Allocator.FreeList.{add_to_free_list}
use cs4400_fall.Allocator.FreeList.Add.{added, add_to_free_list-IsFreeList}
use cs4400_fall.Allocator.FreeList.Chain.{has, first, IsFreeList, Chain-frame}
use cs4400_fall.Allocator.FreeList.Remove.{Chain-Mapped}
use cs4400_fall.Allocator.Blocks.{page_set_up}
use cs4400_fall.Allocator.Invariant.{
  Layout, Within, Apart, IsBlock, IsBlock-same, Blocks, Lists, IsHeap, tag_links, layout_ne,
  other_links,
}
use cs4400_fall.Allocator.Runs.{put-run}
use cs4400_fall.Allocator.Writes.{OffLinks, added-other, Mapped-added}
use cs4400_fall.Allocator.Page.{paged, page_set_up-run}

-- What mm.c relies on in a call of `mem_map` that returns: `n` bytes from `p` on, aligned, that
-- were not mapped before and are now; nothing else is written.
pub record IsFreshPage (h h₁ : Heap) (p n : ℕ) : Type 0 where
  pub real : 16 ≤ p
  pub aligned : p % 16 ≡ 0
  pub reach : p + n < 2 ^ 48
  pub mapped : (a : Ptr) → p ≤ a → a < p + n → Mapped h₁.cell a
  pub fresh : (a : Ptr) → p ≤ a → a < p + n → h.cell a ≡ none
  pub same : (a : Ptr) → Mapped h.cell a → h₁.cell a ≡ h.cell a
  pub list : h₁.free_list_ptr ≡ h.free_list_ptr

-- The layout with a new free block.
abbrev pub with_block : Layout → Ptr → ℕ → Layout
with_block g x s y = if y == x then some (s, false) else g y

module _ (g : Layout) (fs : List Ptr) (l : Lists g fs) (x s : ℕ) where
  with_block-listed :
      (y : Ptr) → has y (x ∷ fs) ≡ true → (t : ℕ) × (with_block g x s y ≡ some (t, false))
  with_block-listed y k = elim (ℕ_discrete y x) [
    | yes e ↦ (s, ground arith)
    | no ne ↦ let (t, w) = l.listed y (ground arith) in (t, ground arith)
  ]

  pub with_block-Lists : Lists (with_block g x s) (x ∷ fs)
  with_block-Lists = record {
    listed = with_block-listed;
    free = λ y t w. ground (arith, l.free y t);
  }

module _ (h : Heap) (g : Layout) (fs : List Ptr) (ok : IsHeap h g fs) (h₁ : Heap) (p n : ℕ)
    (page : IsFreshPage h h₁ p n) (least : 48 ≤ n) (small : n < 2 ^ 31)
    (n_aligned : n % 16 ≡ 0) where
  -- No place that was mapped lies in the page.
  outside : (a : Ptr) → Mapped h.cell a → (a < p) ⊎ (p + n ≤ a)
  outside a m = ground (arith, page.fresh a)

  unlisted : has (p + 16) fs ≡ false
  unlisted = elim (Bool-cases (has (p + 16) fs)) [
    | inr free ↦ free
    | inl held ↦
        absurd
          (omega (arith, outside (p + 16) (Chain-Mapped h.cell null fs (p + 16) ok.list.1 held).1))
  ]

  link_outside :
      (q : Ptr) → has q fs ≡ true → ((q < p) ⊎ (p + n ≤ q)) × ((q + 8 < p) ⊎ (p + n ≤ q + 8))
  link_outside q k =
      let m = Chain-Mapped h.cell null fs q ok.list.1 k in (outside q m.1, outside (q + 8) m.2)

  -- The cells once the page is set up.
  abbrev c₂ : Cells
  c₂ = paged (update h₁.cell p (pack 0 false)) p n

  page_tag :
      (a : Ptr) → (a ≡ p + 16 - 4) ⊎ (a ≡ p + 16 + (n - 16) - 8) → c₂ a ≡ some (pack (n - 16) false)
  page_tag a w = ground arith

  paged_outside : (a : Ptr) → (a < p) ⊎ (p + n ≤ a) → c₂ a ≡ h₁.cell a
  paged_outside a w = ground arith

  kept : (a : Ptr) → Mapped h.cell a → c₂ a ≡ h.cell a
  kept a m = paged_outside a (outside a m) ∙ page.same a m

  Mapped-paged : (a : Ptr) → Mapped h₁.cell a → Mapped c₂ a
  Mapped-paged a m = ground arith

  list₂ : IsFreeList (record h₁ { cell = c₂ }) fs
  list₂ = (
    page.list ∙ ok.list.0,
    Chain-frame h.cell c₂ null fs
        (λ q k. let m = Chain-Mapped h.cell null fs q ok.list.1 k in (kept q m.1, kept (q + 8) m.2))
        ok.list.1,
  )

  -- A block of the old heap is apart from the new one.
  page-Apart : (y t : ℕ) (u : Bool) → g y ≡ some (t, u) → Apart (p + 16) (n - 16) y t
  page-Apart y t u e =
      let o = ok.blocks.block y t u e in
      elim (Bool-cases (ltb (p + 16) (y + t))) [
        | inr behind ↦ ground arith
        | inl reaches ↦ elim (Bool-cases (ltb (p + 16) y)) [
          | inl after ↦
              let far = outside y (o.mapped y (omega (arith, o.real), omega (arith, o.size_min))) in
              ground arith
          | inr before ↦
              let w : Within y t (p + 12) = (ground arith, ground arith) in
              absurd (omega (arith, outside (p + 12) (o.mapped (p + 12) w)))
        ]
      ]

  module _ (h₃ : Heap) (eq : h₃.cell ≡ added c₂ (p + 16) (first fs)) where
    stays : (a : Ptr) → Mapped h.cell a → OffLinks fs a → h₃.cell a ≡ h.cell a
    stays a m off =
        let far = outside a m in
        ap (λ (c : Cells). c a) eq
        ∙ added-other c₂ fs (p + 16) a off (omega arith) (omega arith)
        ∙ kept a m

    maps₃ : (a : Ptr) → Mapped h₁.cell a → Mapped h₃.cell a
    maps₃ a m =
        ap (λ (c : Cells). is_some (c a)) eq
        ∙ Mapped-added c₂ (p + 16) (first fs) a (Mapped-paged a m)

    still : (a : Ptr) → Mapped h.cell a → Mapped h₃.cell a
    still a m = maps₃ a (ap is_some (page.same a m) ∙ m)

    old-IsBlock : (y t : ℕ) (u : Bool) → g y ≡ some (t, u) → IsBlock h₃.cell y t u
    old-IsBlock y t u e =
        let o = ok.blocks.block y t u e in
        let off : (a : Ptr) → (a ≡ y - 4) ⊎ (a ≡ y + t - 8) → OffLinks fs a =
          λ a w q k. tag_links h.cell g fs ok.blocks ok.lists q y t a u k e w in
        record {
          real = o.real;
          aligned = o.aligned;
          size_aligned = o.size_aligned;
          size_min = o.size_min;
          size_max = o.size_max;
          in_reach = o.in_reach;
          head = stays (y - 4) (ap is_some o.head) (off (y - 4) (inl refl)) ∙ o.head;
          foot = stays (y + t - 8) (ap is_some o.foot) (off (y + t - 8) (inr refl)) ∙ o.foot;
          mapped = λ a w. still a (o.mapped a w);
        }

    page_off : (a : Ptr) → p ≤ a → a < p + n → OffLinks fs a
    page_off a l r q k = let far = link_outside q k in (omega arith, omega arith)

    new_tag :
        (a : Ptr)
        → (a ≡ p + 16 - 4) ⊎ (a ≡ p + 16 + (n - 16) - 8)
        → h₃.cell a ≡ some (pack (n - 16) false)
    new_tag a w =
        ap (λ (c : Cells). c a) eq
        ∙ added-other c₂ fs (p + 16) a (page_off a (omega arith) (omega arith)) (omega arith)
            (omega arith)
        ∙ page_tag a w

    new-IsBlock : IsBlock h₃.cell (p + 16) (n - 16) false
    new-IsBlock = record {
      real = omega (arith, page.real);
      aligned = omega (arith, page.aligned);
      size_aligned = omega arith;
      size_min = omega arith;
      size_max = omega arith;
      in_reach = omega (arith, page.reach);
      head = new_tag (p + 16 - 4) (inl refl);
      foot = new_tag (p + 16 + (n - 16) - 8) (inr refl);
      mapped = λ a w. maps₃ a (page.mapped a (omega arith) (omega arith));
    }

    extended-IsBlock :
        (y t : ℕ) (u : Bool)
        → with_block g (p + 16) (n - 16) y ≡ some (t, u)
        → IsBlock h₃.cell y t u
    extended-IsBlock y t u e = elim (ℕ_discrete (p + 16) y) [
      | yes here ↦
          let same : (n - 16 ≡ t) × (false ≡ u) = ground arith in
          IsBlock-same h₃.cell (p + 16) (n - 16) false y t u here same.0 same.1 new-IsBlock
      | no ne ↦ old-IsBlock y t u (ground arith)
    ]

    extended-Apart :
        (y t : ℕ) (u : Bool) (z r : ℕ) (v : Bool)
        → with_block g (p + 16) (n - 16) y ≡ some (t, u)
        → with_block g (p + 16) (n - 16) z ≡ some (r, v)
        → y ≢ z
        → Apart y t z r
    extended-Apart y t u z r v e f ne = elim (ℕ_discrete (p + 16) y) [
      | yes here ↦ let q = page-Apart z r v (ground arith) in ground arith
      | no other ↦ elim (ℕ_discrete (p + 16) z) [
        | yes here ↦ let q = page-Apart y t u (ground arith) in ground arith
        | no another ↦ ok.blocks.apart y t u z r v (ground arith) (ground arith) ne
      ]
    ]

    extended-Blocks : Blocks h₃.cell (with_block g (p + 16) (n - 16))
    extended-Blocks = record { block = extended-IsBlock; apart = extended-Apart }

    used_stays :
        (y t : ℕ)
        → g y ≡ some (t, true)
        → (with_block g (p + 16) (n - 16) y ≡ some (t, true))
          × ((a : ℕ) → Within y t a → h₃.cell a ≡ h.cell a)
    used_stays y t e =
        let o = ok.blocks.block y t true e in
        let q = page-Apart y t true e in
        (
          ground (arith, o.size_min),
          λ a w. stays a (o.mapped a w) (λ l k.
              let (r, f) = ok.lists.listed l k in
              other_links h.cell g fs ok.blocks ok.lists l y t a true k e (layout_ne g l y r t f e)
                w),
        )

  -- The writes of `extend` after `mem_map` has returned.
  pub page_run :
      (h₃ : Heap) × ((put p (pack 0 false)
            >> (page_set_up p n >>= λ bp. add_to_free_list bp >> pure bp))
          h₁
        ≡ some (p + 16, h₃))
      × IsHeap h₃ (with_block g (p + 16) (n - 16)) ((p + 16) ∷ fs)
      × ((y t : ℕ)
          → g y ≡ some (t, true)
          → (with_block g (p + 16) (n - 16) y ≡ some (t, true))
            × ((a : ℕ) → Within y t a → h₃.cell a ≡ h.cell a))
  page_run =
      let h₂ : Heap = record h₁ { cell = update h₁.cell p (pack 0 false) } in
      let (h₃, run, list₃, eq) =
        add_to_free_list-IsFreeList (record h₁ { cell = c₂ }) (p + 16) fs list₂
          (omega (arith, page.real)) (omega (arith, page.aligned))
          (Mapped-paged (p + 16) (page.mapped (p + 16) (omega arith) (omega arith)))
          (Mapped-paged (p + 16 + 8) (page.mapped (p + 16 + 8) (omega arith) (omega arith)))
          unlisted in
      (
        h₃,
        bind-run (put p (pack 0 false)) _ h₁
            (put-run h₁ p 0 false (omega (arith, page.real)) (omega arith)
              (page.mapped p (omega arith) (omega arith)))
            (bind-run (page_set_up p n) _ h₂
              (page_set_up-run h₂ p n page.real page.reach least small n_aligned
                (λ a l r. Mapped-update h₁.cell p (pack 0 false) a (page.mapped a l r)))
              (bind-run (add_to_free_list (p + 16)) _ (record h₁ { cell = c₂ }) run refl)),
        record {
          blocks = extended-Blocks h₃ eq;
          lists = with_block-Lists g fs ok.lists (p + 16) (n - 16);
          list = list₃;
        },
        used_stays h₃ eq,
      )
