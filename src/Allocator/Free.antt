-- ===== src/Allocator/Free.antt =====
-- The writes of `mm_free` of Malloclab/mm.c when the block is not merged with another.
use cs4400_fall.Prelude.{
  ℕ, ◌+◌, ◌-◌, ◌≡◌, ◌≢◌, ◌⊎◌, inl, inr, refl, sym, ap, ◌∙◌, Bool, true, false, List, ◌∷◌, some,
  arith, if◌then◌else◌, Bool-cases,
}
use native.Mathlib.Decide.{ℕ_discrete}
use cs4400_fall.Allocator.Memory.{Ptr, null, Cells, Heap, Cmd, is_some, bind-run, pure, ◌>>=◌, ◌>>◌}
use cs4400_fall.Allocator.Tags.{pack, put, header, footer, get_size, get_alloc}
use cs4400_fall.Allocator.FreeList.{add_to_free_list}
use cs4400_fall.Allocator.FreeList.Add.{added, add_to_free_list-IsFreeList}
use cs4400_fall.Allocator.FreeList.Chain.{has, first, IsFreeList, Chain-frame}
use cs4400_fall.Allocator.Blocks.{
  Pages, mm_free, coalesce, coalesce_none, prev_allocated, next_allocated, fills_page, release_page,
}
use cs4400_fall.Allocator.Extend.{with_block, with_block-Lists}
use cs4400_fall.Allocator.Invariant.{
  Layout, IsBlock, IsBlock-same, Blocks, Lists, IsHeap, tag_links, own_links,
}
use cs4400_fall.Allocator.Runs.{get_size-run, get_alloc-run, footer-run, to_size_small}
use cs4400_fall.Allocator.Writes.{
  tagged, tags-run, tagged-head, tagged-foot, tagged-other, Mapped-tagged, OffLinks, added-other,
  Mapped-added,
}

module _ (h : Heap) (g : Layout) (fs : List Ptr) (x s : ℕ) (ok : IsHeap h g fs)
    (at : g x ≡ some (s, true)) where
  unlisted : has x fs ≡ false
  unlisted = elim (Bool-cases (has x fs)) [
    | inr free ↦ free
    | inl held ↦ let (r, e) = ok.lists.listed x held in absurd (ground arith)
  ]

  abbrev pub c₁ : Cells
  c₁ = tagged h.cell x s false

  abbrev pub c₂ : Cells
  c₂ = added c₁ x (first fs)

  -- Places off the tags and the links keep what they hold.
  pub kept :
      (a : ℕ)
      → OffLinks fs a
      → (a ≢ x) × (a ≢ x + 8) × (a ≢ x - 4) × (a ≢ x + s - 8)
      → c₂ a ≡ h.cell a
  kept a off ne = added-other c₁ fs x a off ne.0 ne.1 ∙ tagged-other h.cell x s false a ne.2 ne.3

  list₁ : IsFreeList (record h { cell = c₁ }) fs
  list₁ =
      let off : (a q : ℕ)
          → has q fs ≡ true
          → (a ≡ x - 4) ⊎ (a ≡ x + s - 8)
          → (a ≢ q) × (a ≢ q + 8) =
        λ a q k w. tag_links h.cell g fs ok.blocks ok.lists q x s a true k at w in
      (
        ok.list.0,
        Chain-frame h.cell c₁ null fs
            (λ q k.
              let p = off (x - 4) q k (inl refl) in
              let r = off (x + s - 8) q k (inr refl) in
              (
                tagged-other h.cell x s false q (λ e. p.0 (sym e)) (λ e. r.0 (sym e)),
                tagged-other h.cell x s false (q + 8) (λ e. p.1 (sym e)) (λ e. r.1 (sym e)),
              ))
            ok.list.1,
      )

  -- The tags of another block are kept.
  pub other_tag :
      (y t : ℕ) (u : Bool) (a : ℕ)
      → g y ≡ some (t, u)
      → x ≢ y
      → (a ≡ y - 4) ⊎ (a ≡ y + t - 8)
      → c₂ a ≡ h.cell a
  other_tag y t u a e ne w =
      let away = ok.blocks.apart x s true y t u at e ne in
      let o = ok.blocks.block y t u e in
      let b = ok.blocks.block x s true at in
      kept a (λ q k. tag_links h.cell g fs ok.blocks ok.lists q y t a u k e w)
        (
          omega (arith, o.real, o.size_min, b.real, b.size_min),
          omega (arith, o.real, o.size_min, b.real, b.size_min),
          omega (arith, o.real, o.size_min, b.real, b.size_min),
          omega (arith, o.real, o.size_min, b.real, b.size_min),
        )

  old-IsBlock : (y t : ℕ) (u : Bool) → g y ≡ some (t, u) → x ≢ y → IsBlock c₂ y t u
  old-IsBlock y t u e ne =
      let o = ok.blocks.block y t u e in
      record {
        real = o.real;
        aligned = o.aligned;
        size_aligned = o.size_aligned;
        size_min = o.size_min;
        size_max = o.size_max;
        in_reach = o.in_reach;
        head = other_tag y t u (y - 4) e ne (inl refl) ∙ o.head;
        foot = other_tag y t u (y + t - 8) e ne (inr refl) ∙ o.foot;
        mapped =
            λ a w. Mapped-added c₁ x (first fs) a (Mapped-tagged h.cell x s false a (o.mapped a w));
      }

  own_tag : (a : ℕ) → (a ≡ x - 4) ⊎ (a ≡ x + s - 8) → c₂ a ≡ c₁ a
  own_tag a w =
      let b = ok.blocks.block x s true at in
      let own = own_links h.cell x s a true b w in
      added-other c₁ fs x a (λ q k. tag_links h.cell g fs ok.blocks ok.lists q x s a true k at w)
        own.0 own.1

  freed-IsBlock : IsBlock c₂ x s false
  freed-IsBlock =
      let b = ok.blocks.block x s true at in
      record {
        real = b.real;
        aligned = b.aligned;
        size_aligned = b.size_aligned;
        size_min = b.size_min;
        size_max = b.size_max;
        in_reach = b.in_reach;
        head = own_tag (x - 4) (inl refl) ∙ tagged-head h.cell x s false b.real;
        foot = own_tag (x + s - 8) (inr refl) ∙ tagged-foot h.cell x s false;
        mapped =
            λ a w. Mapped-added c₁ x (first fs) a (Mapped-tagged h.cell x s false a (b.mapped a w));
      }

  -- Where the block stands, in both layouts.
  known : (y t : ℕ) (u : Bool) → with_block g x s y ≡ some (t, u) → (v : Bool) × (g y ≡ some (t, v))
  known y t u e = elim (ℕ_discrete x y) [
    | yes here ↦
        let same : s ≡ t = ground arith in
        (true, ap g (sym here) ∙ at ∙ ap (λ n. some (n, true)) same)
    | no ne ↦ (u, ground arith)
  ]

  pub freed-Blocks : Blocks c₂ (with_block g x s)
  freed-Blocks = record {
    block = λ y t u e. elim (ℕ_discrete x y) [
      | yes here ↦
          let same : (s ≡ t) × (false ≡ u) = ground arith in
          IsBlock-same c₂ x s false y t u here same.0 same.1 freed-IsBlock
      | no ne ↦ old-IsBlock y t u (ground arith) ne
    ];
    apart = λ y t u z r v e f ne.
        let (u', e') = known y t u e in
        let (v', f') = known z r v f in ok.blocks.apart y t u' z r v' e' f' ne;
  }

  pub freed-Lists : Lists (with_block g x s) (x ∷ fs)
  freed-Lists = with_block-Lists g fs ok.lists x s

  -- The run from the tags on.
  pub added_run :
      (h' : Heap) × (add_to_free_list x (record h { cell = c₁ }) ≡ some (tt, h'))
      × IsFreeList h' (x ∷ fs)
      × (h'.cell ≡ c₂)
  added_run =
      let b = ok.blocks.block x s true at in
      add_to_free_list-IsFreeList (record h { cell = c₁ }) x fs list₁ (omega (arith, b.real))
        b.aligned
        (Mapped-tagged h.cell x s false x
          (b.mapped x (omega (arith, b.real), omega (arith, b.size_min))))
        (Mapped-tagged h.cell x s false (x + 8)
          (b.mapped (x + 8) (omega (arith, b.real), omega (arith, b.size_min))))
        unlisted

  pub coalesce-run :
      (h' : Heap)
      → add_to_free_list x (record h { cell = c₁ }) ≡ some (tt, h')
      → prev_allocated x (record h { cell = c₁ }) ≡ some (true, record h { cell = c₁ })
      → next_allocated x (x + s - 4) (record h { cell = c₁ }) ≡ some (true, record h { cell = c₁ })
      → coalesce x (record h { cell = c₁ }) ≡ some (x, h')
  unfolding coalesce coalesce_none
  coalesce-run h' added_ok before behind =
      let b = ok.blocks.block x s true at in
      let h₁ : Heap = record h { cell = c₁ } in
      let head = tagged-head h.cell x s false b.real in
      let place : x + s - 8 + 4 ≡ x + s - 4 = omega (arith, b.size_min) in
      bind-run (get_size (header x)) _ h₁
        (get_size-run h₁ (x - 4) s false (omega (arith, b.real)) b.size_aligned head)
        (bind-run (footer x) _ h₁
          (footer-run h₁ x s false b.real b.size_aligned b.size_max b.in_reach head)
          (bind-run (prev_allocated x) _ h₁ before (
            bind-run (next_allocated x (x + s - 8 + 4)) _ h₁
              (ap (λ z. next_allocated x z h₁) place ∙ behind)
              (bind-run (add_to_free_list x) _ h₁ added_ok refl))))

  -- What `mm_free` does once the tags are written, and from the tags on.
  abbrev after_tags : Pages → Cmd (Unit {0})
  after_tags pages = do
    bp ← coalesce x
    f ← footer bp
    whole ← fills_page bp (f + 4)
    if whole then release_page pages bp else pure tt

  abbrev from_tags : Pages → ℕ → Cmd (Unit {0})
  from_tags pages n =
      put (header x) (pack n false) >> (footer x >>= λ f. put f (pack n false) >> after_tags pages)

  pub free_run :
      (pages : Pages) (h' : Heap)
      → coalesce x (record h { cell = c₁ }) ≡ some (x, h')
      → h'.cell ≡ c₂
      → fills_page x (x + s - 4) h' ≡ some (false, h')
      → mm_free pages x h ≡ some (tt, h')
  unfolding mm_free
  free_run pages h' merged eq partial =
      let b = ok.blocks.block x s true at in
      let h₁ : Heap = record h { cell = c₁ } in
      let place : x + s - 8 + 4 ≡ x + s - 4 = omega (arith, b.size_min) in
      let head : h'.cell (x - 4) ≡ some (pack s false) =
        ap (λ (c : Cells). c (x - 4)) eq ∙ freed-IsBlock.head in
      bind-run (get_alloc (header x)) _ h
        (get_alloc-run h (x - 4) s true (omega (arith, b.real)) b.size_aligned b.head)
        (bind-run (get_size (header x)) _ h
          (get_size-run h (x - 4) s true (omega (arith, b.real)) b.size_aligned b.head)
          (ap (λ n. from_tags pages n h) (to_size_small s b.size_max)
            ∙ tags-run h x s false b.real b.size_aligned b.size_max b.in_reach (ap is_some b.head)
                (ap is_some b.foot) (after_tags pages)
                (bind-run (coalesce x) _ h₁ merged (
                  bind-run (footer x) _ h'
                    (footer-run h' x s false b.real b.size_aligned b.size_max b.in_reach head)
                    (bind-run (fills_page x (x + s - 8 + 4)) _ h'
                      (ap (λ z. fills_page x z h') place ∙ partial) refl)))))
