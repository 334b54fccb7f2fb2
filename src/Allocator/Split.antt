-- ===== src/Allocator/Split.antt =====
-- The branch of `set_allocated` of Malloclab/mm.c that hands out the front of a free block, and
-- makes the rest a free block of its own.
use cs4400_fall.Prelude.{
  ℕ, ◌+◌, ◌-◌, ◌%◌, ◌≤◌, ◌≡◌, ◌≢◌, ◌⊎◌, inl, inr, refl, sym, ap, ◌∙◌, Bool, true, false, List, ◌∷◌,
  ◌++◌, some, ◌==◌, arith, if◌then◌else◌, Bool-cases,
}
use native.Mathlib.Decide.{ℕ_discrete}
use cs4400_fall.Allocator.Memory.{Ptr, null, Cells, Heap, Mapped, is_some, ◌>>=◌, ◌>>◌, bind-run}
use cs4400_fall.Allocator.Tags.{pack, put, header, footer, next_block}
use cs4400_fall.Allocator.FreeList.{add_to_free_list}
use cs4400_fall.Allocator.FreeList.Add.{added, add_to_free_list-IsFreeList}
use cs4400_fall.Allocator.FreeList.Chain.{has, first, IsFreeList, Chain-frame}
use cs4400_fall.Allocator.Blocks.{split_block}
use cs4400_fall.Allocator.Invariant.{
  Layout, Within, IsBlock, IsBlock-same, Blocks, Lists, IsHeap, Local,
}
use cs4400_fall.Allocator.Refine.{Blocks-refine}
use cs4400_fall.Allocator.Runs.{next_block-run}
use cs4400_fall.Allocator.Writes.{
  tagged, tags-run, tagged-head, tagged-foot, tagged-other, Mapped-tagged, OffLinks, added-other,
  Mapped-added,
}
use cs4400_fall.Allocator.Claim.{
  claim, claim_then, claim-run, has-middle, has-rest, inside_OffLinks,
}

-- The blocks after `n` bytes of the block at `x` have been handed out, and `e` bytes are left.
abbrev pub cut : Layout → Ptr → ℕ → ℕ → Layout
cut g x n e y = if y == x then some (n, true) else if y == x + n then some (e, false) else g y

module _ (h : Heap) (g : Layout) (a : List Ptr) (x : Ptr) (b : List Ptr) (s : ℕ)
    (ok : IsHeap h g (a ++ x ∷ b)) (at : g x ≡ some (s, false)) (n e : ℕ) (parts : n + e ≡ s)
    (n_min : 32 ≤ n) (n_aligned : n % 16 ≡ 0) (e_min : 32 ≤ e) (e_aligned : e % 16 ≡ 0) where
  out : has x (a ++ b) ≡ false
  out = has-rest h.cell null x a b ok.list.1

  -- No block begins where the rest does.
  rest_new : (t : ℕ) (u : Bool) → g (x + n) ≢ some (t, u)
  rest_new t u k = omega (
    arith,
    ok.blocks.apart x s false (x + n) t u at k (omega arith),
    (ok.blocks.block (x + n) t u k).size_min,
  )

  rest_out : has (x + n) (a ++ b) ≡ false
  rest_out = elim (Bool-cases (has (x + n) (a ++ b))) [
    | inr free ↦ free
    | inl held ↦
        let (t, k) = ok.lists.listed (x + n) (ground (arith, has-middle (x + n) x a b)) in
        absurd (rest_new t false k)
  ]

  cut-Lists : Lists (cut g x n e) ((x + n) ∷ a ++ b)
  cut-Lists = record {
    listed = λ y k. elim (ℕ_discrete y (x + n)) [
      | yes p ↦ (e, ground arith)
      | no q ↦
          let (t, w) = ok.lists.listed y (ground (arith, has-middle y x a b)) in
          (t, ground (arith, out))
    ];
    free = λ y t w. ground (arith, has-middle y x a b, ok.lists.free y t);
  }

  off_rest : (p : Ptr) → OffLinks (a ++ x ∷ b) p → OffLinks (a ++ b) p
  off_rest p k q m = k q (ground (arith, has-middle q x a b))

  module _ (h₁ : Heap) (list : IsFreeList h₁ (a ++ b))
      (k : Local h.cell h₁.cell x s (a ++ x ∷ b)) where
    inner_off :
        (p : Ptr) → (p ≡ x + n - 8) ⊎ (p ≡ x + n - 4) ⊎ (p ≡ x + n + e - 8) → OffLinks (a ++ b) p
    inner_off p w =
        let o = ok.blocks.block x s false at in
        off_rest p (
          inside_OffLinks h g a x b s ok at p (omega (arith, o.real), omega (arith, o.real))
            (omega (arith, o.real)) (omega (arith, o.real)))

    -- The rest gets its tags and enters the free list.
    free_rest :
        (h₃ : Heap) × ((put (header (x + n)) (pack e false)
              >> (footer (x + n) >>= λ f. put f (pack e false) >> add_to_free_list (x + n)))
            h₁
          ≡ some (tt, h₃))
        × IsFreeList h₃ ((x + n) ∷ a ++ b)
        × (h₃.cell ≡ added (tagged h₁.cell (x + n) e false) (x + n) (first (a ++ b)))
    free_rest =
        let o = ok.blocks.block x s false at in
        let c₂ = tagged h₁.cell (x + n) e false in
        let at_head = inner_off (x + n - 4) (inr (inl refl)) in
        let at_foot = inner_off (x + n + e - 8) (inr (inr refl)) in
        let here : (p : Ptr) → Within x s p → Mapped h₁.cell p = λ p w. k.maps p (o.mapped p w) in
        let list₂ : IsFreeList (record h₁ { cell = c₂ }) (a ++ b) = (
          list.0,
          Chain-frame h₁.cell c₂ null (a ++ b)
              (λ q m. (
                tagged-other h₁.cell (x + n) e false q (λ r. (at_head q m).0 (sym r))
                    (λ r. (at_foot q m).0 (sym r)),
                tagged-other h₁.cell (x + n) e false (q + 8) (λ r. (at_head q m).1 (sym r))
                    (λ r. (at_foot q m).1 (sym r)),
              ))
              list.1,
        ) in
        let (h₃, run, list₃, eq) =
          add_to_free_list-IsFreeList (record h₁ { cell = c₂ }) (x + n) (a ++ b) list₂
            (omega (arith, o.real)) (omega (arith, o.aligned))
            (Mapped-tagged h₁.cell (x + n) e false (x + n)
              (here (x + n) (omega (arith, o.real), omega (arith, o.real))))
            (Mapped-tagged h₁.cell (x + n) e false (x + n + 8)
              (here (x + n + 8) (omega (arith, o.real), omega (arith, o.real))))
            rest_out in
        (
          h₃,
          tags-run h₁ (x + n) e false (omega (arith, o.real)) e_aligned (omega (arith, o.size_max))
              (omega (arith, o.in_reach))
              (here (x + n - 4) (omega (arith, o.real), omega (arith, o.real)))
              (here (x + n + e - 8) (omega (arith, o.real), omega (arith, o.real)))
              (add_to_free_list (x + n)) run,
          list₃,
          eq,
        )

    module _ (h₃ : Heap)
        (eq : h₃.cell ≡ added (tagged h₁.cell (x + n) e false) (x + n) (first (a ++ b)))
        (head : h₁.cell (x - 4) ≡ some (pack n true))
        (foot : h₁.cell (x + n - 8) ≡ some (pack n true)) where
      -- What is left of the first writes.
      kept :
          (p : Ptr)
          → OffLinks (a ++ b) p
          → (p ≢ x + n) × (p ≢ x + n + 8)
          → (p ≢ x + n - 4) × (p ≢ x + n + e - 8)
          → h₃.cell p ≡ h₁.cell p
      kept p off links tags =
          ap (λ (c : Cells). c p) eq
          ∙ added-other (tagged h₁.cell (x + n) e false) (a ++ b) (x + n) p off links.0 links.1
          ∙ tagged-other h₁.cell (x + n) e false p tags.0 tags.1

      new_tag :
          (p : Ptr)
          → (p ≡ x + n - 4) ⊎ (p ≡ x + n + e - 8)
          → h₃.cell p ≡ tagged h₁.cell (x + n) e false p
      new_tag p w =
          ap (λ (c : Cells). c p) eq
          ∙ added-other (tagged h₁.cell (x + n) e false) (a ++ b) (x + n) p (inner_off p (inr w))
              (omega arith) (omega arith)

      cut-Local : Local h.cell h₃.cell x s (a ++ x ∷ b)
      cut-Local =
          let o = ok.blocks.block x s false at in
          record {
            same = λ p sp.
                kept p (off_rest p sp.1)
                  (
                    sp.0 (x + n) (omega (arith, o.real), omega (arith, o.real)),
                    sp.0 (x + n + 8) (omega (arith, o.real), omega (arith, o.real)),
                  )
                  (
                    sp.0 (x + n - 4) (omega (arith, o.real), omega (arith, o.real)),
                    sp.0 (x + n + e - 8) (omega (arith, o.real), omega (arith, o.real)),
                  )
                ∙ k.same p sp;
            maps = λ p m.
                ap (λ (c : Cells). is_some (c p)) eq
                ∙ Mapped-added (tagged h₁.cell (x + n) e false) (x + n) (first (a ++ b)) p
                    (Mapped-tagged h₁.cell (x + n) e false p (k.maps p m));
          }

      front-IsBlock : IsBlock h₃.cell x n true
      front-IsBlock =
          let o = ok.blocks.block x s false at in
          record {
            real = o.real;
            aligned = o.aligned;
            size_aligned = n_aligned;
            size_min = n_min;
            size_max = omega (arith, o.size_max);
            in_reach = omega (arith, o.in_reach);
            head =
                kept (x - 4)
                  (off_rest (x - 4) (
                    inside_OffLinks h g a x b s ok at (x - 4)
                      (omega (arith, o.real), omega (arith, o.real)) (omega (arith, o.real))
                      (omega (arith, o.real))))
                  (omega (arith, o.real), omega (arith, o.real))
                  (omega (arith, o.real), omega (arith, o.real))
                ∙ head;
            foot =
                kept (x + n - 8) (inner_off (x + n - 8) (inl refl)) (omega arith, omega arith)
                  (omega arith, omega arith)
                ∙ foot;
            mapped = λ p w. cut-Local.maps p (o.mapped p (omega arith, omega arith));
          }

      rest-IsBlock : IsBlock h₃.cell (x + n) e false
      rest-IsBlock =
          let o = ok.blocks.block x s false at in
          record {
            real = omega (arith, o.real);
            aligned = omega (arith, o.aligned);
            size_aligned = e_aligned;
            size_min = e_min;
            size_max = omega (arith, o.size_max);
            in_reach = omega (arith, o.in_reach);
            head =
                new_tag (x + n - 4) (inl refl)
                ∙ tagged-head h₁.cell (x + n) e false (omega (arith, o.real));
            foot = new_tag (x + n + e - 8) (inr refl) ∙ tagged-foot h₁.cell (x + n) e false;
            mapped = λ p w. cut-Local.maps p (o.mapped p (omega arith, omega arith));
          }

      cut_cover :
          (y t : ℕ) (u : Bool)
          → cut g x n e y ≡ some (t, u)
          → ((((x ≡ y) × (n ≡ t)) ⊎ ((x + n ≡ y) × (e ≡ t))) × IsBlock h₃.cell y t u)
            ⊎ ((x ≢ y) × (g y ≡ some (t, u)))
      cut_cover y t u w = elim (ℕ_discrete x y) [
        | yes p ↦
            let same : (n ≡ t) × (true ≡ u) = ground arith in
            inl (inl (p, same.0), IsBlock-same h₃.cell x n true y t u p same.0 same.1 front-IsBlock)
        | no ne ↦ elim (ℕ_discrete (x + n) y) [
          | no far ↦ inr (ne, ground arith)
          | yes p ↦
              let same : (e ≡ t) × (false ≡ u) = ground arith in
              inl (
                inr (p, same.0),
                IsBlock-same h₃.cell (x + n) e false y t u p same.0 same.1 rest-IsBlock,
              )
        ]
      ]

      cut-Blocks : Blocks h₃.cell (cut g x n e)
      cut-Blocks =
          Blocks-refine h.cell h₃.cell g (cut g x n e) (a ++ x ∷ b) ok.blocks ok.lists x s at
            cut-Local (λ y t. ((x ≡ y) × (n ≡ t)) ⊎ ((x + n ≡ y) × (e ≡ t))) (λ y t p. omega arith)
            (λ y t z r p q ne. omega arith) cut_cover

  pub split_block-IsHeap :
      (h' : Heap) × (split_block x n e h ≡ some (tt, h'))
      × IsHeap h' (cut g x n e) ((x + n) ∷ a ++ b)
      × Local h.cell h'.cell x s (a ++ x ∷ b)
  unfolding split_block
  split_block-IsHeap =
      let o = ok.blocks.block x s false at in
      let (h₁, run₁, list₁, k, head, foot) =
        claim-run h g a x b s ok at n (omega arith) n_min n_aligned in
      let (h₃, run₃, list₃, eq) = free_rest h₁ list₁ k in
      (
        h₃,
        claim_then x n
              (next_block x >>= λ next.
                put (header next) (pack e false)
                >> (footer next >>= λ f. put f (pack e false) >> add_to_free_list next))
              h
            ∙ bind-run (claim x n) _ h run₁ (
                bind-run (next_block x) _ h₁
                  (next_block-run h₁ x n true o.real n_aligned (omega (arith, o.size_max))
                    (omega (arith, o.in_reach)) head)
                  run₃),
        record { blocks = cut-Blocks h₁ list₁ k h₃ eq head foot; lists = cut-Lists; list = list₃ },
        cut-Local h₁ list₁ k h₃ eq head foot,
      )
