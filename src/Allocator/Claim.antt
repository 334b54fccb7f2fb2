-- ===== src/Allocator/Claim.antt =====
-- What both branches of `set_allocated` of Malloclab/mm.c begin with: the tags of the bytes that
-- are handed out are written, and the block leaves the free list.
use cs4400_fall.Prelude.{
  ℕ, ◌+◌, ◌-◌, ◌%◌, ◌≤◌, ◌≡◌, ◌≢◌, refl, sym, ap, ◌∙◌, true, false, ◌||◌, List, [], ◌∷◌, ◌++◌, some,
  ◌==◌, arith,
}
use native.Mathlib.Decide.{ℕ_discrete}
use cs4400_fall.Allocator.Memory.{Ptr, null, Cells, Heap, Cmd, is_some, ◌>>=◌, ◌>>◌, bind_assoc}
use mathlib.Core.Path.{fun_ext}
use cs4400_fall.Allocator.Tags.{pack, put, header, footer}
use cs4400_fall.Allocator.FreeList.{remove_from_free_list}
use cs4400_fall.Allocator.FreeList.Chain.{has, first, last_of, Chain, IsFreeList, Chain-frame}
use cs4400_fall.Allocator.FreeList.Unlink.{remove_from_free_list-IsFreeList}
use cs4400_fall.Allocator.Invariant.{Layout, Within, IsHeap, Local, other_links}
use cs4400_fall.Allocator.Writes.{
  tagged, tags-run, tagged-head, tagged-foot, tagged-other, Mapped-tagged, OffLinks, unlinked-other,
  Mapped-unlinked,
}

pub has-middle : (y x : Ptr) (a b : List Ptr) → has y (a ++ x ∷ b) ≡ (x == y || has y (a ++ b))
has-middle y x [] b = refl
has-middle y x (z ∷ a) b = ground (arith, has-middle y x a b)

-- A block stands once in a chain.
pub has-rest :
    (c : Cells) (prev x : Ptr) (a b : List Ptr) → Chain c prev (a ++ x ∷ b) → has x (a ++ b) ≡ false
has-rest c prev x [] b k = k.4
has-rest c prev x (y ∷ a) b k = ground (arith, has-rest c y x a b k.5, has-middle y x a b, k.4)

abbrev pub claim : Ptr → ℕ → Cmd (Unit {0})
claim x n =
    put (header x) (pack n true)
    >> (footer x >>= λ f. put f (pack n true) >> remove_from_free_list x)

-- The commands behind it may stand inside.
pub claim_then :
    (x : Ptr) (n : ℕ) (k : Cmd (Unit {0})) (h : Heap)
    → (put (header x) (pack n true)
          >> (footer x >>= λ f. put f (pack n true) >> (remove_from_free_list x >> k)))
        h
      ≡ (claim x n >> k) h
claim_then x n k h =
    ap (λ (m : Cmd (Unit {0})). m h)
      (ap (λ m. put (header x) (pack n true) >> m)
          (ap (λ m. footer x >>= m)
              (fun_ext
                λ f. bind_assoc (put f (pack n true)) (λ _. remove_from_free_list x) (λ _. k))
            ∙ bind_assoc (footer x) (λ f. put f (pack n true) >> remove_from_free_list x) (λ _. k))
        ∙ bind_assoc (put (header x) (pack n true))
            (λ _. footer x >>= λ f. put f (pack n true) >> remove_from_free_list x) (λ _. k))

module _ (h : Heap) (g : Layout) (a : List Ptr) (x : Ptr) (b : List Ptr) (s : ℕ)
    (ok : IsHeap h g (a ++ x ∷ b)) (at : g x ≡ some (s, false)) where
  -- Places inside a free block other than its own links are off all links.
  pub inside_OffLinks : (p : Ptr) → Within x s p → p ≢ x → p ≢ x + 8 → OffLinks (a ++ x ∷ b) p
  inside_OffLinks p w n m q k = elim (ℕ_discrete q x) [
    | yes e ↦ rw e (n, m)
    | no ne ↦ other_links h.cell g (a ++ x ∷ b) ok.blocks ok.lists q x s p false k at ne w
  ]

  module _ (n : ℕ) (fits : n ≤ s) (least : 32 ≤ n) (whole : n % 16 ≡ 0) where
    head_in : Within x s (x - 4)
    head_in = let o = ok.blocks.block x s false at in omega (arith, o.real, o.size_min)

    foot_in : Within x s (x + n - 8)
    foot_in = let o = ok.blocks.block x s false at in omega (arith, o.real, o.size_min)

    head_off : OffLinks (a ++ x ∷ b) (x - 4)
    head_off =
        let o = ok.blocks.block x s false at in
        inside_OffLinks (x - 4) head_in (omega (arith, o.real)) (omega (arith, o.real))

    foot_off : OffLinks (a ++ x ∷ b) (x + n - 8)
    foot_off =
        let o = ok.blocks.block x s false at in
        inside_OffLinks (x + n - 8) foot_in (omega (arith, o.real)) (omega (arith, o.real))

    tagged_list : IsFreeList (record h { cell = tagged h.cell x n true }) (a ++ x ∷ b)
    tagged_list = (
      ok.list.0,
      Chain-frame h.cell (tagged h.cell x n true) null (a ++ x ∷ b)
          (λ q k. (
            tagged-other h.cell x n true q (λ e. (head_off q k).0 (sym e))
                (λ e. (foot_off q k).0 (sym e)),
            tagged-other h.cell x n true (q + 8) (λ e. (head_off q k).1 (sym e))
                (λ e. (foot_off q k).1 (sym e)),
          ))
          ok.list.1,
    )

    pub claim-run :
        (h' : Heap) × (claim x n h ≡ some (tt, h'))
        × IsFreeList h' (a ++ b)
        × Local h.cell h'.cell x s (a ++ x ∷ b)
        × (h'.cell (x - 4) ≡ some (pack n true))
        × (h'.cell (x + n - 8) ≡ some (pack n true))
    claim-run =
        let o = ok.blocks.block x s false at in
        let c₁ = tagged h.cell x n true in
        let (h', run, list, eq) =
          remove_from_free_list-IsFreeList (record h { cell = c₁ }) a x b tagged_list in
        let off : (p : Ptr) → OffLinks (a ++ x ∷ b) p → h'.cell p ≡ c₁ p =
          λ p k. ap (λ (c : Cells). c p) eq ∙ unlinked-other c₁ a b x p k in
        (
          h',
          tags-run h x n true o.real whole (omega (arith, o.size_max)) (omega (arith, o.in_reach))
              (o.mapped (x - 4) head_in) (o.mapped (x + n - 8) foot_in) (remove_from_free_list x)
              run,
          list,
          record {
            same = λ p k.
                off p k.1
                ∙ tagged-other h.cell x n true p (k.0 (x - 4) head_in) (k.0 (x + n - 8) foot_in);
            maps = λ p m.
                ap (λ (c : Cells). is_some (c p)) eq
                ∙ Mapped-unlinked c₁ (last_of null a) (first b) p
                    (Mapped-tagged h.cell x n true p m);
          },
          off (x - 4) head_off ∙ tagged-head h.cell x n true o.real,
          off (x + n - 8) foot_off ∙ tagged-foot h.cell x n true,
        )
