-- ===== src/Allocator/Page.antt =====
-- `page_set_up` of Malloclab/mm.c makes one free block of a new page.
use cs4400_fall.Prelude.{
  ℕ, ◌+◌, ◌-◌, ◌%◌, ◌^◌, ◌<◌, ◌≤◌, ◌≡◌, refl, ap, ◌∙◌, true, false, some, arith,
}
use cs4400_fall.Allocator.Memory.{
  Ptr, Cells, Heap, Cmd, update, Mapped, Mapped-update, bind-run, pure, ◌>>=◌, ◌>>◌,
}
use cs4400_fall.Allocator.Tags.{pack, put, header, footer, to_int, to_size, pre_occupied}
use cs4400_fall.Allocator.Blocks.{page_set_up}
use cs4400_fall.Allocator.Runs.{put-run, footer-run}
use cs4400_fall.Allocator.Writes.{tagged, tags-run, tagged-head, Mapped-tagged}

-- The prologue of a page that begins at `p`.
abbrev pub prologue : Cells → Ptr → Cells
prologue c p = update (update c (p + 4) (pack 8 true)) (p + 8) (pack 8 true)

-- The cells of a page of `n` bytes: the prologue, the tags of the one block, the terminator.
abbrev pub paged : Cells → Ptr → ℕ → Cells
paged c p n =
    update (tagged (prologue c p) (p + 16) (n - 16) false) (p + 16 + (n - 16) - 8 + 4) (pack 0 true)

block_size :
    (n : ℕ) → 32 ≤ n → n < 2 ^ 31 → to_int (to_size (to_int n) + (2 ^ 64 - pre_occupied)) ≡ n - 16
unfolding to_int to_size
block_size n least small = ground arith

module _ (h : Heap) (p n : ℕ) (real : 16 ≤ p) (reach : p + n < 2 ^ 48) (least : 48 ≤ n)
    (small : n < 2 ^ 31) (aligned : n % 16 ≡ 0)
    (maps : (a : Ptr) → p ≤ a → a < p + n → Mapped h.cell a) where
  header_place : p + 12 ≡ header (p + 16)
  header_place = omega arith

  -- From the header of the block on.
  abbrev tags : Ptr → ℕ → Cmd Ptr
  tags q t =
      put q (pack t false)
      >> (footer (p + 16) >>= λ f.
          put f (pack t false)
          >> (footer (p + 16) >>= λ f'. put (f' + 4) (pack 0 true) >> pure (p + 16)))

  pub page_set_up-run : page_set_up p n h ≡ some (p + 16, record h { cell = paged h.cell p n })
  unfolding page_set_up
  page_set_up-run =
      let c₁ = update h.cell (p + 4) (pack 8 true) in
      let c₂ = prologue h.cell p in
      let c₃ = tagged c₂ (p + 16) (n - 16) false in
      let maps₂ : (a : Ptr) → p ≤ a → a < p + n → Mapped c₂ a = λ a l r.
        Mapped-update c₁ (p + 8) (pack 8 true) a
          (Mapped-update h.cell (p + 4) (pack 8 true) a (maps a l r)) in
      bind-run (put (p + 4) (pack 8 true)) _ h
        (put-run h (p + 4) 8 true (omega arith) (omega arith)
          (maps (p + 4) (omega arith) (omega arith)))
        (bind-run (put (p + 8) (pack 8 true)) _ (record h { cell = c₁ })
          (put-run (record h { cell = c₁ }) (p + 8) 8 true (omega arith) (omega arith)
            (Mapped-update h.cell (p + 4) (pack 8 true) (p + 8)
              (maps (p + 8) (omega arith) (omega arith))))
          (ap (λ t. tags (p + 12) t (record h { cell = c₂ })) (block_size n (omega arith) small)
            ∙ ap (λ q. tags q (n - 16) (record h { cell = c₂ })) header_place
            ∙ tags-run (record h { cell = c₂ }) (p + 16) (n - 16) false (omega arith) (omega arith)
                (omega arith) (omega arith) (maps₂ (p + 16 - 4) (omega arith) (omega arith))
                (maps₂ (p + 16 + (n - 16) - 8) (omega arith) (omega arith))
                (footer (p + 16) >>= λ f'. put (f' + 4) (pack 0 true) >> pure (p + 16))
                (bind-run (footer (p + 16)) _ (record h { cell = c₃ })
                  (footer-run (record h { cell = c₃ }) (p + 16) (n - 16) false (omega arith)
                    (omega arith) (omega arith) (omega arith)
                    (tagged-head c₂ (p + 16) (n - 16) false (omega arith)))
                  (bind-run (put (p + 16 + (n - 16) - 8 + 4) (pack 0 true)) _
                    (record h { cell = c₃ })
                    (put-run (record h { cell = c₃ }) (p + 16 + (n - 16) - 8 + 4) 0 true
                      (omega arith) (omega arith)
                      (Mapped-tagged c₂ (p + 16) (n - 16) false (p + 16 + (n - 16) - 8 + 4)
                        (maps₂ (p + 16 + (n - 16) - 8 + 4) (omega arith) (omega arith))))
                    refl))))
