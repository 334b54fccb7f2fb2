-- ===== src/Allocator/FreeList/Remove.antt =====
-- `remove_from_free_list` of Malloclab/mm.c takes a block out of the free list, wherever it stands.
use cs4400_fall.Prelude.{
  ◌+◌, ◌<◌, ◌≡◌, ◌≢◌, refl, true, false, List, [], ◌∷◌, ◌++◌, some, ◌==◌, arith, if◌then◌else◌, ◌⊎◌,
  inl, inr, Bool-cases,
}
use cs4400_fall.Allocator.Memory.{
  Ptr, null, Cells, Heap, update, Mapped, load, store, pure, bind-run,
}
use cs4400_fall.Allocator.FreeList.{remove_from_free_list, move_head, unlink_next, unlink_prev}
use cs4400_fall.Allocator.FreeList.Chain.{has, last_of, Chain}

-- The links that are written, between the blocks before and behind.
abbrev pub unlinked_next : Cells → Ptr → Ptr → Cells
unlinked_next c p n = if n == null then c else update c n p

abbrev pub unlinked : Cells → Ptr → Ptr → Cells
unlinked c p n = if p == null then unlinked_next c p n else update (unlinked_next c p n) (p + 8) n

module _ (c : Cells) (l bp p n : Ptr) (real : 0 < bp) (back : c bp ≡ some p)
    (on : c (bp + 8) ≡ some n) where
  move_head-run :
      p ≡ null
      → move_head bp (record { cell = c; free_list_ptr = l })
        ≡ some (tt, record { cell = c; free_list_ptr = n })
  unfolding move_head load
  move_head-run e = ground arith

  unlink_next-run :
      (n ≢ null → Mapped c n)
      → unlink_next bp (record { cell = c; free_list_ptr = l })
        ≡ some (tt, record { cell = unlinked_next c p n; free_list_ptr = l })
  unfolding unlink_next load store
  unlink_next-run m = ground arith

  unlink_prev-run :
      (p ≢ null → Mapped c (p + 8))
      → unlink_prev bp (record { cell = c; free_list_ptr = l })
        ≡ some
            (tt, record { cell = (if p == null then c else update c (p + 8) n); free_list_ptr = l })
  unfolding unlink_prev load store
  unlink_prev-run m = ground arith

module _ (c : Cells) (l bp p n : Ptr) (real : 0 < bp) (back : c bp ≡ some p)
    (on : c (bp + 8) ≡ some n) where
  head_run :
      ((bp == l) ≡ true) ⊎ ((bp == l) ≡ false)
      → (bp ≡ l → p ≡ null)
      → (if bp == l then move_head bp else pure tt) (record { cell = c; free_list_ptr = l })
        ≡ some (tt, record { cell = c; free_list_ptr = (if bp == l then n else l) })
  head_run (inl at) head = rw at (move_head-run c l bp p n real back on (head (ground arith)))
  head_run (inr off) head = rw off refl

  pub remove_from_free_list-run :
      (bp ≡ l → p ≡ null)
      → (n ≢ null → Mapped c n)
      → (p ≢ null → Mapped c (p + 8))
      → n ≢ bp
      → n ≢ bp + 8
      → remove_from_free_list bp (record { cell = c; free_list_ptr = l })
        ≡ some (tt, record { cell = unlinked c p n; free_list_ptr = (if bp == l then n else l) })
  unfolding remove_from_free_list
  remove_from_free_list-run head mn mp d e =
      let c' = unlinked_next c p n in
      let l' = if bp == l then n else l in
      let s : Heap = record { cell = c; free_list_ptr = l } in
      let s₁ : Heap = record { cell = c; free_list_ptr = l' } in
      let back' : c' bp ≡ some p = ground (arith, back) in
      let on' : c' (bp + 8) ≡ some n = ground (arith, on) in
      let mapped : p ≢ null → Mapped c' (p + 8) = λ q. ground (arith, mp q) in
      let moved = head_run (Bool-cases (bp == l)) head in
      bind-run (if bp == l then move_head bp else pure tt) _ s moved (
        bind-run (unlink_next bp) _ s₁ (unlink_next-run c l' bp p n real back on mn)
          (unlink_prev-run c' l' bp p n real back' on' mapped))

-- Every block of a chain is mapped, and so is the place behind its first word.
pub Chain-Mapped :
    (c : Cells) (prev : Ptr) (xs : List Ptr) (x : Ptr)
    → Chain c prev xs
    → has x xs ≡ true
    → (0 < x) × Mapped c x × Mapped c (x + 8)
Chain-Mapped c prev [] x k h = ground arith
Chain-Mapped c prev (y ∷ ys) x k h = ground (arith, Chain-Mapped c y ys x k.5)

-- The block before the first of `b` is the last of `a`, or `prev`.
pub Chain-at :
    (c : Cells) (prev : Ptr) (a : List Ptr) (bp : Ptr) (b : List Ptr)
    → Chain c prev (a ++ bp ∷ b)
    → Chain c (last_of prev a) (bp ∷ b)
Chain-at c prev [] bp b k = k
Chain-at c prev (x ∷ a) bp b k = Chain-at c x a bp b k.5
