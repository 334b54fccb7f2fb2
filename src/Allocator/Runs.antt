-- ===== src/Allocator/Runs.antt =====
-- What single macros of Malloclab/mm.c do at tags of real blocks, where no `int` overflows.
use cs4400_fall.Prelude.{
  ℕ, ◌+◌, ◌-◌, ◌%◌, ◌^◌, ◌<◌, ◌≤◌, ◌≡◌, ap, ◌∙◌, Bool, true, false, some, arith,
}
use cs4400_fall.Allocator.Memory.{
  Heap, update, Mapped, load, store, load-some, store-some, bind-run,
}
use cs4400_fall.Allocator.Tags.{
  to_int, to_size, pack, put, size_of, alloc_of, get_size, get_alloc, header, next_block, footer,
}

pub to_int-pack : (s : ℕ) (u : Bool) → s < 2 ^ 31 → to_int (pack s u) ≡ pack s u
unfolding to_int pack
to_int-pack s u h = ground arith

pub size_of-pack : (s : ℕ) (u : Bool) → s % 16 ≡ 0 → size_of (pack s u) ≡ s
unfolding size_of pack
size_of-pack s u h = ground arith

pub alloc_of-pack : (s : ℕ) (u : Bool) → s % 16 ≡ 0 → alloc_of (pack s u) ≡ u
unfolding alloc_of pack
alloc_of-pack s true h = ground arith
alloc_of-pack s false h = ground arith

pub to_size_small : (s : ℕ) → s < 2 ^ 31 → to_size s ≡ s
unfolding to_size
to_size_small s h = ground arith

pub put-run :
    (h : Heap) (p s : ℕ) (u : Bool)
    → 0 < p
    → s < 2 ^ 31
    → Mapped h.cell p
    → put p (pack s u) h ≡ some (tt, record h { cell = update h.cell p (pack s u) })
unfolding put
put-run h p s u real small m =
    ap (λ v. store p v h) (to_int-pack s u small) ∙ store-some h p (ground arith) (pack s u) m

module _ (h : Heap) (p s : ℕ) (u : Bool) (real : 0 < p) (aligned : s % 16 ≡ 0)
    (tag : h.cell p ≡ some (pack s u)) where
  pub get_size-run : get_size p h ≡ some (s, h)
  unfolding get_size
  get_size-run =
      bind-run (load p) _ h (load-some h p (ground arith) (pack s u) tag)
        (ap (λ n. some (n, h)) (size_of-pack s u aligned))

  pub get_alloc-run : get_alloc p h ≡ some (u, h)
  unfolding get_alloc
  get_alloc-run =
      bind-run (load p) _ h (load-some h p (ground arith) (pack s u) tag)
        (ap (λ b. some (b, h)) (alloc_of-pack s u aligned))

module _ (h : Heap) (x s : ℕ) (u : Bool) (real : 16 ≤ x) (aligned : s % 16 ≡ 0) (small : s < 2 ^ 31)
    (reach : x + s < 2 ^ 48) (tag : h.cell (x - 4) ≡ some (pack s u)) where
  pub footer-run : footer x h ≡ some (x + s - 8, h)
  unfolding footer
  footer-run =
      bind-run (get_size (header x)) _ h (get_size-run h (x - 4) s u (omega arith) aligned tag)
        (ap (λ n. some (n, h)) (omega (arith, to_size_small s small)))

  pub next_block-run : next_block x h ≡ some (x + s, h)
  unfolding next_block
  next_block-run =
      bind-run (get_size (header x)) _ h (get_size-run h (x - 4) s u (omega arith) aligned tag)
        (ap (λ n. some (n, h)) (omega (arith, to_size_small s small)))
