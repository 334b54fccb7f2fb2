-- ===== src/Allocator/Find.antt =====
-- The loop of `mm_malloc` of Malloclab/mm.c finds the first free block that is large enough.
use cs4400_fall.Prelude.{
  ℕ, zero, suc, ◌+◌, ◌-◌, ◌^◌, ◌<◌, ◌≤◌, ◌≡◌, ◌≢◌, refl, ap, ◌∙◌, Bool, true, false, List, [], ◌∷◌,
  ◌++◌, none, some, leb, ◌==◌, arith, if◌then◌else◌, length, Bool-cases, inl, inr,
}
use cs4400_fall.Allocator.Memory.{Ptr, null, Heap, Cmd, bind-run, ◌>>=◌, pure, load-some}
use cs4400_fall.Allocator.Tags.{header, get_size, get_alloc, ge_int, next_node}
use cs4400_fall.Allocator.Blocks.{find_fit}
use cs4400_fall.Allocator.FreeList.Chain.{has, first, Chain}
use cs4400_fall.Allocator.Invariant.{Layout, Blocks}
use cs4400_fall.Allocator.Runs.{get_size-run, get_alloc-run}

abbrev pub size_at : Layout → Ptr → ℕ
size_at g x = elim (g x) [ none ↦ 0 | some (s, _) ↦ s ]

size_at_eq : (g : Layout) (x s : ℕ) → g x ≡ some (s, false) → s ≡ size_at g x
size_at_eq g x s at = rw (at, size_at) refl

-- First fit, on the list of the free blocks.
abbrev pub first_fit : Layout → ℕ → List Ptr → Ptr
first_fit g n [] = null
first_fit g n (x ∷ xs) = if leb n (size_at g x) then x else first_fit g n xs

has-here : (x : Ptr) (fs : List Ptr) → has x (x ∷ fs) ≡ true
has-here x fs = ground arith

ge_int_small : (s n : ℕ) → s < 2 ^ 31 → n < 2 ^ 31 → ge_int s n ≡ leb n s
unfolding ge_int
ge_int_small s n hs hn = ground arith

if_run :
    (c : Bool) (m k k' : Cmd Ptr) (h : Heap)
    → k h ≡ k' h
    → (if c then m else k) h ≡ (if c then m else k') h
if_run true m k k' h e = refl
if_run false m k k' h e = e

if_pure :
    (c : Bool) (x y : Ptr) (k : Cmd Ptr) (h : Heap)
    → k h ≡ some (y, h)
    → (if c then pure x else k) h ≡ some ((if c then x else y), h)
if_pure true x y k h e = refl
if_pure false x y k h e = e

module _ (h : Heap) (g : Layout) (b : Blocks h.cell g) (n : ℕ) (small : n < 2 ^ 31) where
  -- One round of the loop.
  round_run :
      (rounds x y s : ℕ)
      → g x ≡ some (s, false)
      → h.cell (x + 8) ≡ some y
      → find_fit (suc rounds) n x h ≡ (if leb n s then pure x else find_fit rounds n y) h
  unfolding find_fit
  round_run rounds x y s at next =
      let o = b.block x s false at in
      let head_size : get_size (header x) h ≡ some (s, h) =
        get_size-run h (x - 4) s false (omega (arith, o.real)) o.size_aligned o.head in
      let head_alloc : get_alloc (header x) h ≡ some (false, h) =
        get_alloc-run h (x - 4) s false (omega (arith, o.real)) o.size_aligned o.head in
      let go : next_node x h ≡ some (y, h) = load-some h (x + 8) (ground arith) y next in
      let there : (x == null) ≡ false = ground (arith, o.real) in
      let test = ge_int_small s n o.size_max small in
      let branch =
        ap (λ (c : Bool). (if c then pure x else (next_node x >>= find_fit rounds n)) h) test
        ∙ if_run (leb n s) (pure x) _ _ h (bind-run (next_node x) (find_fit rounds n) h go refl) in
      rw there (
        bind-run (get_alloc (header x)) _ h head_alloc
          (bind-run (get_size (header x)) _ h head_size branch))

  -- On blocks in order, with a round for each block of a linked list of free blocks, the loop of
  -- `mm_malloc` for fewer than 2 ^ 31 bytes runs without a fault, changes nothing, and returns the
  -- first block of the list that is large enough, or NULL if none is.
  pub find_fit-first :
      (prev rounds : ℕ) (fs : List Ptr)
      → Chain h.cell prev fs
      → ((x : Ptr) → has x fs ≡ true → (s : ℕ) × (g x ≡ some (s, false)))
      → length fs ≤ rounds
      → find_fit rounds n (first fs) h ≡ some (first_fit g n fs, h)
  unfolding find_fit
  find_fit-first prev zero [] k listed enough = refl
  find_fit-first prev (suc rounds) [] k listed enough = refl
  find_fit-first prev zero (x ∷ fs) k listed enough = absurd (omega arith)
  find_fit-first prev (suc rounds) (x ∷ fs) k listed enough =
      let (s, at) = listed x (has-here x fs) in
      let rest = find_fit-first x rounds fs k.5 (λ y m. listed y (ground arith)) (omega arith) in
      round_run rounds x (first fs) s at k.3
      ∙ if_pure (leb n s) x (first_fit g n fs) (find_fit rounds n (first fs)) h rest
      ∙ ap (λ t. some ((if leb n t then x else first_fit g n fs), h)) (size_at_eq g x s at)

-- What first fit finds is a block of the list, and large enough.
pub first_fit-found :
    (g : Layout) (n : ℕ) (fs : List Ptr)
    → first_fit g n fs ≢ null
    → (a : List Ptr) × (b : List Ptr) × (fs ≡ a ++ first_fit g n fs ∷ b)
      × (n ≤ size_at g (first_fit g n fs))
first_fit-found g n [] ne = absurd (ne refl)
first_fit-found g n (x ∷ fs) ne = elim (Bool-cases (leb n (size_at g x))) [
  | inl fits ↦ ([], fs, rw fits refl, rw fits (ground arith))
  | inr short ↦
      let (a, b, e, m) = first_fit-found g n fs (λ q. ne (rw short q)) in
      (x ∷ a, b, rw short (ap (λ l. x ∷ l) e), rw short m)
]
