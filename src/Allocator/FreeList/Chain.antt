-- ===== src/Allocator/FreeList/Chain.antt =====
-- What the free list of Malloclab/mm.c looks like in memory: each block's links lead to the
-- blocks before and behind it.
use cs4400_fall.Prelude.{
  ◌+◌, ◌%◌, ◌<◌, ◌≡◌, ◌≢◌, refl, Bool, true, false, ◌||◌, List, [], ◌∷◌, ◌++◌, some, ◌==◌, arith,
  ◌∙◌,
}
use cs4400_fall.Allocator.Memory.{Ptr, null, Cells, Heap}

abbrev pub has : Ptr → List Ptr → Bool
has p [] = false
has p (x ∷ xs) = x == p || has p xs

-- The block that a list begins with, or NULL, and the one that it ends with.
abbrev pub first : List Ptr → Ptr
first [] = null
first (x ∷ xs) = x

abbrev pub last_of : Ptr → List Ptr → Ptr
last_of p [] = p
last_of p (x ∷ xs) = last_of x xs

-- Distinct aligned blocks, linked both ways; `prev` stands before them.
abbrev pub Chain : Cells → Ptr → List Ptr → Type 0
Chain c prev [] = Unit
Chain c prev (x ∷ xs) =
    (0 < x)
    × (x % 16 ≡ 0)
    × (c x ≡ some prev)
    × (c (x + 8) ≡ some (first xs))
    × (has x xs ≡ false)
    × Chain c x xs

-- The list that the global variable leads to.
abbrev pub IsFreeList : Heap → List Ptr → Type 0
IsFreeList h xs = (h.free_list_ptr ≡ first xs) × Chain h.cell null xs

pub has-append : (p : Ptr) (a b : List Ptr) → has p (a ++ b) ≡ (has p a || has p b)
has-append p [] b = refl
has-append p (x ∷ a) b = ground (arith, has-append p a b)

pub ne_of_has : (x y : Ptr) (xs : List Ptr) → has x xs ≡ true → has y xs ≡ false → x ≢ y
ne_of_has x y xs h k e = cc (rw e at h)

pub has_aligned :
    (c : Cells) (prev p : Ptr) (xs : List Ptr) → Chain c prev xs → has p xs ≡ true → p % 16 ≡ 0
has_aligned c prev p [] k h = ground arith
has_aligned c prev p (x ∷ xs) k h = ground (arith, has_aligned c x p xs k.5)

-- A chain depends on the links of its own blocks only.
pub Chain-frame :
    (c c' : Cells) (prev : Ptr) (xs : List Ptr)
    → ((x : Ptr) → has x xs ≡ true → (c' x ≡ c x) × (c' (x + 8) ≡ c (x + 8)))
    → Chain c prev xs
    → Chain c' prev xs
Chain-frame c c' prev [] same k = tt
Chain-frame c c' prev (x ∷ xs) same k =
    let here = same x (ground arith) in
    (
      k.0,
      k.1,
      here.0 ∙ k.2,
      here.1 ∙ k.3,
      k.4,
      Chain-frame c c' x xs (λ y h. same y (ground arith)) k.5,
    )

-- The first block may get another predecessor.
pub Chain-relink :
    (c c' : Cells) (prev prev' : Ptr) (xs : List Ptr)
    → (first xs ≢ null → c' (first xs) ≡ some prev')
    → ((x : Ptr) → has x xs ≡ true → c' (x + 8) ≡ c (x + 8))
    → ((x : Ptr) → has x xs ≡ true → x ≢ first xs → c' x ≡ c x)
    → Chain c prev xs
    → Chain c' prev' xs
Chain-relink c c' prev prev' [] head nexts prevs k = tt
Chain-relink c c' prev prev' (x ∷ xs) head nexts prevs k = (
  k.0,
  k.1,
  head (omega arith),
  nexts x (ground arith) ∙ k.3,
  k.4,
  Chain-frame c c' x xs
      (λ y h. (prevs y (ground arith) (ground (arith, k.4)), nexts y (ground arith))) k.5,
)
