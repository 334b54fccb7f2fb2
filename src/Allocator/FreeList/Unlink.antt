-- ===== src/Allocator/FreeList/Unlink.antt =====
-- The free list of Malloclab/mm.c after a block has been taken out.
use cs4400_fall.Prelude.{
  ◌+◌, ◌%◌, ◌<◌, ◌≡◌, ◌≢◌, refl, sym, true, false, List, [], ◌∷◌, ◌++◌, some, ◌==◌, arith,
  if◌then◌else◌, ◌∙◌, ◌⊎◌, inl, inr,
}
use cs4400_fall.Allocator.Memory.{Ptr, null, Cells, Heap}
use cs4400_fall.Allocator.FreeList.{remove_from_free_list}
use cs4400_fall.Allocator.FreeList.Chain.{
  has, first, last_of, Chain, IsFreeList, Chain-relink, has_aligned, has-append, ne_of_has,
}
use cs4400_fall.Allocator.FreeList.Remove.{
  unlinked, remove_from_free_list-run, Chain-Mapped, Chain-at,
}

module _ (c : Cells) (p n x : Ptr) (pa : p % 16 ≡ 0) (na : n % 16 ≡ 0) where
  pub unlinked-next : x % 16 ≡ 0 → x ≢ p → unlinked c p n (x + 8) ≡ c (x + 8)
  unlinked-next xa ne = ground arith

  pub unlinked-prev : x % 16 ≡ 0 → x ≢ n → unlinked c p n x ≡ c x
  unlinked-prev xa ne = ground arith

module _ (c : Cells) (p n : Ptr) (pa : p % 16 ≡ 0) (na : n % 16 ≡ 0) where
  unlinked-first : n ≢ null → unlinked c p n n ≡ some p
  unlinked-first ne = ground arith

  unlinked-last : p ≢ null → unlinked c p n (p + 8) ≡ some n
  unlinked-last ne = ground arith

first_aligned : (c : Cells) (prev : Ptr) (b : List Ptr) → Chain c prev b → first b % 16 ≡ 0
first_aligned c prev [] k = omega arith
first_aligned c prev (x ∷ b) k = k.1

last_aligned :
    (c : Cells) (prev : Ptr) (a b : List Ptr)
    → prev % 16 ≡ 0
    → Chain c prev (a ++ b)
    → last_of prev a % 16 ≡ 0
last_aligned c prev [] b h k = h
last_aligned c prev (x ∷ a) b h k = last_aligned c x a b k.1 k.5

has-last_of : (x : Ptr) (a : List Ptr) → has (last_of x a) (x ∷ a) ≡ true
has-last_of x [] = ground arith
has-last_of x (y ∷ a) = ground (arith, has-last_of y a)

has-first : (x : Ptr) (b : List Ptr) → 0 < x → has x b ≡ false → x ≢ first b
has-first x [] h k = omega arith
has-first x (y ∷ b) h k = ground arith

-- A block that is not in the whole list is in no part of it.
pub not-has-append :
    (x bp : Ptr) (a b : List Ptr)
    → has x (a ++ bp ∷ b) ≡ false
    → (has x a ≡ false) × (bp ≢ x) × (has x b ≡ false)
not-has-append x bp a b h = ground (arith, has-append x a (bp ∷ b))

-- Either nothing stands before the chain, or a block that is not in it.
abbrev IsBefore : Ptr → List Ptr → Type 0
IsBefore prev xs = (prev ≡ null) ⊎ (has prev xs ≡ false)

ne-before :
    (c : Cells) (prev bp x : Ptr) (b : List Ptr)
    → IsBefore prev (bp ∷ b)
    → Chain c bp b
    → has x b ≡ true
    → x ≢ prev
ne-before c prev bp x b (inl e) k h = ground (arith, (Chain-Mapped c bp b x k h).0)
ne-before c prev bp x b (inr n) k h = ne_of_has x prev b h (ground arith)

module _ (c : Cells) (bp : Ptr) (b : List Ptr) where
  unlinked-head :
      (prev : Ptr)
      → prev % 16 ≡ 0
      → IsBefore prev (bp ∷ b)
      → Chain c prev (bp ∷ b)
      → Chain (unlinked c prev (first b)) prev b
  unlinked-head prev pa before k =
      let na = first_aligned c bp b k.5 in
      Chain-relink c _ bp prev b (unlinked-first c prev (first b) pa na)
        (λ x h.
          unlinked-next c prev (first b) x pa na (has_aligned c bp x b k.5 h)
            (ne-before c prev bp x b before k.5 h))
        (λ x h ne. unlinked-prev c prev (first b) x pa na (has_aligned c bp x b k.5 h) ne) k.5

  unlinked-Chain :
      (a : List Ptr) (prev : Ptr)
      → prev % 16 ≡ 0
      → IsBefore prev (a ++ bp ∷ b)
      → Chain c prev (a ++ bp ∷ b)
      → Chain (unlinked c (last_of prev a) (first b)) prev (a ++ b)
  unlinked-Chain [] prev pa before k = unlinked-head prev pa before k
  unlinked-Chain (x ∷ []) prev pa before k =
      let na = first_aligned c bp b k.5.5 in
      let (_, _, out) = not-has-append x bp [] b k.4 in
      (
        k.0,
        k.1,
        unlinked-prev c x (first b) x k.1 na k.1 (has-first x b k.0 out) ∙ k.2,
        unlinked-last c x (first b) k.1 na (omega arith),
        out,
        unlinked-head x k.1 (inr k.4) k.5,
      )
  unlinked-Chain (x ∷ y ∷ a) prev pa before k =
      let p = last_of y a in
      let na = first_aligned c bp b (Chain-at c x (y ∷ a) bp b k.5).5 in
      let la = last_aligned c x (y ∷ a) (bp ∷ b) k.1 k.5 in
      let (out_a, _, out_b) = not-has-append x bp (y ∷ a) b k.4 in
      let ne_last : x ≢ p = λ e. ne_of_has p x (y ∷ a) (has-last_of y a) out_a (sym e) in
      (
        k.0,
        k.1,
        unlinked-prev c p (first b) x la na k.1 (has-first x b k.0 out_b) ∙ k.2,
        unlinked-next c p (first b) x la na k.1 ne_last ∙ k.3,
        has-append x (y ∷ a) b ∙ rw (out_a, out_b) refl,
        unlinked-Chain (y ∷ a) x k.1 (inr k.4) k.5,
      )

pub first_mem : (b : List Ptr) → first b ≢ null → has (first b) b ≡ true
first_mem [] h = absurd (h refl)
first_mem (x ∷ b) h = ground arith

pub last_mem : (a b : List Ptr) → last_of null a ≢ null → has (last_of null a) (a ++ b) ≡ true
last_mem [] b h = absurd (h refl)
last_mem (x ∷ a) b h = has-append (last_of x a) (x ∷ a) b ∙ rw (has-last_of x a) refl

module _ (c : Cells) (bp : Ptr) (b : List Ptr) where
  -- The list begins with the block only if nothing stands before it.
  new_head :
      (a : List Ptr) (l : Ptr)
      → l ≡ first (a ++ bp ∷ b)
      → Chain c null (a ++ bp ∷ b)
      → ((if bp == l then first b else l) ≡ first (a ++ b)) × (bp ≡ l → last_of null a ≡ null)
  new_head [] l e k = (ground arith, λ _. refl)
  new_head (x ∷ a) l e k =
      let (_, ne, _) = not-has-append x bp a b k.4 in (ground arith, λ q. absurd (ne (q ∙ e)))

-- On a free list that holds a block, `remove_from_free_list` runs without a fault, and leaves the
-- same list without the block; it writes no cell but links of the two neighbours.
pub remove_from_free_list-IsFreeList :
    (h : Heap) (a : List Ptr) (bp : Ptr) (b : List Ptr)
    → IsFreeList h (a ++ bp ∷ b)
    → (h' : Heap) × (remove_from_free_list bp h ≡ some (tt, h'))
      × IsFreeList h' (a ++ b)
      × (h'.cell ≡ unlinked h.cell (last_of null a) (first b))
remove_from_free_list-IsFreeList h a bp b f =
    let c = h.cell in
    let p = last_of null a in
    let n = first b in
    let k = Chain-at c null a bp b f.1 in
    let (head, alone) = new_head c bp b a h.free_list_ptr f.0 f.1 in
    (
      record {
        cell = unlinked c p n;
        free_list_ptr = (if bp == h.free_list_ptr then n else h.free_list_ptr);
      },
      remove_from_free_list-run c h.free_list_ptr bp p n k.0 k.2 k.3 alone
          (λ q. (Chain-Mapped c bp b n k.5 (first_mem b q)).1)
          (λ q. (Chain-Mapped c null (a ++ bp ∷ b) p f.1 (last_mem a (bp ∷ b) q)).2)
          (λ q. has-first bp b k.0 k.4 (sym q)) (omega (arith, first_aligned c bp b k.5, k.1)),
      (head, unlinked-Chain c bp b a null refl (inl refl) f.1),
      refl,
    )
