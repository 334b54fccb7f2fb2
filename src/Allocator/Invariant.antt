-- ===== src/Allocator/Invariant.antt =====
-- When the heap of Malloclab/mm.c is in order: blocks that carry their size twice, that do not
-- overlap, and of which the free ones are in the free list.
use cs4400_fall.Prelude.{
  ℕ, ◌+◌, ◌-◌, ◌%◌, ◌^◌, ◌<◌, ◌≤◌, ◌≡◌, ◌≢◌, ◌⊎◌, inl, inr, refl, sym, ◌∙◌, Bool, true, false, List,
  Option, some, arith,
}
use native.Mathlib.Decide.{ℕ_discrete}
use cs4400_fall.Allocator.Memory.{Ptr, Cells, Heap, Mapped}
use cs4400_fall.Allocator.Tags.{pack}
use cs4400_fall.Allocator.FreeList.Chain.{has, IsFreeList}

-- The blocks by address: their size, tags included, and whether they are in use.
abbrev pub Layout : Type 0
Layout = Ptr → Option (ℕ × Bool)

-- A block at `x` takes the bytes from its header on, up to the header of the next block.
abbrev pub Within : Ptr → ℕ → Ptr → Type 0
Within x s a = (x ≤ a + 4) × (a + 4 < x + s)

abbrev pub Apart : Ptr → ℕ → Ptr → ℕ → Type 0
Apart x s y t = (x + s ≤ y) ⊎ (y + t ≤ x)

pub record IsBlock (c : Cells) (x s : ℕ) (u : Bool) : Type 0 where
  pub real : 16 ≤ x
  pub aligned : x % 16 ≡ 0
  pub size_aligned : s % 16 ≡ 0
  pub size_min : 32 ≤ s
  pub size_max : s < 2 ^ 31
  pub in_reach : x + s < 2 ^ 48
  pub head : c (x - 4) ≡ some (pack s u)
  pub foot : c (x + s - 8) ≡ some (pack s u)
  pub mapped : (a : Ptr) → Within x s a → Mapped c a

pub IsBlock-same :
    (c : Cells) (x s : ℕ) (u : Bool) (y t : ℕ) (v : Bool)
    → x ≡ y
    → s ≡ t
    → u ≡ v
    → IsBlock c x s u
    → IsBlock c y t v
IsBlock-same c x s u y t v p q r b = rw (sym p, sym q, sym r) b

pub record Blocks (c : Cells) (g : Layout) : Type 0 where
  pub block : (x s : ℕ) (u : Bool) → g x ≡ some (s, u) → IsBlock c x s u
  pub apart :
      (x s : ℕ) (u : Bool) (y t : ℕ) (v : Bool)
      → g x ≡ some (s, u)
      → g y ≡ some (t, v)
      → x ≢ y
      → Apart x s y t

-- The free list holds just the free blocks.
pub record Lists (g : Layout) (fs : List Ptr) : Type 0 where
  pub listed : (x : Ptr) → has x fs ≡ true → (s : ℕ) × (g x ≡ some (s, false))
  pub free : (x s : ℕ) → g x ≡ some (s, false) → has x fs ≡ true

pub record IsHeap (h : Heap) (g : Layout) (fs : List Ptr) : Type 0 where
  pub blocks : Blocks h.cell g
  pub lists : Lists g fs
  pub list : IsFreeList h fs

-- Places in blocks that are apart differ.
pub ne_of_Apart : (x s y t a w : ℕ) → Apart x s y t → Within x s w → Within y t a → a ≢ w
ne_of_Apart x s y t a w p h k = omega arith

-- What an operation on the block at `x` may write: its own bytes, and links of free blocks.
abbrev pub Spares : Ptr → ℕ → List Ptr → Ptr → Type 0
Spares x s fs a =
    ((w : Ptr) → Within x s w → a ≢ w) × ((q : Ptr) → has q fs ≡ true → (a ≢ q) × (a ≢ q + 8))

pub record Local (c c' : Cells) (x s : ℕ) (fs : List Ptr) : Type 0 where
  pub same : (a : Ptr) → Spares x s fs a → c' a ≡ c a
  pub maps : (a : Ptr) → Mapped c a → Mapped c' a

-- The links of a block lie in it, and so do its tags.
pub link-Within :
    (c : Cells) (x s : ℕ) (u : Bool) → IsBlock c x s u → Within x s x × Within x s (x + 8)
link-Within c x s u b = (
  (omega (arith, b.real), omega (arith, b.size_min)),
  (omega (arith, b.real), omega (arith, b.size_min)),
)

pub tag-Within :
    (c : Cells) (x s a : ℕ) (u : Bool)
    → IsBlock c x s u
    → (a ≡ x - 4) ⊎ (a ≡ x + s - 8)
    → Within x s a
tag-Within c x s a u b w = (omega (arith, b.real, b.size_min), omega (arith, b.real, b.size_min))

-- No tag of a block lies on a link of it.
pub own_links :
    (c : Cells) (x s a : ℕ) (u : Bool)
    → IsBlock c x s u
    → (a ≡ x - 4) ⊎ (a ≡ x + s - 8)
    → (a ≢ x) × (a ≢ x + 8)
own_links c x s a u b w = (omega (arith, b.real, b.size_min), omega (arith, b.real, b.size_min))

pub layout_ne : (g : Layout) (x y s t : ℕ) → g x ≡ some (s, false) → g y ≡ some (t, true) → x ≢ y
layout_ne g x y s t e k p = cc (rw p at e)

module _ (c : Cells) (g : Layout) (fs : List Ptr) (b : Blocks c g) (l : Lists g fs) where
  -- The links of a free block spare every other block.
  pub other_links :
      (q y t a : ℕ) (u : Bool)
      → has q fs ≡ true
      → g y ≡ some (t, u)
      → q ≢ y
      → Within y t a
      → (a ≢ q) × (a ≢ q + 8)
  other_links q y t a u h e ne w =
      let (r, eq) = l.listed q h in
      let (first, second) = link-Within c q r false (b.block q r false eq) in
      let p = b.apart q r false y t u eq e ne in
      (ne_of_Apart q r y t a q p first w, ne_of_Apart q r y t a (q + 8) p second w)

  pub tag_links :
      (q y t a : ℕ) (u : Bool)
      → has q fs ≡ true
      → g y ≡ some (t, u)
      → (a ≡ y - 4) ⊎ (a ≡ y + t - 8)
      → (a ≢ q) × (a ≢ q + 8)
  tag_links q y t a u h e w = elim (ℕ_discrete q y) [
    | yes p ↦ rw p (own_links c y t a u (b.block y t u e) w)
    | no n ↦ other_links q y t a u h e n (tag-Within c y t a u (b.block y t u e) w)
  ]

  module _ (x s : ℕ) (at : g x ≡ some (s, false)) where
    -- A block in use is spared as a whole.
    pub used_spared : (y t a : ℕ) → g y ≡ some (t, true) → Within y t a → Spares x s fs a
    used_spared y t a e w = (
      λ v k.
          ne_of_Apart x s y t a v (b.apart x s false y t true at e (layout_ne g x y s t at e)) k w,
      λ q h.
          let (r, eq) = l.listed q h in other_links q y t a true h e (layout_ne g q y r t eq e) w,
    )

    -- The tags of another block are spared.
    pub tag_spared :
        (y t : ℕ) (u : Bool) (a : ℕ)
        → g y ≡ some (t, u)
        → x ≢ y
        → (a ≡ y - 4) ⊎ (a ≡ y + t - 8)
        → Spares x s fs a
    tag_spared y t u a e ne w = (
      λ v k.
          ne_of_Apart x s y t a v (b.apart x s false y t u at e ne) k
            (tag-Within c y t a u (b.block y t u e) w),
      λ q h. tag_links q y t a u h e w,
    )

    -- So another block stays what it is under an operation on the block at `x`.
    pub Local-IsBlock :
        (c' : Cells) (y t : ℕ) (u : Bool)
        → Local c c' x s fs
        → g y ≡ some (t, u)
        → x ≢ y
        → IsBlock c' y t u
    Local-IsBlock c' y t u k e ne =
        let old = b.block y t u e in
        record {
          real = old.real;
          aligned = old.aligned;
          size_aligned = old.size_aligned;
          size_min = old.size_min;
          size_max = old.size_max;
          in_reach = old.in_reach;
          head = k.same (y - 4) (tag_spared y t u (y - 4) e ne (inl refl)) ∙ old.head;
          foot = k.same (y + t - 8) (tag_spared y t u (y + t - 8) e ne (inr refl)) ∙ old.foot;
          mapped = λ a w. k.maps a (old.mapped a w);
        }
