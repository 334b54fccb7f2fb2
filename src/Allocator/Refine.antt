-- ===== src/Allocator/Refine.antt =====
-- A block of the heap of Malloclab/mm.c may be cut into parts, and its use may change.
use cs4400_fall.Prelude.{ℕ, ◌+◌, ◌≤◌, ◌≡◌, ◌≢◌, ◌⊎◌, inl, inr, Bool, false, List, some, arith}
use cs4400_fall.Allocator.Memory.{Ptr, Cells}
use cs4400_fall.Allocator.Invariant.{Layout, Apart, IsBlock, Blocks, Lists, Local, Local-IsBlock}

module _ (c c' : Cells) (g g' : Layout) (fs : List Ptr) (b : Blocks c g) (l : Lists g fs) (x s : ℕ)
    (at : g x ≡ some (s, false)) (k : Local c c' x s fs) (Part : ℕ → ℕ → Type 0)
    (part_in : (y t : ℕ) → Part y t → (x ≤ y) × (y + t ≤ x + s))
    (part_apart : (y t z r : ℕ) → Part y t → Part z r → y ≢ z → Apart y t z r)
    (cover : (y t : ℕ) (u : Bool)
      → g' y ≡ some (t, u)
      → (Part y t × IsBlock c' y t u) ⊎ ((x ≢ y) × (g y ≡ some (t, u)))) where
  Apart-cases :
      (y t : ℕ) (u : Bool) (z r : ℕ) (v : Bool)
      → (Part y t × IsBlock c' y t u) ⊎ ((x ≢ y) × (g y ≡ some (t, u)))
      → (Part z r × IsBlock c' z r v) ⊎ ((x ≢ z) × (g z ≡ some (r, v)))
      → y ≢ z
      → Apart y t z r
  Apart-cases y t u z r v (inl p) (inl q) ne = part_apart y t z r p.0 q.0 ne
  Apart-cases y t u z r v (inl p) (inr q) ne =
      omega (arith, part_in y t p.0, b.apart x s false z r v at q.1 q.0)
  Apart-cases y t u z r v (inr p) (inl q) ne =
      omega (arith, part_in z r q.0, b.apart x s false y t u at p.1 p.0)
  Apart-cases y t u z r v (inr p) (inr q) ne = b.apart y t u z r v p.1 q.1 ne

  IsBlock-cases :
      (y t : ℕ) (u : Bool)
      → (Part y t × IsBlock c' y t u) ⊎ ((x ≢ y) × (g y ≡ some (t, u)))
      → IsBlock c' y t u
  IsBlock-cases y t u (inl p) = p.1
  IsBlock-cases y t u (inr p) = Local-IsBlock c g fs b l x s at c' y t u k p.1 p.0

  pub Blocks-refine : Blocks c' g'
  Blocks-refine = record {
    block = λ y t u e. IsBlock-cases y t u (cover y t u e);
    apart = λ y t u z r v e f ne. Apart-cases y t u z r v (cover y t u e) (cover z r v f) ne;
  }
