-- ===== src/Allocator/Memory.antt =====
-- The memory that Malloclab/mm.c works on. A cell is what one access reads or writes: a block
-- tag (an `int`) or a link (a pointer), keyed by its address; `none` is a place that is not
-- mapped, and an access there, or through NULL, is a fault. The bytes of two different cells are
-- taken not to overlap: tags lie at 12 and 8 modulo 16, links at 0 and 8, and no block is
-- shorter than 32 bytes. The one global variable of mm.c is a field of the heap.
use cs4400_fall.Prelude.{
  ℕ, Bool, ◌≡◌, refl, true, false, Option, none, some, arith, ◌==◌, if◌then◌else◌,
}
use mathlib.Core.Path.{fun_ext}

abbrev pub Ptr : Type 0
Ptr = ℕ

abbrev pub null : Ptr
null = 0

abbrev pub Cells : Type 0
Cells = Ptr → Option ℕ

pub record Heap : Type 0 where
  pub cell : Cells
  pub free_list_ptr : Ptr

abbrev pub Cmd : Type 0 → Type 0
Cmd A = Heap → Option (A × Heap)

abbrev pub pure : {A : Type 0} → A → Cmd A
pure a h = some (a, h)

infixl 5 ◌>>=◌ ◌>>◌
abbrev pub ◌>>=◌ : {A B : Type 0} → Cmd A → (A → Cmd B) → Cmd B
◌>>=◌ m f h = elim (m h) [ none ↦ none | some (a, h') ↦ f a h' ]

abbrev pub ◌>>◌ : {B : Type 0} → Cmd (Unit {0}) → Cmd B → Cmd B
m >> k = m >>= λ _. k

abbrev pub fault : {A : Type 0} → Cmd A
fault h = none

abbrev pub is_some {ℓ} : {A : Type ℓ} → Option A → Bool
is_some none = false
is_some (some a) = true

abbrev pub update : Cells → Ptr → ℕ → Cells
update c p v q = if q == p then some v else c q

unfoldable pub load : Ptr → Cmd ℕ
load p h = if p == null then none else elim (h.cell p) [ none ↦ none | some v ↦ some (v, h) ]

unfoldable pub store : Ptr → ℕ → Cmd (Unit {0})
store p v h =
    if p == null
    then none
    else elim (h.cell p) [ none ↦ none | some _ ↦ some (tt, record h { cell = update h.cell p v }) ]

abbrev pub Mapped : Cells → Ptr → Type 0
Mapped c p = is_some (c p) ≡ true

-- Runs of single accesses.
module _ (h : Heap) (p : Ptr) (real : (p == null) ≡ false) where
  pub load-some : (v : ℕ) → h.cell p ≡ some v → load p h ≡ some (v, h)
  unfolding load
  load-some v e = ground arith

  pub store-some :
      (v : ℕ) → Mapped h.cell p → store p v h ≡ some (tt, record h { cell = update h.cell p v })
  unfolding store
  store-some v m = ground arith

pub Mapped-update : (c : Cells) (p : Ptr) (v : ℕ) (q : Ptr) → Mapped c q → Mapped (update c p v) q
Mapped-update c p v q m = ground arith

-- A run of a sequence, from the runs of its parts.
pub bind-run :
    {A B : Type 0} (m : Cmd A) (f : A → Cmd B) (h : Heap) {a : A} {h' : Heap}
    {r : Option (B × Heap)}
    → m h ≡ some (a, h')
    → f a h' ≡ r
    → (m >>= f) h ≡ r
bind-run m f h e k = rw (e, ◌>>=◌) k

-- A command behind a sequence may as well stand behind its last part.
bind_inner :
    {A B C : Type 0} (r : Option (A × Heap)) (f : A → Cmd B) (k : B → Cmd C)
    → elim r [ none ↦ none | some (a, h') ↦ (f a >>= k) h' ]
      ≡ elim (elim r as (λ _. Option (B × Heap)) [ none ↦ none | some (a, h') ↦ f a h' ]) [
        | none ↦ none
        | some (b, h'') ↦ k b h''
      ]
bind_inner none f k = refl
bind_inner (some (a, h')) f k = refl

pub bind_assoc :
    {A B C : Type 0} (m : Cmd A) (f : A → Cmd B) (k : B → Cmd C)
    → (m >>= λ a. f a >>= k) ≡ ((m >>= f) >>= k)
bind_assoc m f k = fun_ext λ h. bind_inner (m h) f k
