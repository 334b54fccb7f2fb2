-- ===== src/CString/Search.antt =====
-- `strchr` splits a string at the first occurrence of a byte.
use mathlib.Core.Bool.{not}
use cs4400_fall.Prelude.{
  ℕ, ◌≡◌, refl, Bool, true, false, [], ◌∷◌, ◌++◌, arith, none, some, ◌==◌, ◌||◌,
}
use cs4400_fall.CString.{Bytes, strchr}

-- Whether a byte occurs.
abbrev pub has : ℕ → Bytes → Bool
has c [] = false
has c (x ∷ xs) = x == c || has c xs

pub strchr-append : (c : ℕ) (a b : Bytes) → has c a ≡ false → strchr c (a ++ c ∷ b) ≡ some (a, b)
unfolding strchr
strchr-append c [] b h = ground arith
strchr-append c (x ∷ a) b h = ground (arith, strchr-append c a b)

pub strchr-none : (c : ℕ) (s : Bytes) → has c s ≡ false → strchr c s ≡ none
unfolding strchr
strchr-none c [] h = refl
strchr-none c (x ∷ s) h = ground (arith, strchr-none c s)

pub strchr-eq-some :
    (c : ℕ) (s a b : Bytes) → strchr c s ≡ some (a, b) → (s ≡ a ++ c ∷ b) × (has c a ≡ false)
unfolding strchr
strchr-eq-some c [] a b h = ground arith
strchr-eq-some c (x ∷ s) [] b h = ground arith
strchr-eq-some c (x ∷ s) (y ∷ a) b h = ground (arith, strchr-eq-some c s a b)

-- Whether the search fails is whether the byte does not occur.
pub strchr-has :
    (c : ℕ) (s : Bytes) → (elim (strchr c s) [ none ↦ true | some _ ↦ false ]) ≡ not (has c s)
unfolding strchr
strchr-has c [] = refl
strchr-has c (x ∷ s) = ground (arith, strchr-has c s)
