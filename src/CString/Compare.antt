-- ===== src/CString/Compare.antt =====
-- The comparisons of C strings are equality, equality up to case, and equality of prefixes.
use cs4400_fall.Prelude.{
  Bool, ◌&&◌, ltb, ◌≡◌, refl, ◌↔◌, true, [], ◌∷◌, ◌++◌, arith, take, map, length,
}
use cs4400_fall.CString.{Bytes, IsText, terminated, tolower, str_eq, strn_eq, str_case_eq}

pub str_eq_iff : (a b : Bytes) → (str_eq a b ≡ true) ↔ (a ≡ b)
unfolding str_eq
str_eq_iff (x ∷ a) (y ∷ b) = ground (arith, str_eq_iff a b)
str_eq_iff _ _ = ground arith

pub str_case_eq_iff : (a b : Bytes) → (str_case_eq a b ≡ true) ↔ (map tolower a ≡ map tolower b)
unfolding str_case_eq
str_case_eq_iff (x ∷ a) (y ∷ b) = ground (arith, str_case_eq_iff a b)
str_case_eq_iff [] [] = ground arith
str_case_eq_iff [] (y ∷ b) = ground arith
str_case_eq_iff (x ∷ a) [] = ground arith

pub strn_eq_iff : (a b : Bytes) → (strn_eq a b (length a) ≡ true) ↔ (take (length a) b ≡ a)
unfolding strn_eq
strn_eq_iff [] b = ground arith
strn_eq_iff (x ∷ a) [] = ground arith
strn_eq_iff (x ∷ a) (y ∷ b) = ground (arith, strn_eq_iff a b)

pub terminated-append : (a b : Bytes) → IsText a → terminated (a ++ 0 ∷ b) ≡ a
unfolding terminated
terminated-append [] b t = refl
terminated-append (c ∷ cs) b t = ground (arith, terminated-append cs b)

pub IsText-append : (a b : Bytes) → IsText a → IsText b → IsText (a ++ b)
IsText-append [] b h k = k
IsText-append (c ∷ a) b h k = (h.0, h.1, IsText-append a b h.2 k)

-- A test for text.
abbrev pub is_text : Bytes → Bool
is_text [] = true
is_text (c ∷ s) = ltb 0 c && ltb c 256 && is_text s

pub is_text-IsText : (s : Bytes) → is_text s ≡ true → IsText s
is_text-IsText [] h = tt
is_text-IsText (c ∷ s) h = ground (arith, is_text-IsText s)
