-- ===== src/Matchlab/Conversion.antt =====
-- `a_model_conversion` of Matchlab/matchlab.c.
use cs4400_fall.Prelude.{ℕ, zero, suc, ◌≡◌, ◌≢◌, refl, [], ◌∷◌, some, ◌↔◌, get_elem?, arith}
use cs4400_fall.CString.{Bytes}
use cs4400_fall.Matchlab.{swap_letter, a_model_conversion}
use cs4400_fall.Matchlab.ModelA.{cons_part}

swap_letter_twice : (c : ℕ) → swap_letter (swap_letter c) ≡ c
unfolding swap_letter
swap_letter_twice c = ground arith

twice : (s : Bytes) → a_model_conversion (a_model_conversion s) ≡ s
unfolding a_model_conversion
twice [] = refl
twice (c ∷ s) = cons_part _ _ _ _ (swap_letter_twice c) (twice s)

d_for_f :
    (s : Bytes) (i : ℕ)
    → (get_elem? (a_model_conversion s) i ≡ some b'D') ↔ (get_elem? s i ≡ some b'F')
unfolding a_model_conversion swap_letter
d_for_f [] i = ground arith
d_for_f (c ∷ s) zero = ground arith
d_for_f (c ∷ s) (suc i) = d_for_f s i

f_for_d :
    (s : Bytes) (i : ℕ)
    → (get_elem? (a_model_conversion s) i ≡ some b'F') ↔ (get_elem? s i ≡ some b'D')
unfolding a_model_conversion swap_letter
f_for_d [] i = ground arith
f_for_d (c ∷ s) zero = ground arith
f_for_d (c ∷ s) (suc i) = f_for_d s i

same_else :
    (other : ℕ) (s : Bytes) (i : ℕ)
    → other ≢ b'D'
    → other ≢ b'F'
    → (get_elem? (a_model_conversion s) i ≡ some other) ↔ (get_elem? s i ≡ some other)
unfolding a_model_conversion swap_letter
same_else other [] i n k = ground arith
same_else other (c ∷ s) zero n k = ground arith
same_else other (c ∷ s) (suc i) n k = same_else other s i n k

-- The result of `a_model_conversion` has a D just where the string has an F, an F just where the
-- string has a D, and any other byte just where the string has it; the conversion of the result
-- gives the string back.
pub a_model_conversion-swaps :
    (s : Bytes) (other : ℕ)
    → other ≢ b'D'
    → other ≢ b'F'
    → (a_model_conversion (a_model_conversion s) ≡ s)
      × ((i : ℕ)
          → ((get_elem? (a_model_conversion s) i ≡ some b'D') ↔ (get_elem? s i ≡ some b'F'))
            × ((get_elem? (a_model_conversion s) i ≡ some b'F') ↔ (get_elem? s i ≡ some b'D'))
            × ((get_elem? (a_model_conversion s) i ≡ some other) ↔ (get_elem? s i ≡ some other)))
a_model_conversion-swaps s other n k =
    (twice s, λ i. (d_for_f s i, f_for_d s i, same_else other s i n k))
