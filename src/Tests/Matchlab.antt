-- ===== src/Tests/Matchlab.antt =====
-- The patterns of Matchlab/matchlab.c at concrete strings.
use cs4400_fall.Prelude.{
  ℕ, get_elem?, ◌≡◌, ◌↔◌, refl, Bool, true, false, [], ◌∷◌, some, none, arith,
}
use cs4400_fall.CString.{Bytes, isdigit}
use cs4400_fall.Matchlab.{scan_l, scan_t, scan_digits, is_a_model, a_model_conversion}
use cs4400_fall.Matchlab.ModelA.{IsModelA, is_a_model-IsModelA}
use cs4400_fall.Matchlab.Conversion.{a_model_conversion-swaps}

abbrev ltt4 : Bytes
ltt4 = b'l' ∷ b't' ∷ b't' ∷ b'4' ∷ []

ltt4_run : is_a_model ltt4 ≡ some true
unfolding is_a_model scan_l scan_t scan_digits isdigit
ltt4_run = refl

tt_run : is_a_model (b't' ∷ b't' ∷ []) ≡ some false
unfolding is_a_model scan_l scan_t scan_digits isdigit
tt_run = refl

empty_run : is_a_model [] ≡ none
unfolding is_a_model scan_l
empty_run = refl

is_a_model-IsModelA_example : (b : Bool) × (is_a_model ltt4 ≡ some b) × ((b ≡ true) ↔ IsModelA ltt4)
is_a_model-IsModelA_example = is_a_model-IsModelA ltt4 (λ k. ground arith)

abbrev fdl : Bytes
fdl = b'F' ∷ b'D' ∷ b'l' ∷ []

a_model_conversion-swaps_example :
    (a_model_conversion (a_model_conversion fdl) ≡ fdl)
    × ((i : ℕ)
        → ((get_elem? (a_model_conversion fdl) i ≡ some b'D') ↔ (get_elem? fdl i ≡ some b'F'))
          × ((get_elem? (a_model_conversion fdl) i ≡ some b'F') ↔ (get_elem? fdl i ≡ some b'D'))
          × ((get_elem? (a_model_conversion fdl) i ≡ some b'l') ↔ (get_elem? fdl i ≡ some b'l')))
a_model_conversion-swaps_example = a_model_conversion-swaps fdl b'l' (ground arith) (ground arith)
