-- ===== src/Matchlab.antt =====
-- Matchlab/matchlab.c: tests of strings against patterns, and their conversions. An index into
-- the sequence is the part of the string that begins there.
pub mod ModelA
pub mod Conversion
use cs4400_fall.Prelude.{
  ℕ, zero, suc, ◌+◌, Bool, true, false, ◌&&◌, List, [], ◌∷◌, Option, none, some, leb, ◌==◌,
  if◌then◌else◌,
}
use cs4400_fall.CString.{Bytes, isdigit}

-- The loop of `is_a_model` over the letters l: `none` is the return of 0. The index may not have
-- been set when the loop ends.
unfoldable pub scan_l : Bytes → ℕ → Option Bytes → Option (Option Bytes)
scan_l [] l_num index = some index
scan_l (c ∷ cs) l_num index =
    let rest = scan_l cs (suc l_num) (some (c ∷ cs)) in
    if c == b'l' then rest else if leb l_num 3 then some (some (c ∷ cs)) else none

-- The loop over the letters t.
unfoldable pub scan_t : Bytes → ℕ → Bytes → Option Bytes
scan_t [] t_num index = some index
scan_t (c ∷ cs) t_num index =
    let rest = scan_t cs (suc t_num) (c ∷ cs) in
    if c == b't' then rest else if leb 1 t_num && leb t_num 5 then some (c ∷ cs) else none

-- `sequence[i] == '\0'`, and `sequence[i + 1] == '\0'`.
abbrev pub is_end : Bytes → Bool
is_end [] = true
is_end (c ∷ cs) = false

abbrev pub is_last : Bytes → Bool
is_last [] = true
is_last (c ∷ cs) = is_end cs

-- The loop over the digits.
unfoldable pub scan_digits : Bytes → ℕ → Bool
unfolding isdigit
scan_digits [] dig_num = false
scan_digits (c ∷ cs) dig_num =
    let rest = scan_digits cs (suc dig_num) in
    if isdigit c then if is_end cs && leb (suc dig_num) 3 then true else rest else false

-- What follows the loop over the letters t.
abbrev pub after_t : Option Bytes → Bool
after_t none = false
after_t (some q) = scan_digits q 0

-- `none` is the read of an index that was not set.
unfoldable pub is_a_model : Bytes → Option Bool
is_a_model sequence = elim (scan_l sequence 0 none) [
  | none ↦ some false
  | some none ↦ none
  | some (some q) ↦ if is_last q then some false else some (after_t (scan_t q 0 q))
]

-- The exchange of D and F in place.
unfoldable pub swap_letter : ℕ → ℕ
swap_letter c = if c == b'D' then b'F' else if c == b'F' then b'D' else c

unfoldable pub a_model_conversion : Bytes → Bytes
a_model_conversion [] = []
a_model_conversion (c ∷ cs) = swap_letter c ∷ a_model_conversion cs
