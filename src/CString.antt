-- ===== src/CString.antt =====
-- C strings as lists of bytes, and what the sources use of string.h, strings.h and ctype.h.
-- A `char *` is the list of the bytes before its terminator; `terminated` cuts a buffer there.
-- The character classes are those of the C locale, with no byte above 127 in any class.
pub mod Compare
pub mod Search
use Prim.Native.String.{String}
use Prim.Native.Char.{code}
use cs4400_fall.Prelude.{
  ℕ, zero, suc, ◌+◌, ◌-◌, ◌/◌, ◌%◌, ◌<◌, ◌≡◌, Bool, true, false, ◌&&◌, ◌||◌, not, List, [], ◌∷◌,
  ◌++◌, ltb, leb, ◌==◌, if◌then◌else◌, Option, none, some, get_elem?,
}

abbrev pub Bytes : Type 0
Bytes = List ℕ

-- The bytes of a literal.
abbrev pub codes : String → Bytes
codes String.[] = []
codes (String.◌∷◌ c s) = code c ∷ codes s

-- The string in a buffer: the bytes before the first zero.
unfoldable pub terminated : Bytes → Bytes
terminated [] = []
terminated (c ∷ cs) = if c == 0 then [] else c ∷ terminated cs

-- No byte is the terminator, and every one fits 8 bits.
abbrev pub IsText : Bytes → Type 0
IsText [] = Unit
IsText (c ∷ cs) = (0 < c) × (c < 256) × IsText cs

abbrev pub within : ℕ → ℕ → ℕ → Bool
within lo hi c = leb lo c && leb c hi

unfoldable pub isdigit : ℕ → Bool
isdigit = within b'0' b'9'

unfoldable pub isupper : ℕ → Bool
isupper = within b'A' b'Z'

unfoldable pub islower : ℕ → Bool
islower = within b'a' b'z'

unfoldable pub isalpha : ℕ → Bool
unfolding isupper islower
isalpha c = isupper c || islower c

-- Space, and the five control characters from tab to carriage return.
unfoldable pub isspace : ℕ → Bool
isspace c = c == 32 || within 9 13 c

unfoldable pub tolower : ℕ → ℕ
unfolding isupper
tolower c = if isupper c then c + 32 else c

-- The byte that `s[i]` reads: the terminator behind the last byte.
unfoldable pub char_at : Bytes → ℕ → ℕ
char_at [] i = 0
char_at (c ∷ cs) zero = c
char_at (c ∷ cs) (suc i) = char_at cs i

-- `!strcmp(a, b)`
unfoldable pub str_eq : Bytes → Bytes → Bool
str_eq [] [] = true
str_eq (x ∷ xs) (y ∷ ys) = x == y && str_eq xs ys
str_eq _ _ = false

-- `!strncmp(a, b, n)`
unfoldable pub strn_eq : Bytes → Bytes → ℕ → Bool
strn_eq a b zero = true
strn_eq [] [] (suc n) = true
strn_eq (x ∷ xs) (y ∷ ys) (suc n) = x == y && strn_eq xs ys n
strn_eq _ _ _ = false

-- `!strcasecmp(a, b)`
unfoldable pub str_case_eq : Bytes → Bytes → Bool
unfolding tolower
str_case_eq [] [] = true
str_case_eq (x ∷ xs) (y ∷ ys) = tolower x == tolower y && str_case_eq xs ys
str_case_eq _ _ = false

-- `strchr(s, c)`: what stands before the first `c`, and what stands behind it.
unfoldable pub strchr : ℕ → Bytes → Option (Bytes × Bytes)
strchr c [] = none
strchr c (x ∷ xs) =
    let rest = strchr c xs in
    if x == c then some ([], xs) else elim rest [ none ↦ none | some (a, b) ↦ some (x ∷ a, b) ]

-- `%ld` of a number that is not negative: its last `n` digits in front of some text, without zeros
-- before the first digit.
unfoldable pub digits : ℕ → ℕ → Bytes → Bytes
digits zero v s = s
digits (suc n) v s =
    let rest = digits n (v / 10) ((b'0' + v % 10) ∷ s) in
    if ltb v 10 then (b'0' + v % 10) ∷ s else rest
