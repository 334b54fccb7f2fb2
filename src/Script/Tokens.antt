-- ===== src/Script/Tokens.antt =====
-- Shelllab/parse.c: spaces, literals and variables. A position in the line is the part of the
-- line from there on, which has no zero byte.
use mathlib.Core.Option.{map}
use cs4400_fall.Prelude.{
  ℕ, suc, Bool, true, false, ◌||◌, not, List, [], ◌∷◌, ◌++◌, ◌==◌, if◌then◌else◌, Option, none,
  some, length, drop,
}
use cs4400_fall.CString.{Bytes, char_at, isdigit, isalpha, isspace, strn_eq}
use cs4400_fall.Script.{
  Var, not_a_variable, bad_variable, unterminated_quote, bad_literal, Result, ok, failed,
}

unfoldable pub issep : ℕ → Bool
issep c = c == b'|'

unfoldable pub skip_space : Bytes → Bytes
skip_space [] = []
skip_space (c ∷ cs) = let rest = skip_space cs in if isspace c then rest else c ∷ cs

-- Where a literal or a variable may end.
unfoldable pub ends : Bytes → Bool
ends s = char_at s 0 == 0 || isspace (char_at s 0) || issep (char_at s 0)

-- The loop condition of `parse_literal`, but for the quote.
unfoldable pub is_literal_char : ℕ → Bool
is_literal_char c =
    isalpha c
    || isdigit c
    || c == b'.'
    || c == b':'
    || c == b'_'
    || c == b'-'
    || c == b'='
    || c == b'/'

-- The length in the line, the text without quotes, and the rest of the line.
pub record Token : Type 0 where
  pub len : ℕ
  pub literal : Bytes
  pub rest : Bytes

-- `lit_buffer[lit_len++] = buffer[len++]` and `len++`, in front of a token.
abbrev pub copied : ℕ → Token → Token
copied c t = record t { len = suc t.len; literal = c ∷ t.literal }

abbrev pub passed : Token → Token
passed t = record t { len = suc t.len }

-- The two loops of `parse_literal`; `quoted` is whether the inner one runs. A quote that is not
-- closed is a `none`.
unfoldable pub scan_literal : (quoted : Bool) → Bytes → Option Token
scan_literal true [] = none
scan_literal false [] = some (record { len = 0; literal = []; rest = [] })
scan_literal true (c ∷ cs) = elim (c == b'"') [
  | true ↦ map passed (scan_literal false cs)
  | false ↦ map (copied c) (scan_literal true cs)
]
scan_literal false (c ∷ cs) = elim (c == b'"') [
  | true ↦ map passed (scan_literal true cs)
  | false ↦ elim (is_literal_char c) [
    | true ↦ map (copied c) (scan_literal false cs)
    | false ↦ some (record { len = 0; literal = []; rest = c ∷ cs })
  ]
]

unfoldable pub parse_literal : (buffer_start buffer : Bytes) → Result Token
parse_literal buffer_start buffer = elim (scan_literal false buffer) [
  | none ↦ failed (unterminated_quote buffer buffer_start)
  | some t ↦ if ends t.rest then ok t else failed (bad_literal t.rest buffer_start)
]

-- The loop for `len` in `parse_variable`: the name, and what is behind it.
unfoldable pub name_run : Bytes → Bytes × Bytes
name_run [] = ([], [])
name_run (c ∷ cs) =
    let (a, rest) = name_run cs in if isalpha c || isdigit c then (c ∷ a, rest) else ([], c ∷ cs)

-- The loop over the table: the first variable whose name begins with the `len` bytes.
unfoldable pub find_var : Bytes → ℕ → List Var → Option ℕ
find_var text len [] = none
find_var text len (v ∷ vars) =
    let behind = map suc (find_var text len vars) in
    if strn_eq text v.name len then some 0 else behind

-- What follows the loop for `len`.
unfoldable pub variable_named :
    (buffer_start buffer name rest : Bytes) → List Var → Result (ℕ × Bytes × List Var)
variable_named buffer_start buffer name rest vars =
    if length name == 0 || not (ends rest)
    then failed (bad_variable buffer buffer_start)
    else elim (find_var (drop 1 buffer) (length name) vars) [
      | some i ↦ ok (i, rest, vars)
      | none ↦ ok (length vars, rest, vars ++ record { name = name; value = b'0' ∷ [] } ∷ [])
    ]

unfoldable pub parse_variable :
    (buffer_start buffer : Bytes) → List Var → Result (ℕ × Bytes × List Var)
parse_variable buffer_start buffer vars =
    if char_at buffer 0 == b'$'
    then variable_named buffer_start buffer (name_run (drop 1 buffer)).0
        (name_run (drop 1 buffer)).1 vars
    else failed not_a_variable
