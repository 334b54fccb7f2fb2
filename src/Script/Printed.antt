-- ===== src/Script/Printed.antt =====
-- Tokens of Shelllab/parse.c as `print_script` prints them.
use cs4400_fall.Prelude.{
  ℕ, suc, ◌<◌, ◌≡◌, ◌≢◌, refl, ap, ◌∙◌, Bool, true, false, ◌||◌, List, [], ◌∷◌, ◌++◌, ◌==◌, some,
  length, arith, All,
}
use cs4400_fall.CString.{Bytes, char_at, isdigit, isalpha, isupper, islower, isspace}
use cs4400_fall.Script.{Var, ok}
use cs4400_fall.Script.Tokens.{
  issep, ends, is_literal_char, scan_literal, parse_literal, name_run, find_var, variable_named,
  parse_variable,
}

-- A text that can stand between quotes.
abbrev pub IsQuotable : Bytes → Type 0
IsQuotable = All (λ c. c ≢ b'"')

end_char : ℕ → Bool
unfolding isspace issep
end_char c = c == 0 || isspace c || issep c

not_literal :
    (c : ℕ)
    → (c == 0 || isspace c || issep c) ≡ true
    → (is_literal_char c ≡ false) × ((c == b'"') ≡ false)
unfolding is_literal_char isalpha isdigit isupper islower isspace issep
not_literal c h = ground arith

scan_end :
    (s : Bytes)
    → ends s ≡ true
    → scan_literal false s ≡ some (record { len = 0; literal = []; rest = s })
unfolding scan_literal ends char_at
scan_end [] h = refl
scan_end (c ∷ s) h = ground (arith, not_literal c h)

scan-quoted :
    (lit s : Bytes)
    → IsQuotable lit
    → ends s ≡ true
    → scan_literal true (lit ++ b'"' ∷ s)
      ≡ some (record { len = suc (length lit); literal = lit; rest = s })
unfolding scan_literal
scan-quoted [] s q e = rw (scan_end s e) refl
scan-quoted (c ∷ lit) s q e = ground (arith, q.0, scan-quoted lit s q.1 e)

pub parse_literal-quoted :
    (line lit s : Bytes)
    → IsQuotable lit
    → ends s ≡ true
    → parse_literal line (b'"' ∷ lit ++ b'"' ∷ s)
      ≡ ok (record { len = suc (suc (length lit)); literal = lit; rest = s })
unfolding parse_literal scan_literal
parse_literal-quoted line lit s q e = rw (scan-quoted lit s q e, e) refl

pub parse_literal_end :
    (line s : Bytes)
    → ends s ≡ true
    → parse_literal line s ≡ ok (record { len = 0; literal = []; rest = s })
unfolding parse_literal
parse_literal_end line s e = ground (arith, scan_end s e, e)

-- A name of letters and digits.
abbrev pub IsName : Bytes → Type 0
IsName name = (0 < length name) × All (λ c. (isalpha c || isdigit c) ≡ true) name

not_name : (c : ℕ) → (c == 0 || isspace c || issep c) ≡ true → (isalpha c || isdigit c) ≡ false
unfolding isalpha isdigit isupper islower isspace issep
not_name c h = ground arith

name_run_end : (s : Bytes) → ends s ≡ true → name_run s ≡ ([], s)
unfolding name_run ends char_at
name_run_end [] h = refl
name_run_end (c ∷ s) h = rw (not_name c h) refl

name_run-append :
    (name s : Bytes)
    → All (λ c. (isalpha c || isdigit c) ≡ true) name
    → ends s ≡ true
    → name_run (name ++ s) ≡ (name, s)
unfolding name_run
name_run-append [] s h e = name_run_end s e
name_run-append (c ∷ name) s h e = rw (name_run-append name s h.1 e, h.0) refl

-- The table knows a variable by its name: no variable before it has a name that begins with that.
abbrev pub IsNamed : List Var → ℕ → Bytes → Type 0
IsNamed vars i name = (s : Bytes) → find_var (name ++ s) (length name) vars ≡ some i

pub parse_variable-named :
    (line name s : Bytes) (vars : List Var) (i : ℕ)
    → IsName name
    → IsNamed vars i name
    → ends s ≡ true
    → parse_variable line (b'$' ∷ name ++ s) vars ≡ ok (i, s, vars)
unfolding parse_variable variable_named char_at
parse_variable-named line name s vars i (l, h) known e =
    let some_name : (length name == 0) ≡ false = ground arith in
    let named : variable_named line (b'$' ∷ name ++ s) name s vars ≡ ok (i, s, vars) =
      rw (some_name, e, known s) refl in
    ap (λ p. variable_named line (b'$' ∷ name ++ s) p.0 p.1 vars) (name_run-append name s h e)
    ∙ named
