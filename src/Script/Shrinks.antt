-- ===== src/Script/Shrinks.antt =====
-- What a token of Shelllab/parse.c leaves of the line.
use mathlib.Core.Option.{map}
use cs4400_fall.Prelude.{
  ℕ, zero, suc, ◌+◌, ◌<◌, ◌≤◌, ◌≡◌, refl, Bool, true, false, not, ◌||◌, List, [], ◌∷◌, ◌++◌, ◌==◌,
  if◌then◌else◌, Option, none, some, length, drop, arith,
}
use cs4400_fall.CString.{Bytes, char_at}
use cs4400_fall.Script.{
  Var, Result, unterminated_quote, bad_literal, ok, failed, ◌>>=◌, Ensures, holds, refused,
}
use cs4400_fall.Script.Tokens.{
  skip_space, ends, is_literal_char, Token, copied, passed, scan_literal, parse_literal, name_run,
  find_var, variable_named, parse_variable,
}

pub Ensures-if {ℓ κ} :
    {A : Type ℓ} {P : A → Type κ} (b : Bool) {x y : Result A}
    → (b ≡ true → Ensures P x)
    → (b ≡ false → Ensures P y)
    → Ensures P (if b then x else y)
Ensures-if true f g = f refl
Ensures-if false f g = g refl

pub Ensures-bind {ℓ κ ℓ' κ'} :
    {A : Type ℓ} {P : A → Type κ} {B : Type ℓ'} {Q : B → Type κ'} {r : Result A} {f : A → Result B}
    → Ensures P r
    → ((a : A) → P a → Ensures Q (f a))
    → Ensures Q (r >>= f)
Ensures-bind (holds {a} h) k = k a h
Ensures-bind refused k = refused

pub length-skip_space : (s : Bytes) → length (skip_space s) ≤ length s
unfolding skip_space
length-skip_space [] = omega arith
length-skip_space (c ∷ s) = ground (arith, length-skip_space s)

pub length-drop : (n : ℕ) (s : Bytes) → length (drop n s) ≤ length s
length-drop zero s = omega arith
length-drop (suc n) [] = omega arith
length-drop (suc n) (c ∷ s) = omega (arith, length-drop n s)

-- A token and the rest of the line make up the line.
abbrev Covers : ℕ → Option Token → Type 0
Covers n none = Unit
Covers n (some t) = t.len + length t.rest ≡ n

Covers-copied : (c n : ℕ) (o : Option Token) → Covers n o → Covers (suc n) (map (copied c) o)
Covers-copied c n none h = tt
Covers-copied c n (some t) h = omega arith

Covers-passed : (n : ℕ) (o : Option Token) → Covers n o → Covers (suc n) (map passed o)
Covers-passed n none h = tt
Covers-passed n (some t) h = omega arith

Covers-elim :
    (n : ℕ) (b : Bool) (x y : Option Token)
    → Covers n x
    → Covers n y
    → Covers n (elim b [ true ↦ x | false ↦ y ])
Covers-elim n true x y h k = h
Covers-elim n false x y h k = k

scan_literal-Covers : (quoted : Bool) (s : Bytes) → Covers (length s) (scan_literal quoted s)
unfolding scan_literal
scan_literal-Covers true [] = tt
scan_literal-Covers false [] = omega arith
scan_literal-Covers true (c ∷ s) =
    Covers-elim (suc (length s)) (c == b'"') _ _
      (Covers-passed (length s) (scan_literal false s) (scan_literal-Covers false s))
      (Covers-copied c (length s) (scan_literal true s) (scan_literal-Covers true s))
scan_literal-Covers false (c ∷ s) =
    Covers-elim (suc (length s)) (c == b'"') _ _
      (Covers-passed (length s) (scan_literal true s) (scan_literal-Covers true s))
      (Covers-elim (suc (length s)) (is_literal_char c) _ _
        (Covers-copied c (length s) (scan_literal false s) (scan_literal-Covers false s))
        (omega arith))

abbrev pub IsTokenOf : Bytes → Token → Type 0
IsTokenOf s t = t.len + length t.rest ≡ length s

pub parse_literal-Ensures : (line s : Bytes) → Ensures (IsTokenOf s) (parse_literal line s)
unfolding parse_literal
parse_literal-Ensures line s = go (scan_literal false s) (scan_literal-Covers false s)
  where
    go :
        (o : Option Token)
        → Covers (length s) o
        → Ensures (IsTokenOf s) (elim o [
          | none ↦ failed (unterminated_quote s line)
          | some t ↦ if ends t.rest then ok t else failed (bad_literal t.rest line)
        ])
    go none h = refused
    go (some t) h = Ensures-if (ends t.rest) (λ _. holds h) (λ _. refused)

length-name_run : (s : Bytes) → length (name_run s).1 ≤ length s
unfolding name_run
length-name_run [] = omega arith
length-name_run (c ∷ s) = ground (arith, length-name_run s)

length_lt-drop : (s : Bytes) (c : ℕ) → 0 < c → char_at s 0 ≡ c → length (drop 1 s) < length s
unfolding char_at
length_lt-drop [] c l e = absurd (omega arith)
length_lt-drop (d ∷ s) c l e = omega arith

abbrev pub Shrinks : Bytes → ℕ × Bytes × List Var → Type 0
Shrinks s r = length r.1 < length s

variable_named-Ensures :
    (line s name rest : Bytes) (vars : List Var)
    → length rest < length s
    → Ensures (Shrinks s) (variable_named line s name rest vars)
unfolding variable_named
variable_named-Ensures line s name rest vars l =
    Ensures-if (length name == 0 || not (ends rest)) (λ _. refused)
      (λ _. go (find_var (drop 1 s) (length name) vars))
  where
    go :
        (o : Option ℕ)
        → Ensures (Shrinks s) (elim o [
          | some i ↦ ok (i, rest, vars)
          | none ↦ ok (length vars, rest, vars ++ record { name = name; value = b'0' ∷ [] } ∷ [])
        ])
    go none = holds l
    go (some i) = holds l

pub parse_variable-Ensures :
    (line s : Bytes) (vars : List Var) → Ensures (Shrinks s) (parse_variable line s vars)
unfolding parse_variable
parse_variable-Ensures line s vars =
    Ensures-if (char_at s 0 == b'$')
      (λ h. variable_named-Ensures line s (name_run (drop 1 s)).0 (name_run (drop 1 s)).1 vars (
        omega
          (arith, length-name_run (drop 1 s), length_lt-drop s b'$' (omega arith) (ground arith))))
      (λ _. refused)
