-- ===== src/Script/Rounds.antt =====
-- The loops of Shelllab/parse.c come to an end: each round passes a byte.
use mathlib.Core.Logic.{◌≢◌}
use cs4400_fall.Prelude.{
  ℕ, zero, suc, ◌-◌, ◌<◌, ◌≤◌, ◌&&◌, ◌||◌, List, [], ◌∷◌, ◌++◌, ◌==◌, leb, Option, none, some,
  length, drop, arith,
}
use cs4400_fall.CString.{Bytes, char_at, isspace, isdigit, terminated, str_eq, strn_eq}
use cs4400_fall.Script.{
  Var, Argument, Command, Mode, group_single, group_and, group_or, Result, ok, out_of_rounds, ◌>>=◌,
  Ensures, holds, refused,
}
use cs4400_fall.Script.Tokens.{skip_space, ends}
use cs4400_fall.Script.Parser.{
  Step, another, pid, finished, parse_pid, parse_argument, parse_arguments, parse_command, combiner,
  parse_commands, repeat_word, has_non_ascii, chomp, read_digits, parse_repeat, parse_result,
  parse_group, fgets, parse_line, parse_lines, parse_script_file, max_line_length,
}
use cs4400_fall.Script.Shrinks.{
  Ensures-if, Ensures-bind, length-skip_space, length-drop, parse_literal-Ensures,
  parse_variable-Ensures,
}

-- What a round of the loop of `parse_command` leaves.
abbrev Leaves : Bytes → Step → Type 0
Leaves s (another a rest vars) = length rest < length s
Leaves s (pid i rest vars) = length rest ≤ length s
Leaves s finished = Unit

module _ (line : Bytes) where
  parse_pid-Ensures :
      (whole s : Bytes) (vars : List Var)
      → length s ≤ length whole
      → Ensures (Leaves whole) (parse_pid line s vars)
  unfolding parse_pid
  parse_pid-Ensures whole s vars l =
      Ensures-if (char_at s 0 == b'$')
        (λ _. Ensures-bind (parse_variable-Ensures line s vars) (λ r h.
          Ensures-if (ends (skip_space r.1)) (λ _. holds (omega (arith, length-skip_space r.1)))
            (λ _. refused)))
        (λ _. refused)

  parse_argument-Ensures :
      (s : Bytes) (vars : List Var) → Ensures (Leaves s) (parse_argument line s vars)
  unfolding parse_argument
  parse_argument-Ensures s vars =
      Ensures-if (char_at s 0 == b'$')
        (λ _. Ensures-bind (parse_variable-Ensures line s vars) (λ r h. holds h))
        (λ _.
          Ensures-if (char_at s 0 == b'@')
            (λ _.
              parse_pid-Ensures s (skip_space (drop 1 s)) vars
                (omega (arith, length-skip_space (drop 1 s), length-drop 1 s)))
            (λ _.
              Ensures-bind (parse_literal-Ensures line s)
                (λ t h. Ensures-if (t.len == 0) (λ _. holds tt) (λ n. holds (ground arith)))))

  abbrev Within : Bytes → List Argument × Option ℕ × Bytes × List Var → Type 0
  Within s r = length r.2 ≤ length s

  -- A round, and those behind it.
  step-Ensures :
      (s : Bytes) (vars : List Var)
      (again : Bytes → List Var → Result (List Argument × Option ℕ × Bytes × List Var))
      (step : Step)
      → Leaves (skip_space s) step
      → ((rest : Bytes) (vars' : List Var)
          → length rest < length (skip_space s)
          → Ensures (Within rest) (again rest vars'))
      → Ensures (Within s) (elim step [
        | another argument rest vars' ↦ do
          (arguments, pid_to, rest', vars'') ← again rest vars'
          ok (argument ∷ arguments, pid_to, rest', vars'')
        | pid var rest vars' ↦ ok ([], some var, rest, vars')
        | finished ↦ ok ([], none, skip_space s, vars)
      ])
  step-Ensures s vars again (another a rest vars') l ih =
      Ensures-bind (ih rest vars' l) (λ r h. holds (omega (arith, length-skip_space s)))
  step-Ensures s vars again (pid i rest vars') l ih = holds (omega (arith, length-skip_space s))
  step-Ensures s vars again finished l ih = holds (length-skip_space s)

  parse_arguments-Ensures :
      (rounds : ℕ) (s : Bytes) (vars : List Var)
      → length s < rounds
      → Ensures (Within s) (parse_arguments line rounds s vars)
  unfolding parse_arguments
  parse_arguments-Ensures zero s vars l = absurd (omega arith)
  parse_arguments-Ensures (suc rounds) s vars l =
      Ensures-bind (parse_argument-Ensures (skip_space s) vars) (λ step h.
        step-Ensures s vars (parse_arguments line rounds) step h (λ rest vars' m.
          parse_arguments-Ensures rounds rest vars' (omega (arith, length-skip_space s))))

  abbrev LeavesLess : Bytes → Command × Bytes × List Var → Type 0
  LeavesLess s r = length r.1 < length s

  parse_command-Ensures :
      (s : Bytes) (vars : List Var) → Ensures (LeavesLess s) (parse_command line s vars)
  unfolding parse_command
  parse_command-Ensures s vars = Ensures-bind (parse_literal-Ensures line s) (λ t h.
      Ensures-if (t.len == 0) (λ _. refused)
        (λ n.
          Ensures-bind (parse_arguments-Ensures (suc (length t.rest)) t.rest vars (omega arith))
            (λ r k. holds (ground arith))))

  combiner-Ensures :
      (mode : Mode) (s : Bytes)
      → Ensures (λ (r : Mode × Bytes). length r.1 ≤ length s) (combiner line mode s)
  unfolding combiner
  combiner-Ensures group_single s =
      Ensures-if (char_at s 1 == b'|') (λ _. holds (length-drop 2 s)) (λ _. holds (length-drop 1 s))
  combiner-Ensures group_and s =
      Ensures-if (char_at s 1 == b'|') (λ _. refused) (λ _. holds (length-drop 1 s))
  combiner-Ensures group_or s =
      Ensures-if (char_at s 1 == b'|') (λ _. holds (length-drop 2 s)) (λ _. refused)

  parse_commands-Ensures :
      (rounds : ℕ) (mode : Mode) (s : Bytes) (vars : List Var)
      → length s < rounds
      → Ensures (λ _. Unit {0}) (parse_commands line rounds mode s vars)
  unfolding parse_commands
  parse_commands-Ensures zero mode s vars l = absurd (omega arith)
  parse_commands-Ensures (suc rounds) mode s vars l =
      Ensures-bind (parse_command-Ensures s vars) (λ c h.
        Ensures-if (char_at (skip_space c.1) 0 == 0) (λ _. holds tt)
          (λ _.
            Ensures-if (char_at (skip_space c.1) 0 == b'|')
              (λ _. Ensures-bind (combiner-Ensures mode (skip_space c.1)) (λ m k.
                Ensures-if (char_at (skip_space m.1) 0 == 0) (λ _. refused)
                  (λ _.
                    Ensures-bind
                      (parse_commands-Ensures rounds m.0 (skip_space m.1) c.2
                        (omega (arith, length-skip_space c.1, length-skip_space m.1)))
                      (λ _ _. holds tt))))
              (λ _. refused)))

  parse_repeat-Ensures : (s : Bytes) → Ensures (λ _. Unit {0}) (parse_repeat line s)
  unfolding parse_repeat
  parse_repeat-Ensures s =
      let digits = skip_space (drop 7 s) in
      Ensures-if (strn_eq s (repeat_word ++ b' ' ∷ []) 7)
        (λ _.
          Ensures-if (isdigit (char_at digits 0) && isspace (char_at (read_digits 0 digits).1 0))
            (λ _. holds tt) (λ _. refused))
        (λ _. Ensures-if (str_eq s repeat_word) (λ _. refused) (λ _. holds tt))

  parse_result-Ensures :
      (s : Bytes) (vars : List Var) → Ensures (λ _. Unit {0}) (parse_result line s vars)
  unfolding parse_result
  parse_result-Ensures s vars =
      Ensures-if (char_at s 0 == b'$')
        (λ _.
          Ensures-bind (parse_variable-Ensures line s vars)
            (λ r h. Ensures-if (char_at (skip_space r.1) 0 == b'=') (λ _. holds tt) (λ _. refused)))
        (λ _. holds tt)

  parse_group-Ensures :
      (s : Bytes) (vars : List Var) → Ensures (λ _. Unit {0}) (parse_group line s vars)
  unfolding parse_group
  parse_group-Ensures s vars = Ensures-bind (parse_repeat-Ensures (skip_space s)) (λ n _.
      Ensures-bind (parse_result-Ensures n.1 vars) (λ r _.
        Ensures-if (char_at r.1 0 == 0) (λ _. refused)
          (λ _.
            Ensures-bind
              (parse_commands-Ensures (suc (length r.1)) group_single r.1 r.2 (omega arith))
              (λ _ _. holds tt))))

parse_line-Ensures : (s : Bytes) (vars : List Var) → Ensures (λ _. Unit {0}) (parse_line s vars)
unfolding parse_line
parse_line-Ensures s vars =
    let line = terminated s in
    let at = skip_space (chomp line) in
    Ensures-if (has_non_ascii line) (λ _. refused)
      (λ _.
        Ensures-if (leb (max_line_length - 1) (length line)) (λ _. refused)
          (λ _.
            Ensures-if (char_at at 0 == 0 || char_at at 0 == b'#') (λ _. holds tt)
              (λ _. Ensures-bind (parse_group-Ensures (chomp line) at vars) (λ _ _. holds tt))))

length-fgets : (n : ℕ) (s : Bytes) → length (fgets n s).1 ≤ length s
unfolding fgets
length-fgets zero s = omega arith
length-fgets (suc n) [] = omega arith
length-fgets (suc n) (c ∷ s) = ground (arith, length-fgets n s)

length_lt-fgets : (n c : ℕ) (s : Bytes) → length (fgets (suc n) (c ∷ s)).1 < length (c ∷ s)
unfolding fgets
length_lt-fgets n c s = ground (arith, length-fgets n s)

parse_lines-Ensures :
    (rounds : ℕ) (s : Bytes) (vars : List Var)
    → length s ≤ rounds
    → Ensures (λ _. Unit {0}) (parse_lines rounds s vars)
unfolding parse_lines
parse_lines-Ensures rounds [] vars l = holds tt
parse_lines-Ensures zero (c ∷ s) vars l = absurd (omega arith)
parse_lines-Ensures (suc rounds) (c ∷ s) vars l =
    Ensures-bind (parse_line-Ensures (fgets (max_line_length - 1) (c ∷ s)).0 vars) (λ g _.
      Ensures-bind
        (parse_lines-Ensures rounds (fgets (max_line_length - 1) (c ∷ s)).1 g.1
          (omega (arith, length_lt-fgets 1022 c s)))
        (λ _ _. holds tt))

Ensures-out_of_rounds {ℓ κ} :
    {A : Type ℓ} {P : A → Type κ} {r : Result A} → Ensures P r → r ≢ out_of_rounds
Ensures-out_of_rounds (holds h) = cc
Ensures-out_of_rounds refused = cc

-- On any file, of any bytes, the parser comes to an end: the rounds that its loops are given are
-- enough, so it returns a script or an error.
pub parse_script_file-out_of_rounds :
    (contents : Option Bytes) (vars : List Var) → parse_script_file contents vars ≢ out_of_rounds
unfolding parse_script_file
parse_script_file-out_of_rounds none vars = cc
parse_script_file-out_of_rounds (some s) vars =
    Ensures-out_of_rounds (parse_lines-Ensures (length s) s vars (omega arith))
