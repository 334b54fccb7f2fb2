-- ===== src/Tests/Script.antt =====
-- Shelllab/parse.c on concrete scripts.
use cs4400_fall.Prelude.{
  ◌≡◌, ◌≢◌, refl, Bool, true, not, ◌&&◌, ltb, ◌==◌, List, [], ◌∷◌, none, some, All, arith,
}
use cs4400_fall.CString.{
  Bytes, digits, isalpha, isdigit, isupper, islower, isspace, char_at, strn_eq,
}
use cs4400_fall.Script.{
  Var, Command, argument_literal, argument_variable, group_single, group_and, group_or, Group, ok,
  failed, out_of_rounds, unterminated_quote, missing_after_combiner, mixed_combiners,
}
use cs4400_fall.Script.Tokens.{find_var, name_run, parse_variable, variable_named, ends, issep}
use cs4400_fall.Script.Parser.{parse_group, parse_script_file}
use cs4400_fall.Script.Printer.{
  mode_sign, name_of, print_int, print_command, print_group, print_script, print_arguments,
  print_argument, print_pid, print_more, print_commands, print_repeats, print_result,
}
use cs4400_fall.Script.Printed.{IsQuotable}
use cs4400_fall.Script.Commands.{IsPrintableCommand}
use cs4400_fall.Script.File.{IsPlain, IsPrintableLine, parse_script_file-print_script}
use cs4400_fall.Script.Rounds.{parse_script_file-out_of_rounds}
use cs4400_fall.Script.Refusals.{parse_group-refusals}

abbrev is_plain : Bytes → Bool
is_plain [] = true
is_plain (c ∷ s) = ltb 0 c && ltb c 128 && not (c == 10) && is_plain s

is_plain-IsPlain : (s : Bytes) → is_plain s ≡ true → IsPlain s
is_plain-IsPlain [] h = tt
is_plain-IsPlain (c ∷ s) h = ground (arith, is_plain-IsPlain s)

abbrev is_quotable : Bytes → Bool
is_quotable [] = true
is_quotable (c ∷ s) = not (c == b'"') && is_quotable s

is_quotable-IsQuotable : (s : Bytes) → is_quotable s ≡ true → IsQuotable s
is_quotable-IsQuotable [] h = tt
is_quotable-IsQuotable (c ∷ s) h = ground (arith, is_quotable-IsQuotable s)

-- Two variables, `x` and `pid2`.
abbrev table : List Var
table =
    record { name = b'x' ∷ []; value = b'0' ∷ [] }
    ∷ record { name = b'p' ∷ b'i' ∷ b'd' ∷ b'2' ∷ []; value = b'0' ∷ [] }
    ∷ []

abbrev ls : Command
ls = record {
  program = b'l' ∷ b's' ∷ [];
  arguments = argument_literal (b'a' ∷ b' ' ∷ b'|' ∷ []) ∷ argument_variable 0 ∷ [];
  pid_to = some 1;
}

abbrev wc : Command
wc = record { program = b'w' ∷ b'c' ∷ []; arguments = []; pid_to = none }

-- repeat 12 $x = "ls" "a |" $x @ $pid2 | "wc"
abbrev pipeline : Group
pipeline = record { mode = group_and; repeats = 12; result_to = some 0; commands = ls ∷ wc ∷ [] }

abbrev single : Group
single = record { mode = group_single; repeats = 1; result_to = none; commands = wc ∷ [] }

ls-IsPrintable : IsPrintableCommand table ls
unfolding name_of find_var strn_eq isalpha isdigit isupper islower
ls-IsPrintable = (
  is_quotable-IsQuotable ls.program refl,
  (
    is_quotable-IsQuotable (b'a' ∷ b' ' ∷ b'|' ∷ []) refl,
    (((omega arith, (refl, tt)), λ s. refl), tt),
  ),
  ((omega arith, (refl, (refl, (refl, (refl, tt))))), λ s. refl),
)

wc-IsPrintable : IsPrintableCommand table wc
wc-IsPrintable = (is_quotable-IsQuotable wc.program refl, tt, tt)

script-IsPrintable : All (IsPrintableLine table) (pipeline ∷ single ∷ [])
unfolding name_of find_var strn_eq isalpha isdigit isupper islower digits print_int print_command
    print_group print_arguments print_argument print_pid print_more print_commands print_repeats
    print_result
script-IsPrintable = (
  (
    (
      omega arith,
      ((omega arith, (refl, tt)), λ s. refl),
      (ls-IsPrintable, (wc-IsPrintable, tt)),
      tt,
    ),
    is_plain-IsPlain (print_group table pipeline []) refl,
    omega arith,
  ),
  (
    (
      (omega arith, tt, (wc-IsPrintable, tt), refl),
      is_plain-IsPlain (print_group table single []) refl,
      omega arith,
    ),
    tt,
  ),
)

parse_script_file-print_script_example :
    parse_script_file (some (print_script table (pipeline ∷ single ∷ []))) table
    ≡ ok (pipeline ∷ single ∷ [], table)
parse_script_file-print_script_example =
    parse_script_file-print_script table (pipeline ∷ single ∷ []) script-IsPrintable

parse_script_file-out_of_rounds_example :
    parse_script_file (some (b'l' ∷ b's' ∷ b' ' ∷ b'@' ∷ 10 ∷ [])) [] ≢ out_of_rounds
parse_script_file-out_of_rounds_example =
    parse_script_file-out_of_rounds (some (b'l' ∷ b's' ∷ b' ' ∷ b'@' ∷ 10 ∷ [])) []

parse_group-refusals_example :
    (parse_group [] (print_group table pipeline (b' ' ∷ mode_sign group_and (b' ' ∷ []))) table
      ≡ failed (missing_after_combiner []))
    × (parse_group []
          (print_group table pipeline (b' ' ∷ mode_sign group_or (b' ' ∷ b'a' ∷ [])))
          table
        ≡ failed (mixed_combiners (mode_sign group_or (b' ' ∷ b'a' ∷ [])) []))
    × (parse_group []
          (print_group table pipeline (b' ' ∷ mode_sign group_and (b' ' ∷ b'"' ∷ b'l' ∷ [])))
          table
        ≡ failed (unterminated_quote (b'"' ∷ b'l' ∷ []) []))
    × (parse_group [] (b'"' ∷ b'l' ∷ []) table ≡ failed (unterminated_quote (b'"' ∷ b'l' ∷ []) []))
parse_group-refusals_example =
    parse_group-refusals [] table pipeline pipeline group_and group_or (b'l' ∷ []) (b'a' ∷ [])
      script-IsPrintable.0.0 script-IsPrintable.0.0 tt tt (is_quotable-IsQuotable (b'l' ∷ []) refl)

-- A variable whose name another one's begins with is taken for that one.
prefix_run : parse_variable [] (b'$' ∷ b'p' ∷ b'i' ∷ b'd' ∷ []) table ≡ ok (1, [], table)
unfolding parse_variable variable_named char_at name_run isalpha isdigit isupper islower ends
    isspace issep find_var strn_eq
prefix_run = refl
