-- ===== src/Script/Printer.antt =====
-- Shelllab/parse.c: `print_script`, as the bytes that it prints, and what it uses of `printf`.
use cs4400_fall.Prelude.{
  ℕ, ◌-◌, ◌^◌, List, [], ◌∷◌, ◌++◌, ltb, ◌==◌, if◌then◌else◌, Option, none, some, get_elem?,
}
use cs4400_fall.CString.{Bytes, digits}
use cs4400_fall.Script.{
  Var, Argument, argument_literal, argument_variable, Command, Mode, group_single, group_and,
  group_or, Group,
}

-- `%d` for the 32 bits of an `int`: ten digits are enough.
unfoldable pub print_int : ℕ → Bytes → Bytes
print_int v s = if ltb v (2 ^ 31) then digits 10 v s else b'-' ∷ digits 10 (2 ^ 32 - v) s

unfoldable pub print_repeats : ℕ → Bytes → Bytes
print_repeats n s =
    if n == 1 then s else b'r' ∷ b'e' ∷ b'p' ∷ b'e' ∷ b'a' ∷ b't' ∷ b' ' ∷ print_int n (b' ' ∷ s)

abbrev pub mode_sign : Mode → Bytes → Bytes
mode_sign group_and s = b'|' ∷ s
mode_sign group_or s = b'|' ∷ b'|' ∷ s
mode_sign group_single s = b'|' ∷ b'|' ∷ s

module _ (vars : List Var) where
  -- The name that a pointer leads to; the parser makes no pointer past the table.
  unfoldable pub name_of : ℕ → Bytes
  name_of i = elim (get_elem? vars i) [ none ↦ [] | some v ↦ v.name ]

  -- Each function prints in front of some text.
  unfoldable pub print_argument : Argument → Bytes → Bytes
  print_argument (argument_literal literal) s = b' ' ∷ b'"' ∷ literal ++ b'"' ∷ s
  print_argument (argument_variable i) s = b' ' ∷ b'$' ∷ name_of i ++ s

  unfoldable pub print_arguments : List Argument → Bytes → Bytes
  print_arguments [] s = s
  print_arguments (a ∷ more) s = print_argument a (print_arguments more s)

  unfoldable pub print_pid : Option ℕ → Bytes → Bytes
  print_pid none s = s
  print_pid (some i) s = b' ' ∷ b'@' ∷ b' ' ∷ b'$' ∷ name_of i ++ s

  unfoldable pub print_command : Command → Bytes → Bytes
  print_command c s = b'"' ∷ c.program ++ b'"' ∷ print_arguments c.arguments (print_pid c.pid_to s)

  -- The commands behind the first one.
  unfoldable pub print_more : Mode → List Command → Bytes → Bytes
  print_more mode [] s = s
  print_more mode (c ∷ cs) s = b' ' ∷ mode_sign mode (b' ' ∷ print_command c (print_more mode cs s))

  unfoldable pub print_commands : Mode → List Command → Bytes → Bytes
  print_commands mode [] s = s
  print_commands mode (c ∷ cs) s = print_command c (print_more mode cs s)

  unfoldable pub print_result : Option ℕ → Bytes → Bytes
  print_result none s = s
  print_result (some i) s = b'$' ∷ name_of i ++ b' ' ∷ b'=' ∷ b' ' ∷ s

  unfoldable pub print_group : Group → Bytes → Bytes
  print_group g s =
      print_repeats g.repeats (print_result g.result_to (print_commands g.mode g.commands s))

  unfoldable pub print_script : List Group → Bytes
  print_script [] = []
  print_script (g ∷ groups) = print_group g [] ++ 10 ∷ print_script groups
