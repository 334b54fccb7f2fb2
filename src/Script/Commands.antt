-- ===== src/Script/Commands.antt =====
-- Commands of Shelllab/parse.c more `print_script` prints them.
use cs4400_fall.Prelude.{
  ℕ, zero, suc, ◌<◌, ◌≤◌, ◌≡◌, refl, true, false, List, [], ◌∷◌, ◌==◌, Option, none, some, length,
  arith, All, length-append,
}
use cs4400_fall.CString.{Bytes, char_at, isspace}
use cs4400_fall.Script.{Var, Argument, argument_literal, argument_variable, Command, ok}
use cs4400_fall.Script.Tokens.{issep, skip_space, ends}
use cs4400_fall.Script.Parser.{
  another, pid, finished, parse_pid, parse_argument, parse_arguments, parse_command,
}
use cs4400_fall.Script.Printer.{name_of, print_argument, print_arguments, print_pid, print_command}
use cs4400_fall.Script.Printed.{
  IsQuotable, parse_literal-quoted, parse_literal_end, IsName, IsNamed, parse_variable-named,
}

not_empty : (n : ℕ) → (suc n == 0) ≡ false
not_empty n = ground arith

module _ (vars : List Var) where
  -- A variable that the parser finds again by its name.
  abbrev pub IsKnown : ℕ → Type 0
  IsKnown i = IsName (name_of vars i) × IsNamed vars i (name_of vars i)

  abbrev pub IsPrintableArgument : Argument → Type 0
  IsPrintableArgument (argument_literal literal) = IsQuotable literal
  IsPrintableArgument (argument_variable i) = IsKnown i

  abbrev pub IsKnownTarget : Option ℕ → Type 0
  IsKnownTarget none = Unit
  IsKnownTarget (some i) = IsKnown i

  abbrev pub IsPrintableCommand : Command → Type 0
  IsPrintableCommand c =
      IsQuotable c.program × All IsPrintableArgument c.arguments × IsKnownTarget c.pid_to

  -- Where a command may end, with spaces before the end or without.
  abbrev pub Closes : Bytes → Type 0
  Closes s = (ends s ≡ true) × (ends (skip_space s) ≡ true)

  pub ends_space : (s : Bytes) → ends (b' ' ∷ s) ≡ true
  unfolding ends char_at isspace issep
  ends_space s = refl

  ends-print_pid :
      (target : Option ℕ) (s : Bytes) → ends s ≡ true → ends (print_pid vars target s) ≡ true
  unfolding print_pid
  ends-print_pid none s e = e
  ends-print_pid (some i) s e = ends_space _

  ends-print_arguments :
      (more : List Argument) (s : Bytes) → ends s ≡ true → ends (print_arguments vars more s) ≡ true
  unfolding print_arguments print_argument
  ends-print_arguments [] s e = e
  ends-print_arguments (argument_literal l ∷ more) s e = ends_space _
  ends-print_arguments (argument_variable i ∷ more) s e = ends_space _

  length-print_arguments :
      (more : List Argument) (s : Bytes) → length more ≤ length (print_arguments vars more s)
  unfolding print_arguments print_argument
  length-print_arguments [] s = omega arith
  length-print_arguments (argument_literal l ∷ more) s =
      let behind = print_arguments vars more s in
      omega (arith, length-print_arguments more s, length-append l (b'"' ∷ behind))
  length-print_arguments (argument_variable i ∷ more) s =
      let behind = print_arguments vars more s in
      omega (arith, length-print_arguments more s, length-append (name_of vars i) behind)

  no_sign :
      (s : Bytes)
      → ends s ≡ true
      → ((char_at s 0 == b'$') ≡ false) × ((char_at s 0 == b'@') ≡ false)
  unfolding ends isspace issep
  no_sign s e = ground arith

  module _ (line : Bytes) where
    parse_argument_end : (s : Bytes) → ends s ≡ true → parse_argument line s vars ≡ ok finished
    unfolding parse_argument
    parse_argument_end s e = let (v, w) = no_sign s e in rw (v, w, parse_literal_end line s e) refl

    -- A printed argument, behind its space.
    parse_argument-printed :
        (a : Argument) (s : Bytes)
        → IsPrintableArgument a
        → ends s ≡ true
        → parse_argument line (skip_space (print_argument vars a s)) vars ≡ ok (another a s vars)
    unfolding print_argument skip_space isspace parse_argument char_at
    parse_argument-printed (argument_literal l) s h e =
        rw (parse_literal-quoted line l s h e, not_empty (suc (length l))) refl
    parse_argument-printed (argument_variable i) s h e =
        rw (parse_variable-named line (name_of vars i) s vars i h.0 h.1 e) refl

    parse_argument-pid :
        (i : ℕ) (s : Bytes)
        → IsKnown i
        → Closes s
        → parse_argument line (skip_space (print_pid vars (some i) s)) vars
          ≡ ok (pid i (skip_space s) vars)
    unfolding print_pid skip_space isspace parse_argument parse_pid char_at
    parse_argument-pid i s h e =
        rw (parse_variable-named line (name_of vars i) s vars i h.0 h.1 e.0, e.1) refl

    parse_arguments-printed :
        (rounds : ℕ) (more : List Argument) (target : Option ℕ) (s : Bytes)
        → length more < rounds
        → All IsPrintableArgument more
        → IsKnownTarget target
        → Closes s
        → parse_arguments line rounds (print_arguments vars more (print_pid vars target s)) vars
          ≡ ok (more, target, skip_space s, vars)
    unfolding parse_arguments print_arguments
    parse_arguments-printed zero more target s l h k e = absurd (omega arith)
    parse_arguments-printed (suc rounds) [] none s l h k e =
        let run : parse_argument line (skip_space (print_pid vars none s)) vars ≡ ok finished =
          unfold print_pid in parse_argument_end (skip_space s) e.1 in
        let same : print_pid vars none s ≡ s = unfold print_pid in refl in rw (run, same) refl
    parse_arguments-printed (suc rounds) [] (some i) s l h k e =
        rw (parse_argument-pid i s k e) refl
    parse_arguments-printed (suc rounds) (a ∷ more) target s l h k e =
        let behind = print_arguments vars more (print_pid vars target s) in
        let stop : ends behind ≡ true =
          ends-print_arguments more (print_pid vars target s) (ends-print_pid target s e.0) in
        let rest = parse_arguments-printed rounds more target s (omega arith) h.1 k e in
        rw (parse_argument-printed a behind h.0 stop, rest) refl

    pub parse_command-printed :
        (c : Command) (s : Bytes)
        → IsPrintableCommand c
        → Closes s
        → parse_command line (print_command vars c s) vars ≡ ok (c, skip_space s, vars)
    unfolding parse_command print_command
    parse_command-printed c s h e =
        let target = print_pid vars c.pid_to s in
        let behind = print_arguments vars c.arguments target in
        let stop : ends behind ≡ true =
          ends-print_arguments c.arguments target (ends-print_pid c.pid_to s e.0) in
        let rest =
          parse_arguments-printed (suc (length behind)) c.arguments c.pid_to s
            (omega (arith, length-print_arguments c.arguments target)) h.1 h.2 e in
        rw
          (
            parse_literal-quoted line c.program behind h.0 stop,
            not_empty (suc (length c.program)),
            rest,
          )
          refl
