-- ===== src/Script/Signs.antt =====
-- The parts of a group as `print_script` of Shelllab/parse.c prints them: its mode, the signs of
-- the mode between its commands, and their lengths.
use cs4400_fall.Prelude.{
  ℕ, ◌^◌, ◌<◌, ◌≤◌, ◌≡◌, inl, inr, refl, sym, false, List, [], ◌∷◌, ◌==◌, Option, none, some,
  length, arith, All, length-append, Bool-cases,
}
use cs4400_fall.CString.{Bytes, char_at, isspace}
use cs4400_fall.Script.{
  Var, Argument, argument_literal, argument_variable, Command, Mode, group_single, group_and,
  group_or, Group,
}
use cs4400_fall.Script.Tokens.{issep, skip_space, ends}
use cs4400_fall.Script.Printer.{
  name_of, mode_sign, print_argument, print_arguments, print_pid, print_command, print_more,
  print_repeats,
}
use cs4400_fall.Script.Commands.{IsKnownTarget, IsPrintableCommand, Closes}

-- A combiner of `mode` may follow when the mode is `current`.
abbrev pub Agrees : Mode → Mode → Type 0
Agrees group_single group_and = Unit
Agrees group_single group_or = Unit
Agrees group_and group_and = Unit
Agrees group_or group_or = Unit
Agrees _ _ = ⊥

-- The mode fits the number of commands, which is not 0.
abbrev pub IsMode : Mode → List Command → Type 0
IsMode mode [] = ⊥
IsMode mode (c ∷ []) = mode ≡ group_single
IsMode mode (c ∷ d ∷ cs) = Agrees mode mode

IsMode-Agrees : (mode : Mode) → Agrees mode mode → Agrees group_single mode
IsMode-Agrees group_and h = tt
IsMode-Agrees group_or h = tt
IsMode-Agrees group_single h = elim h [ ]

-- The mode behind some commands.
abbrev pub final : Mode → Mode → List Command → Mode
final current mode [] = current
final current mode (c ∷ cs) = mode

abbrev pub Follows : Mode → Mode → List Command → Type 0
Follows current mode [] = Unit
Follows current mode (c ∷ cs) = Agrees current mode × Agrees mode mode

pub Follows-rest : (mode : Mode) (cs : List Command) → Agrees mode mode → Follows mode mode cs
Follows-rest mode [] h = tt
Follows-rest mode (c ∷ cs) h = (h, h)

pub final-same : (mode : Mode) (cs : List Command) → final mode mode cs ≡ mode
final-same mode [] = refl
final-same mode (c ∷ cs) = refl

pub IsMode-Follows :
    (mode : Mode) (c : Command) (cs : List Command)
    → IsMode mode (c ∷ cs)
    → Follows group_single mode cs
IsMode-Follows mode c [] m = tt
IsMode-Follows mode c (d ∷ cs) m = (IsMode-Agrees mode m, m)

pub IsMode-final :
    (mode : Mode) (c : Command) (cs : List Command)
    → IsMode mode (c ∷ cs)
    → final group_single mode cs ≡ mode
IsMode-final mode c [] m = sym m
IsMode-final mode c (d ∷ cs) m = refl

pub skip_space-repeats :
    (n a : ℕ) (s : Bytes)
    → isspace a ≡ false
    → skip_space (print_repeats n (a ∷ s)) ≡ print_repeats n (a ∷ s)
unfolding print_repeats skip_space isspace
skip_space-repeats n a s h = elim (Bool-cases (n == 1)) [
  | inl once ↦ rw (once, h) refl
  | inr more ↦ rw more refl
]

module _ (vars : List Var) where
  abbrev pub IsPrintableGroup : Group → Type 0
  IsPrintableGroup g =
      (g.repeats < 2 ^ 31)
      × IsKnownTarget vars g.result_to
      × All (IsPrintableCommand vars) g.commands
      × IsMode g.mode g.commands

  length-print_argument : (a : Argument) (s : Bytes) → length s ≤ length (print_argument vars a s)
  unfolding print_argument
  length-print_argument (argument_literal l) s = omega (arith, length-append l (b'"' ∷ s))
  length-print_argument (argument_variable i) s = omega (arith, length-append (name_of vars i) s)

  length-print_arguments :
      (more : List Argument) (s : Bytes) → length s ≤ length (print_arguments vars more s)
  unfolding print_arguments
  length-print_arguments [] s = omega arith
  length-print_arguments (a ∷ more) s =
      omega (
        arith,
        length-print_argument a (print_arguments vars more s),
        length-print_arguments more s,
      )

  length-print_pid : (target : Option ℕ) (s : Bytes) → length s ≤ length (print_pid vars target s)
  unfolding print_pid
  length-print_pid none s = omega arith
  length-print_pid (some i) s = omega (arith, length-append (name_of vars i) s)

  pub length-print_command : (c : Command) (s : Bytes) → length s < length (print_command vars c s)
  unfolding print_command
  length-print_command c s =
      let target = print_pid vars c.pid_to s in
      let behind = print_arguments vars c.arguments target in
      omega (
        arith,
        length-append c.program (b'"' ∷ behind),
        length-print_arguments c.arguments target,
        length-print_pid c.pid_to s,
      )

  length-mode_sign : (mode : Mode) (s : Bytes) → length s ≤ length (mode_sign mode s)
  length-mode_sign group_single s = omega arith
  length-mode_sign group_and s = omega arith
  length-mode_sign group_or s = omega arith

  pub length-print_more :
      (mode : Mode) (cs : List Command) (s : Bytes) → length cs ≤ length (print_more vars mode cs s)
  unfolding print_more
  length-print_more mode [] s = omega arith
  length-print_more mode (c ∷ cs) s =
      let behind = print_more vars mode cs s in
      omega (
        arith,
        length-print_more mode cs s,
        length-print_command c behind,
        length-mode_sign mode (b' ' ∷ print_command vars c behind),
      )

  -- The sign of a mode, behind its space.
  pub Closes-sign : (mode : Mode) (s : Bytes) → Closes vars (b' ' ∷ mode_sign mode s)
  unfolding ends char_at skip_space isspace issep
  Closes-sign group_single s = (refl, refl)
  Closes-sign group_and s = (refl, refl)
  Closes-sign group_or s = (refl, refl)

  pub Closes-more : (mode : Mode) (cs : List Command) → Closes vars (print_more vars mode cs [])
  unfolding print_more
  Closes-more mode [] = unfold ends char_at skip_space in (refl, refl)
  Closes-more mode (c ∷ cs) =
      Closes-sign mode (b' ' ∷ print_command vars c (print_more vars mode cs []))

  pub skip_space-sign :
      (mode : Mode) (s : Bytes) → skip_space (b' ' ∷ mode_sign mode s) ≡ mode_sign mode s
  unfolding skip_space isspace
  skip_space-sign group_single s = refl
  skip_space-sign group_and s = refl
  skip_space-sign group_or s = refl

  pub skip_space_again :
      (mode : Mode) (s : Bytes) → skip_space (mode_sign mode s) ≡ mode_sign mode s
  unfolding skip_space isspace
  skip_space_again group_single s = refl
  skip_space_again group_and s = refl
  skip_space_again group_or s = refl

  pub char_at-sign : (mode : Mode) (s : Bytes) → char_at (mode_sign mode s) 0 ≡ b'|'
  unfolding char_at
  char_at-sign group_single s = refl
  char_at-sign group_and s = refl
  char_at-sign group_or s = refl

  pub skip_space-command :
      (c : Command) (s : Bytes) → skip_space (print_command vars c s) ≡ print_command vars c s
  unfolding skip_space isspace print_command
  skip_space-command c s = refl

  pub char_at-command : (c : Command) (s : Bytes) → char_at (print_command vars c s) 0 ≡ b'"'
  unfolding char_at print_command
  char_at-command c s = refl
