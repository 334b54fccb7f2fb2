-- ===== src/Script/Refusals.antt =====
-- Lines that Shelllab/parse.c refuses.
use cs4400_fall.Prelude.{
  ℕ, zero, suc, ◌<◌, ◌≡◌, refl, true, List, [], ◌∷◌, none, length, arith, All, if◌then◌else◌, ◌==◌,
}
use cs4400_fall.CString.{Bytes, char_at, isspace}
use cs4400_fall.Script.{
  Var, Command, Mode, group_single, group_and, group_or, Group, Error, ok, failed,
  missing_after_combiner, mixed_combiners, unterminated_quote, ◌>>=◌,
}
use cs4400_fall.Script.Tokens.{skip_space, scan_literal, parse_literal}
use cs4400_fall.Script.Parser.{
  combiner, parse_command, parse_commands, parse_repeat, parse_result, parse_group,
}
use cs4400_fall.Script.Printer.{
  mode_sign, print_command, print_more, print_commands, print_group, print_repeats,
}
use cs4400_fall.Script.Printed.{IsQuotable}
use cs4400_fall.Script.Commands.{IsPrintableCommand, parse_command-printed}
use cs4400_fall.Script.Numbers.{parse_repeat-printed}
use cs4400_fall.Script.Signs.{
  Agrees, IsMode, final, Follows, Follows-rest, final-same, IsMode-Follows, IsMode-final,
  IsPrintableGroup, length-print_command, length-print_more, Closes-sign, skip_space-sign,
  skip_space_again, char_at-sign, skip_space-command, char_at-command,
}
use cs4400_fall.Script.Groups.{combiner-sign, parse_front-printed, parse_result-printed}

-- One combiner behind the other one.
abbrev pub Clashes : Mode → Mode → Type 0
Clashes group_and group_or = Unit
Clashes group_or group_and = Unit
Clashes _ _ = ⊥

combiner-clash :
    (line : Bytes) (mode other : Mode) (s : Bytes)
    → Clashes mode other
    → combiner line mode (mode_sign other (b' ' ∷ s))
      ≡ failed (mixed_combiners (mode_sign other (b' ' ∷ s)) line)
unfolding combiner char_at
combiner-clash line group_and group_or s h = refl
combiner-clash line group_or group_and s h = refl
combiner-clash line group_single group_single s h = elim h [ ]
combiner-clash line group_single group_and s h = elim h [ ]
combiner-clash line group_single group_or s h = elim h [ ]
combiner-clash line group_and group_single s h = elim h [ ]
combiner-clash line group_and group_and s h = elim h [ ]
combiner-clash line group_or group_single s h = elim h [ ]
combiner-clash line group_or group_or s h = elim h [ ]

scan-unclosed : (lit : Bytes) → IsQuotable lit → scan_literal true lit ≡ none
unfolding scan_literal
scan-unclosed [] h = refl
scan-unclosed (c ∷ lit) h = ground (arith, h.0, scan-unclosed lit h.1)

module _ (line : Bytes) (vars : List Var) where
  -- The loop of `parse_group` on a command and a combiner.
  parse_commands-sign :
      (rounds : ℕ) (current mode : Mode) (c : Command) (s : Bytes)
      → IsPrintableCommand vars c
      → parse_commands line
          (suc rounds)
          current
          (print_command vars c (b' ' ∷ mode_sign mode s))
          vars
        ≡ (combiner line current (mode_sign mode s) >>= λ (mode', behind).
            if char_at (skip_space behind) 0 == 0
            then failed (missing_after_combiner line)
            else (parse_commands line rounds mode' (skip_space behind) vars
                >>= λ (mode'', commands, vars'). ok (mode'', c ∷ commands, vars')))
  unfolding parse_commands
  parse_commands-sign rounds current mode c s h =
      rw
        (
          parse_command-printed vars line c (b' ' ∷ mode_sign mode s) h (Closes-sign vars mode s),
          skip_space-sign vars mode s,
          skip_space_again vars mode s,
          char_at-sign vars mode s,
        )
        refl

  -- Behind commands that are joined by a mode the loop fails as it does behind the last of them.
  prefix-failed :
      (rounds : ℕ) (current mode : Mode) (c : Command) (cs : List Command) (tail : Bytes)
      (e : Error)
      → suc (length cs) < rounds
      → Follows current mode cs
      → All (IsPrintableCommand vars) (c ∷ cs)
      → ((rounds' : ℕ) (d : Command)
          → IsPrintableCommand vars d
          → parse_commands line
              (suc (suc rounds'))
              (final current mode cs)
              (print_command vars d tail)
              vars
            ≡ failed e)
      → parse_commands line rounds current
          (print_command vars c (print_more vars mode cs tail))
          vars
        ≡ failed e
  unfolding print_more
  prefix-failed zero current mode c cs tail e l f h last = absurd (omega arith)
  prefix-failed (suc zero) current mode c cs tail e l f h last = absurd (omega arith)
  prefix-failed (suc (suc rounds)) current mode c [] tail e l f h last = last rounds c h.0
  prefix-failed (suc (suc rounds)) current mode c (d ∷ cs) tail e l f h last =
      let behind = print_command vars d (print_more vars mode cs tail) in
      let space : skip_space (b' ' ∷ behind) ≡ behind =
        unfold skip_space isspace in skip_space-command vars d (print_more vars mode cs tail) in
      let rest =
        prefix-failed (suc rounds) mode mode d cs tail e (omega arith) (Follows-rest mode cs f.1)
          h.1 (λ rounds' c' p. rw (final-same mode cs) (last rounds' c' p)) in
      rw
        (
          parse_commands-sign (suc rounds) current mode c (b' ' ∷ behind) h.0,
          combiner-sign vars line current mode behind f.0,
          space,
          char_at-command vars d (print_more vars mode cs tail),
          rest,
        )
        refl

  -- So does `parse_group` behind a printed group.
  group-failed :
      (g : Group) (tail : Bytes) (e : Error)
      → IsPrintableGroup vars g
      → ((rounds : ℕ) (d : Command)
          → IsPrintableCommand vars d
          → parse_commands line (suc (suc rounds)) g.mode (print_command vars d tail) vars
            ≡ failed e)
      → parse_group line (print_group vars g tail) vars ≡ failed e
  unfolding parse_group print_group print_commands
  group-failed g tail e h last = go g.commands h.2 h.3
    where
      go :
          (cs : List Command)
          → All (IsPrintableCommand vars) cs
          → IsMode g.mode cs
          → parse_group line (print_group vars (record g { commands = cs }) tail) vars ≡ failed e
      go [] k m = elim m [ ]
      go (c ∷ cs) k m =
          let behind = print_more vars g.mode cs tail in
          let at = print_command vars c behind in
          let loop =
            prefix-failed (suc (length at)) group_single g.mode c cs tail e
              (omega
                (arith, length-print_more vars g.mode cs tail, length-print_command vars c behind))
              (IsMode-Follows g.mode c cs m) k
              (λ rounds d p. rw (IsMode-final g.mode c cs m) (last rounds d p)) in
          rw
            (
              parse_front-printed vars line g.repeats g.result_to c behind h.0,
              parse_result-printed vars line g.result_to c behind h.1,
              char_at-command vars c behind,
              loop,
            )
            refl

  nothing_after :
      (g : Group) (more : Mode)
      → IsPrintableGroup vars g
      → Agrees g.mode more
      → parse_group line (print_group vars g (b' ' ∷ mode_sign more (b' ' ∷ []))) vars
        ≡ failed (missing_after_combiner line)
  nothing_after g more h a = group-failed g _ _ h λ rounds d p.
      rw
        (
          parse_commands-sign (suc rounds) g.mode more d (b' ' ∷ []) p,
          combiner-sign vars line g.mode more [] a,
        )
        (unfold char_at skip_space isspace in refl)

  mixed :
      (g : Group) (other : Mode) (s : Bytes)
      → IsPrintableGroup vars g
      → Clashes g.mode other
      → parse_group line (print_group vars g (b' ' ∷ mode_sign other (b' ' ∷ s))) vars
        ≡ failed (mixed_combiners (mode_sign other (b' ' ∷ s)) line)
  mixed g other s h a = group-failed g _ _ h λ rounds d p.
      rw
        (
          parse_commands-sign (suc rounds) g.mode other d (b' ' ∷ s) p,
          combiner-clash line g.mode other s a,
        )
        refl

  no_token :
      (lit : Bytes)
      → IsQuotable lit
      → parse_literal line (b'"' ∷ lit) ≡ failed (unterminated_quote (b'"' ∷ lit) line)
  unfolding parse_literal scan_literal
  no_token lit h = rw (scan-unclosed lit h) refl

  unclosed_after :
      (g : Group) (more : Mode) (lit : Bytes)
      → IsPrintableGroup vars g
      → Agrees g.mode more
      → IsQuotable lit
      → parse_group line (print_group vars g (b' ' ∷ mode_sign more (b' ' ∷ b'"' ∷ lit))) vars
        ≡ failed (unterminated_quote (b'"' ∷ lit) line)
  unfolding parse_commands parse_command
  unclosed_after g more lit h a q = group-failed g _ _ h λ rounds d p.
      let space : skip_space (b' ' ∷ b'"' ∷ lit) ≡ b'"' ∷ lit = unfold skip_space isspace in refl in
      rw
        (
          parse_commands-sign (suc rounds) g.mode more d (b' ' ∷ b'"' ∷ lit) p,
          combiner-sign vars line g.mode more (b'"' ∷ lit) a,
          space,
          no_token lit q,
        )
        (unfold char_at in refl)

  unclosed :
      (lit : Bytes)
      → IsQuotable lit
      → parse_group line (b'"' ∷ lit) vars ≡ failed (unterminated_quote (b'"' ∷ lit) line)
  unfolding parse_group parse_result parse_commands parse_command char_at
  unclosed lit h =
      let start : skip_space (b'"' ∷ lit) ≡ b'"' ∷ lit = unfold skip_space isspace in refl in
      let once : parse_repeat line (b'"' ∷ lit) ≡ ok (1, b'"' ∷ lit) =
        unfold print_repeats in
        parse_repeat-printed line 1 b'"' lit (omega arith) ((unfold isspace in refl), refl) in
      rw (start, once, no_token lit h) refl

-- Behind any group as `print_script` prints it, whether joined by `|`, by `||` or one command: the
-- parser refuses a line that ends with a further combiner of the group's mode, or with either one
-- behind a single command; a line that goes on with the other combiner; and one where a further
-- command's quote is not closed. It refuses a line that begins with a quote and has no other. Each
-- has its own error, with the place that the message shows.
pub parse_group-refusals :
    (line : Bytes) (vars : List Var) (g h : Group) (more other : Mode) (lit s : Bytes)
    → IsPrintableGroup vars g
    → IsPrintableGroup vars h
    → Agrees g.mode more
    → Clashes h.mode other
    → IsQuotable lit
    → (parse_group line (print_group vars g (b' ' ∷ mode_sign more (b' ' ∷ []))) vars
        ≡ failed (missing_after_combiner line))
      × (parse_group line (print_group vars h (b' ' ∷ mode_sign other (b' ' ∷ s))) vars
          ≡ failed (mixed_combiners (mode_sign other (b' ' ∷ s)) line))
      × (parse_group line (print_group vars g (b' ' ∷ mode_sign more (b' ' ∷ b'"' ∷ lit))) vars
          ≡ failed (unterminated_quote (b'"' ∷ lit) line))
      × (parse_group line (b'"' ∷ lit) vars ≡ failed (unterminated_quote (b'"' ∷ lit) line))
parse_group-refusals line vars g h more other lit s pg ph a c q = (
  nothing_after line vars g more pg a,
  mixed line vars h other s ph c,
  unclosed_after line vars g more lit pg a q,
  unclosed line vars lit q,
)
