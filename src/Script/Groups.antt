-- ===== src/Script/Groups.antt =====
-- Groups of Shelllab/parse.c as `print_script` prints them.
use cs4400_fall.Prelude.{
  ℕ, zero, suc, ◌^◌, ◌<◌, ◌≡◌, inl, inr, refl, false, ◌||◌, List, [], ◌∷◌, ◌==◌, Option, none, some,
  length, arith, All, Bool-cases,
}
use cs4400_fall.CString.{Bytes, char_at, isspace}
use cs4400_fall.Script.{Var, Command, Mode, group_single, group_and, group_or, Group, ok}
use cs4400_fall.Script.Tokens.{skip_space}
use cs4400_fall.Script.Parser.{combiner, parse_commands, parse_repeat, parse_result, parse_group}
use cs4400_fall.Script.Printer.{
  name_of, print_int, mode_sign, print_command, print_more, print_commands, print_repeats,
  print_result, print_group,
}
use cs4400_fall.Script.Printed.{parse_variable-named}
use cs4400_fall.Script.Commands.{
  IsKnownTarget, IsPrintableCommand, ends_space, parse_command-printed,
}
use cs4400_fall.Script.Numbers.{parse_repeat-printed}
use cs4400_fall.Script.Signs.{
  Agrees, IsMode, final, Follows, Follows-rest, final-same, IsMode-Follows, IsMode-final,
  skip_space-repeats, IsPrintableGroup, length-print_command, length-print_more, Closes-sign,
  Closes-more, skip_space-sign, skip_space_again, char_at-sign, skip_space-command, char_at-command,
}

module _ (vars : List Var) where
  module _ (line : Bytes) where
    pub combiner-sign :
        (current mode : Mode) (s : Bytes)
        → Agrees current mode
        → combiner line current (mode_sign mode (b' ' ∷ s)) ≡ ok (mode, b' ' ∷ s)
    unfolding combiner char_at
    combiner-sign group_single group_and s h = refl
    combiner-sign group_single group_or s h = refl
    combiner-sign group_and group_and s h = refl
    combiner-sign group_or group_or s h = refl
    combiner-sign group_single group_single s h = elim h [ ]
    combiner-sign group_and group_single s h = elim h [ ]
    combiner-sign group_and group_or s h = elim h [ ]
    combiner-sign group_or group_single s h = elim h [ ]
    combiner-sign group_or group_and s h = elim h [ ]

    parse_commands-printed :
        (rounds : ℕ) (current mode : Mode) (c : Command) (cs : List Command)
        → length cs < rounds
        → Follows current mode cs
        → All (IsPrintableCommand vars) (c ∷ cs)
        → parse_commands line rounds current
            (print_command vars c (print_more vars mode cs []))
            vars
          ≡ ok (final current mode cs, c ∷ cs, vars)
    unfolding parse_commands print_more
    parse_commands-printed zero current mode c cs l f h = absurd (omega arith)
    parse_commands-printed (suc rounds) current mode c [] l f h =
        rw (parse_command-printed vars line c [] h.0 (Closes-more vars mode []))
          (unfold skip_space char_at in refl)
    parse_commands-printed (suc rounds) current mode c (d ∷ cs) l f h =
        let behind = print_command vars d (print_more vars mode cs []) in
        let space : skip_space (b' ' ∷ behind) ≡ behind =
          unfold skip_space isspace in skip_space-command vars d (print_more vars mode cs []) in
        let rest =
          parse_commands-printed rounds mode mode d cs (omega arith) (Follows-rest mode cs f.1)
            h.1 in
        rw
          (
            parse_command-printed vars line c (b' ' ∷ mode_sign mode (b' ' ∷ behind)) h.0
                (Closes-sign vars mode (b' ' ∷ behind)),
            skip_space-sign vars mode (b' ' ∷ behind),
            skip_space_again vars mode (b' ' ∷ behind),
            char_at-sign vars mode (b' ' ∷ behind),
            combiner-sign current mode behind f.0,
            space,
            char_at-command vars d (print_more vars mode cs []),
            rest,
            final-same mode cs,
          )
          refl

    first_char :
        (target : Option ℕ) (c : Command) (s : Bytes)
        → (a : ℕ) × (rest : Bytes) × (print_result vars target (print_command vars c s) ≡ a ∷ rest)
          × (isspace a ≡ false)
          × ((a == b'r') ≡ false)
          × ((a == 0 || a == b'#') ≡ false)
    unfolding print_result print_command isspace
    first_char none c s = (_, _, refl, refl, refl, refl)
    first_char (some i) c s = (_, _, refl, refl, refl, refl)

    pub parse_result-printed :
        (target : Option ℕ) (c : Command) (s : Bytes)
        → IsKnownTarget vars target
        → parse_result line (print_result vars target (print_command vars c s)) vars
          ≡ ok (target, print_command vars c s, vars)
    unfolding parse_result print_result
    parse_result-printed none c s h = rw (char_at-command vars c s) refl
    parse_result-printed (some i) c s h =
        let text = print_command vars c s in
        let equal : skip_space (b' ' ∷ b'=' ∷ b' ' ∷ text) ≡ b'=' ∷ b' ' ∷ text =
          unfold skip_space isspace in refl in
        let behind : skip_space (b' ' ∷ text) ≡ text =
          unfold skip_space isspace in skip_space-command vars c s in
        let found =
          parse_variable-named line (name_of vars i) (b' ' ∷ b'=' ∷ b' ' ∷ text) vars i h.0 h.1
            (ends_space vars _) in
        rw (found, equal) (unfold char_at in rw behind refl)

    pub parse_front-printed :
        (n : ℕ) (target : Option ℕ) (c : Command) (s : Bytes)
        → n < 2 ^ 31
        → parse_repeat line
            (skip_space (print_repeats n (print_result vars target (print_command vars c s))))
          ≡ ok (n, print_result vars target (print_command vars c s))
    parse_front-printed n target c s l =
        let (a, rest, e, space, word, sign) = first_char target c s in
        rw (e, skip_space-repeats n a rest space)
          (parse_repeat-printed line n a rest l (space, word))

    -- The parser gives the group back, and leaves the table as it is.
    pub parse_group-printed :
        (g : Group)
        → IsPrintableGroup vars g
        → parse_group line (print_group vars g []) vars ≡ ok (g, vars)
    unfolding parse_group print_group print_commands
    parse_group-printed g h = go g.commands g.mode h.2 h.3
      where
        go :
            (cs : List Command) (mode : Mode)
            → All (IsPrintableCommand vars) cs
            → IsMode mode cs
            → parse_group line (print_group vars (record g { commands = cs; mode = mode }) []) vars
              ≡ ok (record g { commands = cs; mode = mode }, vars)
        go [] mode k m = elim m [ ]
        go (c ∷ cs) mode k m =
            let behind = print_more vars mode cs [] in
            let at = print_command vars c behind in
            let loop =
              parse_commands-printed (suc (length at)) group_single mode c cs
                (omega
                  (arith, length-print_more vars mode cs [], length-print_command vars c behind))
                (IsMode-Follows mode c cs m) k in
            rw
              (
                parse_front-printed g.repeats g.result_to c behind h.0,
                parse_result-printed g.result_to c behind h.1,
                char_at-command vars c behind,
                loop,
                IsMode-final mode c cs m,
              )
              refl

  repeats_front :
      (n a : ℕ) (s : Bytes)
      → isspace a ≡ false
      → (a == 0 || a == b'#') ≡ false
      → (c : ℕ) × (rest : Bytes) × (print_repeats n (a ∷ s) ≡ c ∷ rest)
        × (isspace c ≡ false)
        × ((c == 0 || c == b'#') ≡ false)
  unfolding print_repeats
  repeats_front n a s h k = elim (Bool-cases (n == 1)) [
    | inl once ↦ (a, s, rw once refl, h, k)
    | inr more ↦ (
      b'r',
      b'e' ∷ b'p' ∷ b'e' ∷ b'a' ∷ b't' ∷ b' ' ∷ print_int n (b' ' ∷ a ∷ s),
      rw more refl,
      (unfold isspace in refl),
      refl,
    )
  ]

  -- A printed group begins with no space, and is no comment.
  pub group_front :
      (g : Group)
      → IsPrintableGroup vars g
      → (c : ℕ) × (s : Bytes) × (print_group vars g [] ≡ c ∷ s)
        × (isspace c ≡ false)
        × ((c == 0 || c == b'#') ≡ false)
  unfolding print_group print_commands
  group_front g h = go g.commands h.3
    where
      go :
          (cs : List Command)
          → IsMode g.mode cs
          → (c : ℕ) × (s : Bytes) × (print_group vars (record g { commands = cs }) [] ≡ c ∷ s)
            × (isspace c ≡ false)
            × ((c == 0 || c == b'#') ≡ false)
      go [] m = elim m [ ]
      go (c ∷ cs) m =
          let (a, rest, e, space, word, sign) =
            first_char [] g.result_to c (print_more vars g.mode cs []) in
          rw e (repeats_front g.repeats a rest space sign)
