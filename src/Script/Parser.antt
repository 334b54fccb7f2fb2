-- ===== src/Script/Parser.antt =====
-- Shelllab/parse.c: commands, groups and the lines of a script. The table of variables is passed
-- on. The loops take rounds: every round passes a byte, so one more than the bytes are enough.
use cs4400_fall.Prelude.{
  ℕ, zero, suc, ◌+◌, ◌-◌, ◌*◌, ◌%◌, ◌^◌, Bool, false, ◌&&◌, ◌||◌, List, [], ◌∷◌, ◌++◌, leb, ◌==◌,
  if◌then◌else◌, Option, none, some, length, drop,
}
use cs4400_fall.CString.{Bytes, terminated, char_at, isdigit, isspace, str_eq, strn_eq}
use cs4400_fall.Script.{
  Var, Argument, argument_literal, argument_variable, Command, Mode, group_single, group_and,
  group_or, Group, cannot_open, line_too_long, repeat_alone, non_ascii, invalid_repeat,
  missing_command, missing_after_combiner, expected_equal, expected_combiner, mixed_combiners,
  bad_command, command_goes_on, expected_variable, Result, ok, failed, out_of_rounds, ◌>>=◌,
}
use cs4400_fall.Script.Tokens.{skip_space, ends, parse_literal, parse_variable}

-- What a round of the loop of `parse_command` finds: an argument, the variable behind `@`, with
-- which the function returns, or no argument.
pub data Step : Type 0 where
  another : Argument → (rest : Bytes) → List Var → Step
  pid : ℕ → (rest : Bytes) → List Var → Step
  finished : Step

-- The loop over the digits behind `repeat`.
unfoldable pub read_digits : ℕ → Bytes → ℕ × Bytes
read_digits n [] = (n, [])
read_digits n (c ∷ cs) =
    let more = read_digits ((n * 10 % 2 ^ 32 + (c - b'0')) % 2 ^ 32) cs in
    if isdigit c then more else (n, c ∷ cs)

abbrev pub repeat_word : Bytes
repeat_word = b'r' ∷ b'e' ∷ b'p' ∷ b'e' ∷ b'a' ∷ b't' ∷ []

module _ (buffer_start : Bytes) where
  unfoldable pub parse_pid : Bytes → List Var → Result Step
  parse_pid buffer vars =
      if char_at buffer 0 == b'$'
      then (do
        (var, rest, vars') ← parse_variable buffer_start buffer vars
        if ends (skip_space rest)
            then ok (pid var (skip_space rest) vars')
            else failed (command_goes_on (skip_space rest) buffer_start))
      else failed (expected_variable buffer buffer_start)

  unfoldable pub parse_argument : Bytes → List Var → Result Step
  parse_argument buffer vars =
      if char_at buffer 0 == b'$'
      then (do
        (var, rest, vars') ← parse_variable buffer_start buffer vars
        ok (another (argument_variable var) rest vars'))
      else if char_at buffer 0 == b'@'
      then parse_pid (skip_space (drop 1 buffer)) vars
      else do
        token ← parse_literal buffer_start buffer
        if token.len == 0
            then ok finished
            else ok (another (argument_literal token.literal) token.rest vars)

  -- The loop of `parse_command`: the arguments, `pid_to`, and what is left.
  unfoldable pub parse_arguments :
      ℕ → Bytes → List Var → Result (List Argument × Option ℕ × Bytes × List Var)
  parse_arguments zero buffer vars = out_of_rounds
  parse_arguments (suc rounds) buffer vars = do
    step ← parse_argument (skip_space buffer) vars
    elim step [
      | another argument rest vars' ↦ do
        (arguments, pid_to, rest', vars'') ← parse_arguments rounds rest vars'
        ok (argument ∷ arguments, pid_to, rest', vars'')
      | pid var rest vars' ↦ ok ([], some var, rest, vars')
      | finished ↦ ok ([], none, skip_space buffer, vars)
    ]

  unfoldable pub parse_command : Bytes → List Var → Result (Command × Bytes × List Var)
  parse_command buffer vars = do
    token ← parse_literal buffer_start buffer
    if token.len == 0 then failed (bad_command buffer buffer_start) else do
      (arguments, pid_to, rest, vars') ← parse_arguments (suc (length token.rest)) token.rest vars
      ok (record { program = token.literal; arguments = arguments; pid_to = pid_to }, rest, vars')

  -- The mode behind `||` or `|`, and what is behind the combiner.
  unfoldable pub combiner : Mode → Bytes → Result (Mode × Bytes)
  combiner mode buffer =
      if char_at buffer 1 == b'|'
      then elim mode [
        | group_and ↦ failed (mixed_combiners buffer buffer_start)
        | _ ↦ ok (group_or, drop 2 buffer)
      ]
      else elim mode [
        | group_or ↦ failed (mixed_combiners buffer buffer_start)
        | _ ↦ ok (group_and, drop 1 buffer)
      ]

  -- The loop of `parse_group`.
  unfoldable pub parse_commands :
      ℕ → Mode → Bytes → List Var → Result (Mode × List Command × List Var)
  parse_commands zero mode buffer vars = out_of_rounds
  parse_commands (suc rounds) mode buffer vars = do
    (command, rest, vars') ← parse_command buffer vars
    let at = skip_space rest
    if char_at at 0 == 0
        then ok (mode, command ∷ [], vars')
        else if char_at at 0 == b'|'
        then (do
          (mode', behind) ← combiner mode at
          if char_at (skip_space behind) 0 == 0
              then failed (missing_after_combiner buffer_start)
              else do
                (mode'', commands, vars'') ← parse_commands rounds mode' (skip_space behind) vars'
                ok (mode'', command ∷ commands, vars''))
        else failed (expected_combiner mode at buffer_start)

  -- The repeats, and where the group goes on.
  unfoldable pub parse_repeat : Bytes → Result (ℕ × Bytes)
  parse_repeat buffer =
      if strn_eq buffer (repeat_word ++ b' ' ∷ []) 7
      then (let digits = skip_space (drop 7 buffer) in
          let read = read_digits 0 digits in
          if isdigit (char_at digits 0) && isspace (char_at read.1 0)
          then ok (read.0, skip_space read.1)
          else failed (invalid_repeat buffer_start))
      else if str_eq buffer repeat_word
      then failed repeat_alone
      else ok (1, buffer)

  -- The variable for the result, and where the group goes on.
  unfoldable pub parse_result : Bytes → List Var → Result (Option ℕ × Bytes × List Var)
  parse_result buffer vars =
      if char_at buffer 0 == b'$'
      then (do
        (var, rest, vars') ← parse_variable buffer_start buffer vars
        if char_at (skip_space rest) 0 == b'='
            then ok (some var, skip_space (drop 1 (skip_space rest)), vars')
            else failed (expected_equal var buffer_start))
      else ok (none, buffer, vars)

  unfoldable pub parse_group : Bytes → List Var → Result (Group × List Var)
  parse_group buffer vars = do
    (repeats, behind_repeat) ← parse_repeat (skip_space buffer)
    (result_to, at, vars') ← parse_result behind_repeat vars
    if char_at at 0 == 0 then failed (missing_command buffer_start) else do
      (mode, commands, vars'') ← parse_commands (suc (length at)) group_single at vars'
      ok (
        record { mode = mode; repeats = repeats; result_to = result_to; commands = commands },
        vars'',
      )

abbrev pub max_line_length : ℕ
max_line_length = 1024

-- `fgets` with `n` places for bytes: what it reads, and what is left.
unfoldable pub fgets : ℕ → Bytes → Bytes × Bytes
fgets zero s = ([], s)
fgets (suc n) [] = ([], [])
fgets (suc n) (c ∷ s) = let (a, rest) = fgets n s in if c == 10 then (c ∷ [], s) else (c ∷ a, rest)

-- The first loop of `parse_script_file`: whether a `char` is negative.
unfoldable pub has_non_ascii : Bytes → Bool
has_non_ascii [] = false
has_non_ascii (c ∷ cs) = leb 128 c || has_non_ascii cs

-- `if ((i > 0) && (buffer_start[i-1] == '\n')) buffer_start[i-1] = 0;`
unfoldable pub chomp : Bytes → Bytes
chomp [] = []
chomp (c ∷ []) = if c == 10 then [] else c ∷ []
chomp (c ∷ d ∷ cs) = c ∷ chomp (d ∷ cs)

-- The body of the second loop; a comment or an empty line has no group.
unfoldable pub parse_line : Bytes → List Var → Result (Option Group × List Var)
parse_line buffer vars =
    let line = terminated buffer in
    let buffer_start = chomp line in
    let at = skip_space buffer_start in
    if has_non_ascii line
    then failed (non_ascii line)
    else if leb (max_line_length - 1) (length line)
    then failed line_too_long
    else if char_at at 0 == 0 || char_at at 0 == b'#'
    then ok (none, vars)
    else do (group, vars') ← parse_group buffer_start at vars; ok (some group, vars')

abbrev pub with_group : Option Group → List Group → List Group
with_group none groups = groups
with_group (some group) groups = group ∷ groups

-- A call of `fgets` that reads nothing ends the loop.
unfoldable pub parse_lines : ℕ → Bytes → List Var → Result (List Group × List Var)
parse_lines rounds [] vars = ok ([], vars)
parse_lines zero (c ∷ s) vars = out_of_rounds
parse_lines (suc rounds) (c ∷ s) vars = do
  let (buffer, rest) = fgets (max_line_length - 1) (c ∷ s)
  (group, vars') ← parse_line buffer vars
  (groups, vars'') ← parse_lines rounds rest vars'
  ok (with_group group groups, vars'')

-- The contents of the file are a parameter, `none` where it cannot be opened.
unfoldable pub parse_script_file : Option Bytes → List Var → Result (List Group × List Var)
parse_script_file none vars = failed cannot_open
parse_script_file (some contents) vars = parse_lines (length contents) contents vars
