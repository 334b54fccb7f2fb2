-- ===== src/Script/File.antt =====
-- Shelllab/parse.c on the file that `print_script` prints.
use mathlib.Core.Path.{subst}
use cs4400_fall.Prelude.{
  ℕ, zero, suc, ◌+◌, ◌-◌, ◌<◌, ◌≤◌, ◌≡◌, ◌≢◌, refl, ap, ◌∙◌, false, ◌||◌, List, [], ◌∷◌, ◌++◌, ◌==◌,
  leb, some, length, arith, All, length-append,
}
use cs4400_fall.CString.{Bytes, terminated, char_at}
use cs4400_fall.Script.{Var, Group, ok, ◌>>=◌}
use cs4400_fall.Script.Tokens.{skip_space}
use cs4400_fall.Script.Parser.{
  fgets, has_non_ascii, chomp, max_line_length, with_group, parse_line, parse_lines,
  parse_script_file,
}
use cs4400_fall.Script.Printer.{print_group, print_script}
use cs4400_fall.Script.Signs.{IsPrintableGroup}
use cs4400_fall.Script.Groups.{parse_group-printed, group_front}

-- A text of one line: ASCII, with no zero byte and no line feed.
abbrev pub IsPlain : Bytes → Type 0
IsPlain = All (λ c. (0 < c) × (c < 128) × (c ≢ 10))

fgets-line :
    (n : ℕ) (a s : Bytes) → IsPlain a → length a < n → fgets n (a ++ 10 ∷ s) ≡ (a ++ 10 ∷ [], s)
unfolding fgets
fgets-line zero a s h l = absurd (omega arith)
fgets-line (suc n) [] s h l = refl
fgets-line (suc n) (c ∷ a) s h l =
    let other : (c == 10) ≡ false = ground arith in
    rw (other, fgets-line n a s h.1 (omega arith)) refl

terminated-line : (a : Bytes) → IsPlain a → terminated (a ++ 10 ∷ []) ≡ a ++ 10 ∷ []
unfolding terminated
terminated-line [] h = refl
terminated-line (c ∷ a) h =
    let other : (c == 0) ≡ false = ground arith in rw (other, terminated-line a h.1) refl

has_non_ascii-line : (a : Bytes) → IsPlain a → has_non_ascii (a ++ 10 ∷ []) ≡ false
unfolding has_non_ascii
has_non_ascii-line [] h = refl
has_non_ascii-line (c ∷ a) h =
    let low : leb 128 c ≡ false = ground arith in rw (low, has_non_ascii-line a h.1) refl

chomp-line : (a : Bytes) → chomp (a ++ 10 ∷ []) ≡ a
unfolding chomp
chomp-line [] = refl
chomp-line (c ∷ []) = refl
chomp-line (c ∷ d ∷ a) = ap (◌∷◌ c) (chomp-line (d ∷ a))

module _ (vars : List Var) where
  -- A group that prints as one line that fits the buffer with its end.
  abbrev pub IsPrintableLine : Group → Type 0
  IsPrintableLine g =
      IsPrintableGroup vars g
      × IsPlain (print_group vars g [])
      × (length (print_group vars g []) + 2 < max_line_length)

  parse_line-printed :
      (g : Group)
      → IsPrintableLine g
      → parse_line (print_group vars g [] ++ 10 ∷ []) vars ≡ ok (some g, vars)
  unfolding parse_line
  parse_line-printed g h =
      let text = print_group vars g [] in
      let fits : leb (max_line_length - 1) (length (text ++ 10 ∷ [])) ≡ false =
        let l = length-append text (10 ∷ []) in ground (arith, l) in
      let (c, s, e, space, sign) = group_front vars g h.0 in
      let start : skip_space text ≡ text = rw e (unfold skip_space in rw space refl) in
      let live : (char_at text 0 == 0 || char_at text 0 == b'#') ≡ false =
        rw e (unfold char_at in sign) in
      rw
        (
          terminated-line text h.1,
          has_non_ascii-line text h.1,
          fits,
          chomp-line text,
          start,
          live,
          parse_group-printed vars text g h.0,
        )
        refl

  parse_lines-line :
      (rounds c : ℕ) (a s : Bytes) (g : Group) (groups : List Group)
      → IsPlain (c ∷ a)
      → length (c ∷ a) + 2 < max_line_length
      → parse_line (c ∷ a ++ 10 ∷ []) vars ≡ ok (some g, vars)
      → parse_lines rounds s vars ≡ ok (groups, vars)
      → parse_lines (suc rounds) (c ∷ a ++ 10 ∷ s) vars ≡ ok (g ∷ groups, vars)
  unfolding parse_lines
  parse_lines-line rounds c a s g groups plain fits line rest =
      let read = fgets-line (max_line_length - 1) (c ∷ a) s plain (omega arith) in
      let run : (parse_line (c ∷ a ++ 10 ∷ []) vars >>= λ (group, vars').
      parse_lines rounds s vars' >>= λ (more, vars''). ok (with_group group more, vars''))
          ≡ ok (g ∷ groups, vars) =
        rw (line, rest) refl in
      ap
        (λ r. parse_line r.0 vars >>= λ (group, vars').
          parse_lines rounds r.1 vars' >>= λ (more, vars''). ok (with_group group more, vars''))
        read
      ∙ run

  parse_lines-printed :
      (rounds : ℕ) (groups : List Group)
      → All IsPrintableLine groups
      → length (print_script vars groups) ≤ rounds
      → parse_lines rounds (print_script vars groups) vars ≡ ok (groups, vars)
  unfolding parse_lines print_script
  parse_lines-printed rounds [] h l = refl
  parse_lines-printed zero (g ∷ groups) h l =
      absurd (omega (arith, length-append (print_group vars g []) (10 ∷ print_script vars groups)))
  parse_lines-printed (suc rounds) (g ∷ groups) h l =
      let text = print_group vars g [] in
      let (c, a, e, _, _) = group_front vars g h.0.0 in
      let plain : IsPlain (c ∷ a) = subst IsPlain e h.0.1 in
      let fits : length (c ∷ a) + 2 < max_line_length =
        subst (λ t. length t + 2 < max_line_length) e h.0.2 in
      let line = parse_line-printed g h.0 in
      let rest =
        parse_lines-printed rounds groups h.1
          (omega (arith, length-append text (10 ∷ print_script vars groups))) in
      rw e (
        parse_lines-line rounds c a (print_script vars groups) g groups plain fits
          (subst (λ t. parse_line (t ++ 10 ∷ []) vars ≡ ok (some g, vars)) e line) rest)

  -- What `print_script` prints of a script, the parser reads as that script, and leaves the table
  -- of variables as it is. The table has the script's variables, none of them with a name with
  -- which an earlier variable's name begins; a name is of letters and digits and a literal has no
  -- quote; every group has a mode that fits its number of commands and fewer than 2^31 repeats;
  -- and every line is ASCII and fits the parser's buffer.
  pub parse_script_file-print_script :
      (groups : List Group)
      → All IsPrintableLine groups
      → parse_script_file (some (print_script vars groups)) vars ≡ ok (groups, vars)
  unfolding parse_script_file
  parse_script_file-print_script groups h =
      parse_lines-printed (length (print_script vars groups)) groups h (omega arith)
