-- ===== src/Script/Numbers.antt =====
-- The repeats of Shelllab/parse.c, read as `print_script` prints them.
use cs4400_fall.Prelude.{
  ℕ, zero, suc, ◌+◌, ◌-◌, ◌*◌, ◌/◌, ◌%◌, ◌^◌, ◌<◌, ◌≡◌, refl, ap, ◌∙◌, true, false, [], ◌∷◌, ◌++◌,
  ltb, ◌==◌, arith, inl, inr, Bool-cases,
}
use cs4400_fall.CString.{Bytes, digits, char_at, isdigit, isspace, str_eq, strn_eq}
use cs4400_fall.Script.{ok}
use cs4400_fall.Script.Tokens.{skip_space}
use cs4400_fall.Script.Parser.{repeat_word, read_digits, parse_repeat}
use cs4400_fall.Script.Printer.{print_int, print_repeats}

digit : (v : ℕ) → isdigit (b'0' + v % 10) ≡ true
unfolding isdigit
digit v = ground arith

read_digit :
    (acc v w : ℕ) (s : Bytes)
    → acc * 10 + v % 10 ≡ w
    → w < 2 ^ 31
    → read_digits acc ((b'0' + v % 10) ∷ s) ≡ read_digits w s
unfolding read_digits
read_digit acc v w s e l =
    let sum : (acc * 10 % 2 ^ 32 + (b'0' + v % 10 - b'0')) % 2 ^ 32 ≡ w = omega arith in
    rw (digit v, sum) refl

read_digits-digits :
    (k v : ℕ) (s : Bytes)
    → v < 10 ^ suc k
    → v < 2 ^ 31
    → read_digits 0 (digits (suc k) v s) ≡ read_digits v s
unfolding digits
read_digits-digits zero v s l m =
    let one : ltb v 10 ≡ true = ground arith in rw one (read_digit 0 v v s (omega arith) m)
read_digits-digits (suc k) v s l m = elim (Bool-cases (ltb v 10)) [
  | inl one ↦ rw one (read_digit 0 v v s (ground arith) m)
  | inr more ↦
      let power : 10 ^ suc (suc k) ≡ 10 * 10 ^ suc k = grind arith in
      rw more (
        read_digits-digits k (v / 10) ((b'0' + v % 10) ∷ s) (omega (arith, power)) (omega arith)
        ∙ read_digit (v / 10) v v s (omega arith) m)
]

-- A printed number begins with a digit.
digits-cons :
    (k v : ℕ) (s : Bytes)
    → (c : ℕ) × (rest : Bytes) × (digits (suc k) v s ≡ c ∷ rest) × (isdigit c ≡ true)
unfolding digits
digits-cons zero v s = (b'0' + v % 10, s, ground arith, digit v)
digits-cons (suc k) v s = elim (Bool-cases (ltb v 10)) [
  | inl one ↦ (b'0' + v % 10, s, rw one refl, digit v)
  | inr more ↦
      let (c, rest, e, d) = digits-cons k (v / 10) ((b'0' + v % 10) ∷ s) in (c, rest, rw more e, d)
]

digit_space : (c : ℕ) → isdigit c ≡ true → isspace c ≡ false
unfolding isdigit isspace
digit_space c h = ground arith

print_int-digits : (n : ℕ) (s : Bytes) → n < 2 ^ 31 → print_int n s ≡ digits 10 n s
unfolding print_int
print_int-digits n s l = let small : ltb n (2 ^ 31) ≡ true = ground arith in rw small refl

module _ (n : ℕ) (s : Bytes) (l : n < 2 ^ 31) where
  print_int-skip_space : skip_space (print_int n s) ≡ print_int n s
  unfolding skip_space
  print_int-skip_space =
      let (c, rest, e, d) = digits-cons 9 n s in
      rw (print_int-digits n s l, e, digit_space c d) refl

  print_int-digit : isdigit (char_at (print_int n s) 0) ≡ true
  unfolding char_at
  print_int-digit = let (c, rest, e, d) = digits-cons 9 n s in rw (print_int-digits n s l, e) d

  read_digits-print_int : read_digits 0 (print_int n s) ≡ read_digits n s
  read_digits-print_int = rw (print_int-digits n s l) (read_digits-digits 9 n s (omega arith) l)

pub parse_repeat-printed :
    (line : Bytes) (n c : ℕ) (s : Bytes)
    → n < 2 ^ 31
    → (isspace c ≡ false) × ((c == b'r') ≡ false)
    → parse_repeat line (print_repeats n (c ∷ s)) ≡ ok (n, c ∷ s)
unfolding parse_repeat print_repeats strn_eq
parse_repeat-printed line n c s l h = elim (Bool-cases (n == 1)) [
  | inl once ↦
      let one : n ≡ 1 = ground arith in
      let word : strn_eq (c ∷ s) (repeat_word ++ b' ' ∷ []) 7 ≡ false =
        unfold strn_eq in rw h.1 refl in
      let alone : str_eq (c ∷ s) repeat_word ≡ false = unfold str_eq in rw h.1 refl in
      rw (once, word, alone, one) refl
  | inr more ↦
      let text = print_int n (b' ' ∷ c ∷ s) in
      let read : read_digits 0 text ≡ (n, b' ' ∷ c ∷ s) =
        read_digits-print_int n (b' ' ∷ c ∷ s) l ∙ (unfold read_digits isdigit in refl) in
      let number : isspace (char_at (read_digits 0 text).1 0) ≡ true =
        rw read (unfold char_at isspace in refl) in
      let behind : skip_space (b' ' ∷ c ∷ s) ≡ c ∷ s = unfold skip_space isspace in rw h.0 refl in
      let value : ok ((read_digits 0 text).0, skip_space (read_digits 0 text).1) ≡ ok (n, c ∷ s) =
        ap (λ r. ok (r.0, skip_space r.1)) read ∙ ap (λ t. ok (n, t)) behind in
      rw (more, print_int-skip_space n (b' ' ∷ c ∷ s) l, print_int-digit n (b' ' ∷ c ∷ s) l, number)
        value
]
