-- ===== src/Server/Lines/Header.antt =====
-- `parse_header_line` of more_string.c: the name before the colon, and the value without the
-- white space around it.
use cs4400_fall.Prelude.{
  ℕ, zero, suc, ◌+◌, ◌<◌, ◌≡◌, refl, sym, ap, ◌∙◌, true, false, [], ◌∷◌, ◌++◌, some, arith, length,
  length-append, take-append, append_assoc, All,
}
use Prim.Native.Nat.add
use mathlib.Core.Path.{subst}
use cs4400_fall.CString.{Bytes, char_at, isspace}
use cs4400_fall.CString.Search.{has, strchr-append, strchr-none}
use cs4400_fall.Server.Dictionary.{Dictionary, dictionary_set}
use cs4400_fall.Server.Lines.{skip_leading, trimmed_length, parse_header_line}

abbrev pub IsSpace : ℕ → Type 0
IsSpace c = isspace c ≡ true

-- A value that neither begins nor ends in white space.
pub record IsTrimmed (v : Bytes) : Type 0 where
  pub head : ℕ
  pub tail : Bytes
  pub front : Bytes
  pub last : ℕ
  pub begins : v ≡ head ∷ tail
  pub ends : v ≡ front ++ last ∷ []
  pub head_dark : isspace head ≡ false
  pub last_dark : isspace last ≡ false

skip_leading-append : (pad s : Bytes) → All IsSpace pad → skip_leading (pad ++ s) ≡ skip_leading s
unfolding skip_leading
skip_leading-append [] s h = refl
skip_leading-append (c ∷ pad) s h = rw (skip_leading, h.0) (skip_leading-append pad s h.1)

skip_leading-dark : (c : ℕ) (s : Bytes) → isspace c ≡ false → skip_leading (c ∷ s) ≡ c ∷ s
unfolding skip_leading
skip_leading-dark c s h = rw (skip_leading, h) refl

char_at-append : (a b : Bytes) (i : ℕ) → char_at (a ++ b) (length a + i) ≡ char_at b i
unfolding char_at
char_at-append [] b i = ap (char_at b) (omega arith)
char_at-append (x ∷ a) b i = rw add.suc (char_at-append a b i)

char_at-All : (s : Bytes) (i : ℕ) → All IsSpace s → i < length s → isspace (char_at s i) ≡ true
unfolding char_at
char_at-All [] i h l = elim l [ ]
char_at-All (c ∷ s) zero h l = h.0
char_at-All (c ∷ s) (suc i) h l = char_at-All s i h.1 (omega arith)

trimmed_length-step :
    (s : Bytes) (n : ℕ)
    → isspace (char_at s n) ≡ true
    → trimmed_length s (suc n) ≡ trimmed_length s n
unfolding trimmed_length char_at
trimmed_length-step s n h = rw (trimmed_length, h) refl

-- The loop passes the white space behind the value.
trimmed_length-tail :
    (v tail : Bytes) (n : ℕ)
    → All IsSpace tail
    → n < length tail + 1
    → trimmed_length (v ++ tail) (length v + n) ≡ trimmed_length (v ++ tail) (length v)
trimmed_length-tail v tail zero h l = ap (trimmed_length (v ++ tail)) (omega arith)
trimmed_length-tail v tail (suc n) h l =
    let blank : isspace (char_at (v ++ tail) (length v + n)) ≡ true =
      ap isspace (char_at-append v tail n) ∙ char_at-All tail n h (omega arith) in
    ap (trimmed_length (v ++ tail)) (omega arith)
    ∙ trimmed_length-step (v ++ tail) (length v + n) blank
    ∙ trimmed_length-tail v tail n h (omega arith)

trimmed_length-dark :
    (front : Bytes) (last : ℕ) (tail : Bytes)
    → isspace last ≡ false
    → trimmed_length ((front ++ last ∷ []) ++ tail) (length (front ++ last ∷ []))
      ≡ length (front ++ last ∷ [])
unfolding trimmed_length char_at
trimmed_length-dark front last tail h =
    let size : length (front ++ last ∷ []) ≡ suc (length front) =
      omega (arith, length-append front (last ∷ [])) in
    let at : char_at ((front ++ last ∷ []) ++ tail) (length front) ≡ last =
      ap (λ s. char_at s (length front)) (append_assoc front (last ∷ []) tail)
      ∙ ap (char_at (front ++ last ∷ tail)) (omega arith)
      ∙ char_at-append front (last ∷ tail) 0 in
    rw size (rw (trimmed_length, at, h) refl)

module _ (junk_key junk : Bytes) (d : Dictionary Bytes) where
  -- A line of a name with no colon, a colon, white space, a value that neither begins nor ends in
  -- white space, and white space, sets the name to the value.
  pub parse_header_line-set :
      (name pad v tail : Bytes)
      → has b':' name ≡ false
      → All IsSpace pad
      → IsTrimmed v
      → All IsSpace tail
      → parse_header_line junk_key junk (name ++ b':' ∷ (pad ++ (v ++ tail))) d
        ≡ dictionary_set junk_key junk d name v
  unfolding parse_header_line
  parse_header_line-set name pad v tail whole spaces t more =
      let skipped : skip_leading (pad ++ (v ++ tail)) ≡ v ++ tail =
        skip_leading-append pad (v ++ tail) spaces
        ∙ ap (λ s. skip_leading (s ++ tail)) t.begins
        ∙ skip_leading-dark t.head (t.tail ++ tail) t.head_dark
        ∙ ap (λ s. s ++ tail) (sym t.begins) in
      let size : trimmed_length (v ++ tail) (length (v ++ tail)) ≡ length v =
        ap (trimmed_length (v ++ tail)) (length-append v tail)
        ∙ trimmed_length-tail v tail (length tail) more (omega arith)
        ∙ subst (λ s. trimmed_length (s ++ tail) (length s) ≡ length s) (sym t.ends)
            (trimmed_length-dark t.front t.last tail t.last_dark) in
      rw (parse_header_line, strchr-append b':' name (pad ++ (v ++ tail)) whole, skipped)
        (ap (dictionary_set junk_key junk d name) (take-append v tail _ size))

  -- A line with no colon sets nothing.
  pub parse_header_line-none :
      (buf : Bytes) → has b':' buf ≡ false → parse_header_line junk_key junk buf d ≡ some d
  unfolding parse_header_line
  parse_header_line-none buf h = rw (parse_header_line, strchr-none b':' buf h) refl
