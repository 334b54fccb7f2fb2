-- ===== src/Server/Lines/Three.antt =====
-- `parse_three` of more_string.c accepts just the lines of three parts, and takes them apart.
use cs4400_fall.Prelude.{
  ℕ, suc, ◌-◌, ◌≡◌, refl, sym, ap, ◌∙◌, ◌↔◌, Bool, true, false, not, ◌&&◌, ◌||◌, [], ◌∷◌, ◌++◌,
  none, some, arith, ◌==◌, length, length-append, take, take-append, guard, append_assoc,
  guard-eq-some, >>=-eq-some,
}
use mathlib.Core.Path.{subst}
use mathlib.Core.Option.{some-injective}
use cs4400_fall.CString.{Bytes, strchr}
use cs4400_fall.CString.Search.{has, strchr-append, strchr-eq-some, strchr-has}
use cs4400_fall.Server.Lines.{ends_line, parse_three}

-- Whether the last two bytes are "\r\n".
abbrev ends : Bytes → Bool
ends [] = false
ends (x ∷ []) = false
ends (x ∷ y ∷ []) = x == 13 && y == 10
ends (x ∷ y ∷ z ∷ r) = ends (y ∷ z ∷ r)

ends_line-ends : (s : Bytes) → ends_line s ≡ ends s
unfolding ends_line
ends_line-ends [] = refl
ends_line-ends (x ∷ []) = refl
ends_line-ends (x ∷ y ∷ []) = ground arith
ends_line-ends (x ∷ y ∷ z ∷ r) =
    let n = length r in
    let far : suc (suc (suc n)) - 2 ≡ suc n = omega arith in
    let last : suc (suc (suc n)) - 1 ≡ suc (suc n) = omega arith in
    let near : suc (suc n) - 2 ≡ n = omega arith in
    let end : suc (suc n) - 1 ≡ suc n = omega arith in
    rw (← ends_line-ends (y ∷ z ∷ r), far, last, near, end) (ground arith)

ends-append : (s : Bytes) → ends (s ++ 13 ∷ 10 ∷ []) ≡ true
ends-append [] = refl
ends-append (x ∷ []) = refl
ends-append (x ∷ y ∷ []) = refl
ends-append (x ∷ y ∷ z ∷ s) = ends-append (y ∷ z ∷ s)

ends-behind : (p w : Bytes) → ends (p ++ b' ' ∷ w) ≡ true → ends w ≡ true
ends-behind [] [] h = ground arith
ends-behind [] (x ∷ []) h = ground arith
ends-behind [] (x ∷ y ∷ w) h = h
ends-behind (a ∷ []) [] h = ground arith
ends-behind (a ∷ []) (x ∷ w) h = ends-behind [] (x ∷ w) h
ends-behind (a ∷ b ∷ []) w h = ends-behind (b ∷ []) w h
ends-behind (a ∷ b ∷ c ∷ p) w h = ends-behind (b ∷ c ∷ p) w h

-- The part in front of "\r\n".
ends_split : (s : Bytes) → ends s ≡ true → (v : Bytes) × (s ≡ v ++ 13 ∷ 10 ∷ [])
ends_split [] h = ground arith
ends_split (x ∷ []) h = ground arith
ends_split (x ∷ y ∷ []) h = ([], ground arith)
ends_split (x ∷ y ∷ z ∷ r) h = let (v, e) = ends_split (y ∷ z ∷ r) h in (x ∷ v, ap (◌∷◌ x) e)

has-append : (c : ℕ) (a b : Bytes) → has c (a ++ b) ≡ (has c a || has c b)
has-append c [] b = refl
has-append c (x ∷ a) b = ground (arith, has-append c a b)

-- A line of three parts.
abbrev pub line_of : Bytes × Bytes × Bytes → Bytes
line_of (one, two, three) = one ++ b' ' ∷ (two ++ b' ' ∷ (three ++ 13 ∷ 10 ∷ []))

-- The first two parts hold no space, and the third only if that is allowed.
pub record IsLine (extra : Bool) (parts : Bytes × Bytes × Bytes) : Type 0 where
  pub one_whole : has b' ' parts.0 ≡ false
  pub two_whole : has b' ' parts.1 ≡ false
  pub three_whole : (extra || not (has b' ' parts.2)) ≡ true

no_space-tail : (v : Bytes) → has b' ' (v ++ 13 ∷ 10 ∷ []) ≡ has b' ' v
no_space-tail v = has-append b' ' v (13 ∷ 10 ∷ []) ∙ ground arith

tail_test :
    (extra : Bool) (v : Bytes)
    → (extra || elim (strchr b' ' (v ++ 13 ∷ 10 ∷ [])) [ none ↦ true | some _ ↦ false ])
      ≡ (extra || not (has b' ' v))
tail_test extra v =
    ap (λ b. extra || b) (strchr-has b' ' (v ++ 13 ∷ 10 ∷ []) ∙ ap not (no_space-tail v))

ends_line-line_of : (one two three : Bytes) → ends_line (line_of (one, two, three)) ≡ true
ends_line-line_of one two three =
    let whole = one ++ b' ' ∷ (two ++ b' ' ∷ three) in
    let e : line_of (one, two, three) ≡ whole ++ 13 ∷ 10 ∷ [] = sym (simp append_assoc) in
    ends_line-ends (line_of (one, two, three)) ∙ ap ends e ∙ ends-append whole

length-line_of :
    (one two three : Bytes)
    → length (line_of (one, two, three)) - 2 - length one - length two - 2 ≡ length three
length-line_of one two three = omega (
  arith,
  length-append one (b' ' ∷ (two ++ b' ' ∷ (three ++ 13 ∷ 10 ∷ []))),
  length-append two (b' ' ∷ (three ++ 13 ∷ 10 ∷ [])),
  length-append three (13 ∷ 10 ∷ []),
)

module _ (extra : Bool) where
  parse_three-line_of :
      (one two three : Bytes)
      → IsLine extra (one, two, three)
      → parse_three (line_of (one, two, three)) extra ≡ some (one, two, three)
  unfolding parse_three
  parse_three-line_of one two three w =
      rw
        (
          ends_line-line_of one two three,
          strchr-append b' ' one (two ++ b' ' ∷ (three ++ 13 ∷ 10 ∷ [])) w.one_whole,
          strchr-append b' ' two (three ++ 13 ∷ 10 ∷ []) w.two_whole,
          tail_test extra three,
          w.three_whole,
        )
        (ap (λ v. some (one, two, v))
          (take-append three (13 ∷ 10 ∷ []) _ (length-line_of one two three)))

  -- The facts that an accepted line leaves, put together.
  parts_of :
      (buf : Bytes) (parts : Bytes × Bytes × Bytes) (one behind two rest : Bytes)
      → ends_line buf ≡ true
      → buf ≡ one ++ b' ' ∷ behind
      → has b' ' one ≡ false
      → behind ≡ two ++ b' ' ∷ rest
      → has b' ' two ≡ false
      → (extra || elim (strchr b' ' rest) [ none ↦ true | some _ ↦ false ]) ≡ true
      → (one, two, take (length buf - 2 - length one - length two - 2) rest) ≡ parts
      → (buf ≡ line_of parts) × IsLine extra parts
  parts_of buf parts one behind two rest at_end split_one one_whole split_two two_whole no_more e =
      let whole : buf ≡ one ++ b' ' ∷ (two ++ b' ' ∷ rest) =
        split_one ∙ ap (λ b. one ++ b' ' ∷ b) split_two in
      let closed =
        ends-behind one behind (ap ends (sym split_one) ∙ sym (ends_line-ends buf) ∙ at_end) in
      let closed' = ends-behind two rest (ap ends (sym split_two) ∙ closed) in
      let (three, tail) = ends_split rest closed' in
      let line : buf ≡ line_of (one, two, three) =
        whole ∙ ap (λ r. one ++ b' ' ∷ (two ++ b' ' ∷ r)) tail in
      let size =
        ap (λ b. length b - 2 - length one - length two - 2) line ∙ length-line_of one two three in
      let taken : take (length buf - 2 - length one - length two - 2) rest ≡ three =
        ap (take (length buf - 2 - length one - length two - 2)) tail
        ∙ take-append three (13 ∷ 10 ∷ []) _ size in
      let parts_are = ap (λ t. (one, two, t)) (sym taken) ∙ e in
      subst (λ p. (buf ≡ line_of p) × IsLine extra p) parts_are
        (
          line,
          record {
            one_whole = one_whole;
            two_whole = two_whole;
            three_whole =
                sym (
                  ap (λ r. extra || elim (strchr b' ' r) [ none ↦ true | some _ ↦ false ]) tail
                  ∙ tail_test extra three)
                ∙ no_more;
          },
        )

  parse_three-IsLine :
      (buf : Bytes) (parts : Bytes × Bytes × Bytes)
      → parse_three buf extra ≡ some parts
      → (buf ≡ line_of parts) × IsLine extra parts
  unfolding parse_three
  parse_three-IsLine buf parts h =
      let (_, at_end, h₁) = >>=-eq-some (guard (ends_line buf)) _ h in
      let ((one, behind), first, h₂) = >>=-eq-some (strchr b' ' buf) _ h₁ in
      let ((two, rest), second, h₃) = >>=-eq-some (strchr b' ' behind) _ h₂ in
      let (_, no_more, h₄) = >>=-eq-some (guard _) _ h₃ in
      let (split_one, one_whole) = strchr-eq-some b' ' buf one behind first in
      let (split_two, two_whole) = strchr-eq-some b' ' behind two rest second in
      parts_of buf parts one behind two rest (guard-eq-some (ends_line buf) at_end) split_one
        one_whole split_two two_whole (guard-eq-some _ no_more) (some-injective _ _ h₄)

-- The accepted lines are just those of three parts, with no space in the first two, and none in
-- the third unless extra spaces are allowed; the parts are returned, without spaces and "\r\n".
pub parse_three_iff :
    (extra : Bool) (buf : Bytes) (parts : Bytes × Bytes × Bytes)
    → (parse_three buf extra ≡ some parts) ↔ ((buf ≡ line_of parts) × IsLine extra parts)
parse_three_iff extra buf parts = (
  parse_three-IsLine extra buf parts,
  λ (e, w). ap (λ b. parse_three b extra) e ∙ parse_three-line_of extra parts.0 parts.1 parts.2 w,
)
