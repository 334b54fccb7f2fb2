-- ===== src/Server/Lines/Join.antt =====
-- `append_strings` of more_string.c concatenates its arguments, and `starts_with` tests a prefix.
use cs4400_fall.Prelude.{
  ℕ, zero, suc, ◌+◌, ◌≡◌, refl, sym, ap, ◌∙◌, ◌↔◌, true, List, [], ◌∷◌, ◌++◌, some, arith, length,
  length-append, store-append, ◌>>=◌, take, drop, take-append,
}
use mathlib.Core.Path.{fun_ext}
use cs4400_fall.CString.{Bytes}
use cs4400_fall.CString.Compare.{strn_eq_iff}
use cs4400_fall.Server.Output.{Malloc, Out, put_all, put_all-append, fill_block}
use cs4400_fall.Server.Lines.{copy_strings, total_length, append_strings, starts_with}

-- The arguments one behind the other.
abbrev pub joined : List Bytes → Bytes
joined [] = []
joined (s ∷ rest) = s ++ joined rest

copy_strings-joined : (ss : List Bytes) (o : Out) → copy_strings ss o ≡ put_all (joined ss) o
unfolding copy_strings
copy_strings-joined [] o = unfold put_all in refl
copy_strings-joined (s ∷ rest) o =
    ap (λ k. put_all s o >>= k) (fun_ext λ o'. copy_strings-joined rest o')
    ∙ sym (put_all-append s (joined rest) o)

total_length-joined : (ss : List Bytes) → total_length ss ≡ length (joined ss)
unfolding total_length
total_length-joined [] = refl
total_length-joined (s ∷ rest) =
    omega (arith, total_length-joined rest, length-append s (joined rest))

-- `append_strings` writes the strings one behind the other and a terminator, which just fill the
-- block that the first loop sizes.
pub append_strings-joined :
    (m : Malloc) (ss : List Bytes) → append_strings m ss ≡ some (joined ss ++ 0 ∷ [])
unfolding append_strings
append_strings-joined m ss =
    let (x, filled) = fill_block m (joined ss) in
    let run : copy_strings ss (record { pos = 0; dest = some (m.block (total_length ss + 1)) })
        ≡ some (record { pos = length (joined ss); dest = some (joined ss ++ x ∷ []) }) =
      ap (λ n. copy_strings ss (record { pos = 0; dest = some (m.block (n + 1)) }))
        (total_length-joined ss)
      ∙ copy_strings-joined ss _
      ∙ filled in
    rw run (store-append (joined ss) x [] 0)

take-append-drop : (n : ℕ) (s : Bytes) → take n s ++ drop n s ≡ s
take-append-drop zero s = refl
take-append-drop (suc n) [] = refl
take-append-drop (suc n) (c ∷ s) = ap (◌∷◌ c) (take-append-drop n s)

-- `starts_with` tells whether the second string is the first one followed by something.
pub starts_with_iff : (a s : Bytes) → (starts_with a s ≡ true) ↔ ((rest : Bytes) × (s ≡ a ++ rest))
unfolding starts_with
starts_with_iff a s = (
  λ h.
      let e = (strn_eq_iff a s).0 h in
      (drop (length a) s, sym (take-append-drop (length a) s) ∙ ap (λ p. p ++ drop (length a) s) e),
  λ (rest, e). (strn_eq_iff a s).1 (ap (take (length a)) e ∙ take-append a rest (length a) refl),
)
