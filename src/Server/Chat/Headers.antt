-- ===== src/Server/Chat/Headers.antt =====
-- When `read_requesthdrs` of Serverlab/tinychat.c comes back.
use cs4400_fall.Prelude.{
  ℕ, zero, suc, ◌<◌, length-append, ◌≡◌, ◌≢◌, refl, false, List, [], ◌∷◌, ◌++◌, Option, none, some,
  All, arith, take, length, Bool-cases, inl, inr,
}
use cs4400_fall.CString.{Bytes, codes, strchr, str_eq}
use cs4400_fall.CString.Compare.{str_eq_iff}
use cs4400_fall.Server.Dictionary.{Dictionary, case_insens, make_dictionary, dictionary_set}
use cs4400_fall.Server.Dictionary.Ownership.{make_dictionary-Represents}
use cs4400_fall.Server.Dictionary.Spec.{insert}
use cs4400_fall.Server.Output.{Malloc}
use cs4400_fall.Server.Dictionary.Represents.{Represents}
use cs4400_fall.Server.Dictionary.Update.{dictionary_set-insert}
use cs4400_fall.Server.Lines.{parse_header_line, skip_leading, trimmed_length}
use cs4400_fall.Server.Chat.Input.{got, out_of_rounds, headers_loop, read_requesthdrs}

abbrev pub blank : Bytes
blank = codes "\r\n"

abbrev Sound : Dictionary Bytes → Type 0
Sound d = (es : List (Bytes × Bytes)) × Represents d es

module _ (junk_key junk : Bytes) where
  parse_header_line-Sound :
      (line : Bytes) (d : Dictionary Bytes)
      → Sound d
      → (d' : Dictionary Bytes) × (parse_header_line junk_key junk line d ≡ some d') × Sound d'
  unfolding parse_header_line
  parse_header_line-Sound line d (es, r) = go (strchr b':' line)
    where
      go :
          (o : Option (Bytes × Bytes))
          → (d' : Dictionary Bytes) × ((elim o [
            | none ↦ some d
            | some (name, behind) ↦
                let s = skip_leading behind in
                dictionary_set junk_key junk d name (take (trimmed_length s (length s)) s)
          ])
              ≡ some d')
            × Sound d'
      go none = (d, refl, (es, r))
      go (some (name, behind)) =
          let s = skip_leading behind in
          let value = take (trimmed_length s (length s)) s in
          let (d', e, up) = dictionary_set-insert junk_key junk d name value es r in
          (d', e, (insert d.compare_mode name value es, up.entries))

  module _ (m : Malloc) where
    headers_loop-at_blank :
        (rounds : ℕ) (lines : List Bytes) (d : Dictionary Bytes)
        → headers_loop m junk_key junk rounds blank lines d ≡ got d
    unfolding headers_loop str_eq
    headers_loop-at_blank zero lines d = refl
    headers_loop-at_blank (suc rounds) [] d = refl
    headers_loop-at_blank (suc rounds) (line ∷ lines) d = refl

    headers_loop-blank :
        (rounds : ℕ) (buf : Bytes) (lines behind : List Bytes) (d : Dictionary Bytes)
        → length lines < rounds
        → Sound d
        → (d' : Dictionary Bytes) × (headers_loop m junk_key junk rounds buf
              (lines ++ blank ∷ behind)
              d
            ≡ got d')
    unfolding headers_loop
    headers_loop-blank zero buf lines behind d l h = absurd (omega arith)
    headers_loop-blank (suc rounds) buf [] behind d l h = elim (Bool-cases (str_eq buf blank)) [
      | inl done ↦ (d, rw done refl)
      | inr more ↦
          let (d₁, e, h₁) = parse_header_line-Sound blank d h in
          (d₁, rw (more, e) (headers_loop-at_blank rounds behind d₁))
    ]
    headers_loop-blank (suc rounds) buf (line ∷ lines) behind d l h =
        elim (Bool-cases (str_eq buf blank)) [
          | inl done ↦ (d, rw done refl)
          | inr more ↦
              let (d₁, e, h₁) = parse_header_line-Sound line d h in
              let (d', e') = headers_loop-blank rounds line lines behind d₁ (omega arith) h₁ in
              (d', rw (more, e) e')
        ]

    headers_loop-endless :
        (rounds : ℕ) (buf : Bytes) (lines : List Bytes) (d : Dictionary Bytes)
        → Sound d
        → buf ≢ blank
        → All (λ line. line ≢ blank) lines
        → headers_loop m junk_key junk rounds buf lines d ≡ out_of_rounds
    unfolding headers_loop
    headers_loop-endless zero buf lines d h n k =
        let other : str_eq buf blank ≡ false = ground (arith, str_eq_iff buf blank) in rw other refl
    headers_loop-endless (suc rounds) buf [] d h n k =
        let other : str_eq buf blank ≡ false = ground (arith, str_eq_iff buf blank) in
        let (d₁, e, h₁) = parse_header_line-Sound buf d h in
        rw (other, e) (headers_loop-endless rounds buf [] d₁ h₁ n k)
    headers_loop-endless (suc rounds) buf (line ∷ lines) d h n k =
        let other : str_eq buf blank ≡ false = ground (arith, str_eq_iff buf blank) in
        let (d₁, e, h₁) = parse_header_line-Sound line d h in
        rw (other, e) (headers_loop-endless rounds line lines d₁ h₁ k.0 k.1)

-- Of lines none of which is only CR LF, `read_requesthdrs` does not come back, however many rounds
-- its loop goes: a client that closes its connection there makes it loop for ever. With a line that
-- is only CR LF behind them it comes back with a dictionary, in as many rounds as there are lines,
-- whatever the lines are.
pub read_requesthdrs-blank :
    (m : Malloc) (junk_key junk first : Bytes) (lines behind : List Bytes)
    → first ≢ blank
    → All (λ line. line ≢ blank) lines
    → ((rounds : ℕ) → read_requesthdrs m junk_key junk rounds (first ∷ lines) ≡ out_of_rounds)
      × ((d : Dictionary Bytes) × (read_requesthdrs m junk_key junk
              (length (first ∷ lines ++ blank ∷ behind))
              (first ∷ lines ++ blank ∷ behind)
            ≡ got d))
unfolding read_requesthdrs
read_requesthdrs-blank m junk_key junk first lines behind n k =
    let new : Sound (make_dictionary case_insens) = ([], make_dictionary-Represents case_insens) in
    (
      λ rounds.
          headers_loop-endless junk_key junk m rounds first lines (make_dictionary case_insens) new
            n k,
      headers_loop-blank junk_key junk m (length (first ∷ lines ++ blank ∷ behind)) first lines
          behind (make_dictionary case_insens) (omega (arith, length-append lines (blank ∷ behind)))
          new,
    )
