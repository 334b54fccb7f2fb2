-- ===== src/Server/Fields/Total.antt =====
-- `parse_query` of more_string.c always comes to an end.
use cs4400_fall.Prelude.{
  ℕ, zero, suc, ◌<◌, ◌≤◌, ◌≡◌, refl, Bool, true, false, List, [], ◌∷◌, ◌++◌, some, arith, length,
  ◌>>=◌, Bool-cases, inl, inr, All,
}
use cs4400_fall.CString.{Bytes, terminated}
use cs4400_fall.Server.Dictionary.{Dictionary, dictionary_set}
use cs4400_fall.Server.Dictionary.Represents.{Represents}
use cs4400_fall.Server.Dictionary.Spec.{insert}
use cs4400_fall.Server.Dictionary.Update.{dictionary_set-insert}
use cs4400_fall.Server.Output.{Malloc}
use cs4400_fall.Server.Query.Buffers.{decoded, query_decode-decoded}
use cs4400_fall.Server.Fields.{
  is_qsep, is_end_char, at_end, until, ends_name, ends_data, skip_equal, skip_sep, parse_field,
  query_loop, parse_query,
}

pub until-append :
    (stop : ℕ → Bool) (a rest : Bytes)
    → All (λ c. stop c ≡ false) a
    → until stop rest ≡ ([], rest)
    → until stop (a ++ rest) ≡ (a, rest)
unfolding until
until-append stop [] rest h e = e
until-append stop (c ∷ a) rest h e = rw (until-append stop a rest h.1 e, h.0) refl

length-until : (stop : ℕ → Bool) (s : Bytes) → length (until stop s).1 ≤ length s
unfolding until
length-until stop [] = omega arith
length-until stop (c ∷ s) = ground (arith, length-until stop s)

length-skip_sep : (s : Bytes) → length (skip_sep s) ≤ length s
unfolding skip_sep
length-skip_sep [] = omega arith
length-skip_sep (c ∷ s) = ground arith

length-skip_equal : (s : Bytes) → length (skip_equal s) ≤ length s
unfolding skip_equal
length-skip_equal [] = omega arith
length-skip_equal (c ∷ s) = ground arith

-- What a round leaves of the string.
abbrev pub behind : Bytes → Bytes
behind buf = skip_sep (until ends_data (skip_equal (until ends_name buf).1)).1

length-behind_le :
    (buf rest : Bytes) → (until ends_name buf).1 ≡ rest → length (behind buf) ≤ length rest
length-behind_le buf rest e =
    let s = skip_equal rest in
    rw e (
      omega (
        arith,
        length-skip_sep (until ends_data s).1,
        length-until ends_data s,
        length-skip_equal rest,
      ))

-- A byte on which both inner loops stop at once, or that the step behind the first one passes.
behind-stop :
    (c : ℕ) (s : Bytes)
    → is_end_char c ≡ false
    → ends_name c ≡ true
    → length (behind (c ∷ s)) ≤ length s
behind-stop c s live stop =
    let stopped : (until ends_name (c ∷ s)).1 ≡ c ∷ s = unfold until in rw stop refl in
    elim (Bool-cases (is_qsep c)) [
      | inl sep ↦
          let kept : skip_equal (c ∷ s) ≡ c ∷ s = unfold skip_equal in rw (live, sep) refl in
          let stopped' : (until ends_data (c ∷ s)).1 ≡ c ∷ s =
            unfold until in rw (live, sep) refl in
          let passed : skip_sep (c ∷ s) ≡ s = unfold skip_sep in rw live refl in
          rw (stopped, kept, stopped', passed) (omega arith)
      | inr eq ↦
          let passed : skip_equal (c ∷ s) ≡ s = unfold skip_equal in rw (live, eq) refl in
          rw (stopped, passed)
            (omega (arith, length-skip_sep (until ends_data s).1, length-until ends_data s))
    ]

-- A round passes at least one byte.
length-behind : (buf : Bytes) → at_end buf ≡ false → length (behind buf) < length buf
unfolding at_end
length-behind [] h = ground arith
length-behind (c ∷ s) h = elim (Bool-cases (ends_name c)) [
  | inl stop ↦ omega (arith, behind-stop c s h stop)
  | inr more ↦
      let shorter : length (behind (c ∷ s)) ≤ length (until ends_name s).1 =
        length-behind_le (c ∷ s) (until ends_name s).1 (unfold until in rw more refl) in
      omega (arith, shorter, length-until ends_name s)
]

module _ (m : Malloc) (junk_key junk : Bytes) where
  pub parse_field-set :
      (buf : Bytes) (d : Dictionary Bytes)
      → parse_field m junk_key junk buf d ≡ (
          dictionary_set junk_key junk d (until ends_name buf).0 (
            terminated (decoded (until ends_data (skip_equal (until ends_name buf).1)).0 ++ 0 ∷ []))
          >>= λ d'. some (behind buf, d'))
  unfolding parse_field
  parse_field-set buf d =
      rw
        (
          query_decode-decoded m (until ends_name buf).0,
          query_decode-decoded m (until ends_data (skip_equal (until ends_name buf).1)).0,
        )
        refl

  query_loop-total :
      (rounds : ℕ) (buf : Bytes) (d : Dictionary Bytes) (es : List (Bytes × Bytes))
      → Represents d es
      → length buf ≤ rounds
      → (d' : Dictionary Bytes) × (es' : List (Bytes × Bytes)) × (query_loop m junk_key junk rounds
            buf d
          ≡ some d')
        × Represents d' es'
  unfolding query_loop
  query_loop-total zero [] d es r h = (d, es, unfold at_end in refl, r)
  query_loop-total zero (c ∷ s) d es r h = absurd (omega arith)
  query_loop-total (suc rounds) buf d es r h = elim (Bool-cases (at_end buf)) [
    | inl done ↦ (d, es, rw done refl, r)
    | inr more ↦
        let name = (until ends_name buf).0 in
        let value =
          terminated (decoded (until ends_data (skip_equal (until ends_name buf).1)).0 ++ 0 ∷ []) in
        let (d₁, run, up) = dictionary_set-insert junk_key junk d name value es r in
        let (d₂, es₂, rest, r₂) =
          query_loop-total rounds (behind buf) d₁ (insert d.compare_mode name value es) up.entries
            (omega (arith, length-behind buf more)) in
        (d₂, es₂, rw (more, parse_field-set buf d, run) rest, r₂)
  ]

  -- On any string `parse_query` comes to an end, within as many rounds as the string has bytes,
  -- and adds fields to a dictionary without a fault.
  pub parse_query-total :
      (buf : Bytes) (d : Dictionary Bytes) (es : List (Bytes × Bytes))
      → Represents d es
      → (d' : Dictionary Bytes) × (es' : List (Bytes × Bytes)) × (parse_query m junk_key junk buf d
          ≡ some d')
        × Represents d' es'
  unfolding parse_query
  parse_query-total buf d es r = query_loop-total (length buf) buf d es r (omega arith)
