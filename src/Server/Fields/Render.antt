-- ===== src/Server/Fields/Render.antt =====
-- `parse_query` of more_string.c reads back the fields of a query.
use cs4400_fall.Prelude.{
  ℕ, zero, suc, ◌≤◌, ◌≡◌, refl, ap, ◌∙◌, true, false, List, [], ◌∷◌, ◌++◌, some, arith, length,
  length-append, ◌>>=◌, All, >>=-assoc,
}
use mathlib.Core.Path.{fun_ext}
use cs4400_fall.CString.{Bytes, IsText}
use cs4400_fall.CString.Compare.{terminated-append}
use cs4400_fall.CString.Search.{has, strchr-append}
use cs4400_fall.Server.Dictionary.{Dictionary, dictionary_set}
use cs4400_fall.Server.Dictionary.Ownership.{set_all}
use cs4400_fall.Server.Output.{Malloc}
use cs4400_fall.Server.Query.{is_unreserved}
use cs4400_fall.Server.Query.Buffers.{encoded}
use cs4400_fall.Server.Query.RoundTrip.{IsSafe, decoded-encoded, encoded-IsSafe}
use cs4400_fall.Server.Fields.{
  is_qsep, is_end_char, at_end, until, ends_name, ends_data, skip_equal, skip_sep, parse_field,
  query_loop, parse_query, parse_uriquery,
}
use cs4400_fall.Server.Fields.Total.{until-append, parse_field-set}

-- A name that the parser takes whole: no separator, no `=` and no end in it.
abbrev pub IsName : Bytes → Type 0
IsName = All (λ c. ends_name c ≡ false)

abbrev pub AreFields : List (Bytes × Bytes) → Type 0
AreFields [] = Unit
AreFields ((n, v) ∷ ps) = IsName n × IsText v × AreFields ps

abbrev pub sep : List (Bytes × Bytes) → Bytes → Bytes
sep [] rest = rest
sep (p ∷ ps) rest = b'&' ∷ rest

-- The query of some fields: the names as they are, the values encoded.
abbrev pub render : List (Bytes × Bytes) → Bytes → Bytes
render [] rest = rest
render ((n, v) ∷ ps) rest = n ++ b'=' ∷ (encoded v ++ sep ps (render ps rest))

IsSafe-ends_data : (c : ℕ) → IsSafe c → ends_data c ≡ false
unfolding is_unreserved is_end_char is_qsep
IsSafe-ends_data c h = ground arith

encoded-ends_data : (s : Bytes) → All IsSafe s → All (λ c. ends_data c ≡ false) s
encoded-ends_data [] h = tt
encoded-ends_data (c ∷ s) h = (IsSafe-ends_data c h.0, encoded-ends_data s h.1)

until-at_end : (rest : Bytes) → at_end rest ≡ true → until ends_data rest ≡ ([], rest)
unfolding until at_end
until-at_end [] h = refl
until-at_end (c ∷ s) h = rw h refl

skip_sep-at_end : (rest : Bytes) → at_end rest ≡ true → skip_sep rest ≡ rest
unfolding skip_sep at_end
skip_sep-at_end [] h = refl
skip_sep-at_end (c ∷ s) h = rw h refl

module _ (rest : Bytes) (end : at_end rest ≡ true) where
  until-sep :
      (ps : List (Bytes × Bytes))
      → until ends_data (sep ps (render ps rest)) ≡ ([], sep ps (render ps rest))
  until-sep [] = until-at_end rest end
  until-sep (p ∷ ps) = unfold until is_end_char is_qsep in refl

  skip_sep-sep : (ps : List (Bytes × Bytes)) → skip_sep (sep ps (render ps rest)) ≡ render ps rest
  skip_sep-sep [] = skip_sep-at_end rest end
  skip_sep-sep (p ∷ ps) = unfold skip_sep is_end_char in refl

  at_end-render :
      (n v : Bytes) (ps : List (Bytes × Bytes))
      → IsName n
      → at_end (render ((n, v) ∷ ps) rest) ≡ false
  unfolding at_end is_end_char
  at_end-render [] v ps h = refl
  at_end-render (c ∷ n) v ps h = ground arith

  length-render : (ps : List (Bytes × Bytes)) → length ps ≤ length (render ps rest)
  length-render [] = omega arith
  length-render ((n, v) ∷ []) = omega (arith, length-append n (b'=' ∷ (encoded v ++ rest)))
  length-render ((n, v) ∷ p ∷ ps) = omega (
    arith,
    length-render (p ∷ ps),
    length-append n (b'=' ∷ (encoded v ++ b'&' ∷ render (p ∷ ps) rest)),
    length-append (encoded v) (b'&' ∷ render (p ∷ ps) rest),
  )

  module _ (m : Malloc) (junk_key junk : Bytes) where
    parse_field-render :
        (n v : Bytes) (ps : List (Bytes × Bytes)) (d : Dictionary Bytes)
        → IsName n
        → IsText v
        → parse_field m junk_key junk (render ((n, v) ∷ ps) rest) d
          ≡ (dictionary_set junk_key junk d n v >>= λ d'. some (render ps rest, d'))
    parse_field-render n v ps d name text =
        let tail = sep ps (render ps rest) in
        let named : until ends_name (n ++ b'=' ∷ (encoded v ++ tail))
            ≡ (n, b'=' ∷ (encoded v ++ tail)) =
          until-append ends_name n (b'=' ∷ (encoded v ++ tail)) name
            (unfold until is_end_char is_qsep in refl) in
        let skipped : skip_equal (b'=' ∷ (encoded v ++ tail)) ≡ encoded v ++ tail =
          unfold skip_equal is_end_char is_qsep in refl in
        let valued =
          until-append ends_data (encoded v) tail
            (encoded-ends_data (encoded v) (encoded-IsSafe v text)) (until-sep ps) in
        parse_field-set m junk_key junk (render ((n, v) ∷ ps) rest) d
        ∙ rw
            (
              named,
              skipped,
              valued,
              decoded-encoded v text,
              terminated-append v [] text,
              skip_sep-sep ps,
            )
            refl

    query_loop-render :
        (ps : List (Bytes × Bytes)) (rounds : ℕ) (d : Dictionary Bytes)
        → AreFields ps
        → length ps ≤ rounds
        → query_loop m junk_key junk rounds (render ps rest) d ≡ set_all junk_key junk d ps
    unfolding query_loop set_all
    query_loop-render [] zero d f h = rw end refl
    query_loop-render [] (suc rounds) d f h = rw end refl
    query_loop-render ((n, v) ∷ ps) zero d f h = absurd (omega arith)
    query_loop-render ((n, v) ∷ ps) (suc rounds) d f h =
        rw (at_end-render n v ps f.0, parse_field-render n v ps d f.0 f.1, >>=-assoc)
          (ap (λ k. dictionary_set junk_key junk d n v >>= k)
            (fun_ext λ d'. query_loop-render ps rounds d' f.2 (omega arith)))

    -- The query of a list of fields, up to its end or a `#`, sets every field in turn: the values,
    -- which `query_encode` has encoded, are decoded again, while the names are taken as they stand.
    pub parse_query-render :
        (ps : List (Bytes × Bytes)) (d : Dictionary Bytes)
        → AreFields ps
        → parse_query m junk_key junk (render ps rest) d ≡ set_all junk_key junk d ps
    unfolding parse_query
    parse_query-render ps d f =
        query_loop-render ps (length (render ps rest)) d f (length-render ps)

    -- `parse_uriquery` of a URI sets the fields of the query behind its first `?` in turn, as
    -- `parse_query` does: the values decoded, the names as they stand.
    pub parse_uriquery-render :
        (path : Bytes) (ps : List (Bytes × Bytes)) (d : Dictionary Bytes)
        → has b'?' path ≡ false
        → AreFields ps
        → parse_uriquery m junk_key junk (path ++ b'?' ∷ render ps rest) d
          ≡ set_all junk_key junk d ps
    unfolding parse_uriquery
    parse_uriquery-render path ps d h f =
        rw (strchr-append b'?' path (render ps rest) h, parse_uriquery) (parse_query-render ps d f)
