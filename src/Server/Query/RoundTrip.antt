-- ===== src/Server/Query/RoundTrip.antt =====
-- `query_decode` undoes `query_encode`, and what `query_encode` writes is safe in a query.
use cs4400_fall.Prelude.{
  ℕ, ◌+◌, ◌*◌, ◌/◌, ◌%◌, ◌<◌, ◌≡◌, refl, ap, ◌∙◌, true, ◌||◌, [], ◌∷◌, ◌++◌, some, arith,
  Bool-cases, inl, inr, ◌==◌, All, All-append,
}
use cs4400_fall.CString.{Bytes, IsText, terminated}
use cs4400_fall.CString.Compare.{terminated-append}
use cs4400_fall.Server.Output.{Malloc}
use cs4400_fall.Server.Query.{
  is_escape, hex_value, hex_digit, decode_plain, query_decode, encode_byte, query_encode,
  is_unreserved, ishexdigit,
}
use cs4400_fall.Server.Query.Buffers.{decoded, encoded, query_decode-decoded, query_encode-encoded}

hex_digit_lem : (n : ℕ) → n < 16 → (ishexdigit (hex_digit n) ≡ true) × (hex_value (hex_digit n) ≡ n)
unfolding ishexdigit hex_digit hex_value
hex_digit_lem n h = ground arith

decoded-plain :
    (c : ℕ) (rest : Bytes) → is_unreserved c ≡ true → decoded (c ∷ rest) ≡ c ∷ decoded rest
unfolding decoded is_unreserved is_escape decode_plain
decoded-plain c [] h = ground arith
decoded-plain c (a ∷ []) h = ground arith
decoded-plain c (a ∷ b ∷ rest) h = ground arith

decoded-escape :
    (a b : ℕ) (rest : Bytes)
    → ishexdigit a ≡ true
    → ishexdigit b ≡ true
    → decoded (b'%' ∷ a ∷ b ∷ rest) ≡ (hex_value a * 16 + hex_value b) ∷ decoded rest
unfolding decoded hex_value
decoded-escape a b rest ha hb =
    let e : is_escape b'%' a b ≡ true = unfold is_escape in rw (ha, hb) refl in rw (e, decoded) refl

decoded-encode_byte :
    (c : ℕ) (rest : Bytes) → c < 256 → decoded (encode_byte c ++ rest) ≡ c ∷ decoded rest
unfolding encode_byte
decoded-encode_byte c rest h = elim (Bool-cases (is_unreserved c)) [
  | inl u ↦ rw u (decoded-plain c rest u)
  | inr r ↦
      let (high, high_value) = hex_digit_lem (c / 16) (omega arith) in
      let (low, low_value) = hex_digit_lem (c % 16) (omega arith) in
      rw r (
        decoded-escape (hex_digit (c / 16)) (hex_digit (c % 16)) rest high low
        ∙ ap (λ n. n ∷ decoded rest) (omega (arith, high_value, low_value)))
]

pub decoded-encoded : (s : Bytes) → IsText s → decoded (encoded s) ≡ s
unfolding encoded
decoded-encoded [] t = unfold decoded in refl
decoded-encoded (c ∷ s) t =
    decoded-encode_byte c (encoded s) t.1 ∙ ap (◌∷◌ c) (decoded-encoded s t.2)

-- The bytes that `query_encode` writes.
abbrev pub IsSafe : ℕ → Type 0
IsSafe c = (is_unreserved c || c == b'%') ≡ true

encode_byte-IsSafe : (c : ℕ) → c < 256 → All IsSafe (encode_byte c)
unfolding encode_byte is_unreserved hex_digit
encode_byte-IsSafe c h = ground arith

pub encoded-IsSafe : (s : Bytes) → IsText s → All IsSafe (encoded s)
unfolding encoded
encoded-IsSafe [] t = tt
encoded-IsSafe (c ∷ s) t =
    All-append IsSafe (encode_byte c) (encoded s) (encode_byte-IsSafe c t.1) (encoded-IsSafe s t.2)

pub IsSafe-IsText : (s : Bytes) → All IsSafe s → IsText s
unfolding is_unreserved
IsSafe-IsText [] h = tt
IsSafe-IsText (c ∷ s) h = (ground arith, ground arith, IsSafe-IsText s h.1)

module _ (m : Malloc) (s : Bytes) (text : IsText s) where
  encoded_string : terminated (encoded s ++ 0 ∷ []) ≡ encoded s
  encoded_string =
      terminated-append (encoded s) [] (IsSafe-IsText (encoded s) (encoded-IsSafe s text))

  -- For a C string of bytes, `query_encode` returns a string of which `query_decode` gives the
  -- first one back, with its terminator.
  pub query_decode-encode :
      (e : Bytes) × (query_encode m s ≡ some e)
      × (query_decode m (terminated e) ≡ some (s ++ 0 ∷ []))
  query_decode-encode = (
    encoded s ++ 0 ∷ [],
    query_encode-encoded m s,
    rw (encoded_string, query_decode-decoded, decoded-encoded s text) refl,
  )

  -- The string that `query_encode` returns for a C string of bytes holds only ASCII letters,
  -- digits and `%`.
  pub query_encode-IsSafe : (e : Bytes) × (query_encode m s ≡ some e) × All IsSafe (terminated e)
  query_encode-IsSafe =
      (encoded s ++ 0 ∷ [], query_encode-encoded m s, rw encoded_string (encoded-IsSafe s text))
