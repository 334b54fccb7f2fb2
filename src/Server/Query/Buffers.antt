-- ===== src/Server/Query/Buffers.antt =====
-- The codecs of more_string.c write just the decoded or encoded bytes, within their buffers.
use cs4400_fall.Prelude.{
  ◌+◌, ◌*◌, ◌≡◌, refl, sym, ap, ◌∙◌, true, false, [], ◌∷◌, ◌++◌, some, ◌>>=◌, Bool-cases, inl, inr,
}
use mathlib.Core.Path.{fun_ext}
use cs4400_fall.CString.{Bytes}
use cs4400_fall.Server.Output.{Malloc, Out, put, put_all, put_all-append, two_pass-put_all}
use cs4400_fall.Server.Query.{
  is_escape, hex_value, decode_plain, decode_loop, query_decode, encode_byte, encode_loop,
  query_encode,
}

-- The text that a query string stands for.
unfoldable pub decoded : Bytes → Bytes
decoded [] = []
decoded (c ∷ a ∷ b ∷ cs) = elim (is_escape c a b) [
  | true ↦ (hex_value a * 16 + hex_value b) ∷ decoded cs
  | false ↦ decode_plain c ∷ decoded (a ∷ b ∷ cs)
]
decoded (c ∷ cs) = decode_plain c ∷ decoded cs

unfoldable pub encoded : Bytes → Bytes
encoded [] = []
encoded (c ∷ cs) = encode_byte c ++ encoded cs

decode_loop-put_all : (s : Bytes) (o : Out) → decode_loop s o ≡ put_all (decoded s) o
unfolding decode_loop decoded put_all
decode_loop-put_all [] o = refl
decode_loop-put_all (c ∷ []) o = refl
decode_loop-put_all (c ∷ a ∷ []) o = refl
decode_loop-put_all (c ∷ a ∷ b ∷ cs) o = elim (Bool-cases (is_escape c a b)) [
  | inl e ↦
      rw (e, decode_loop, decoded)
        (ap (λ k. put (hex_value a * 16 + hex_value b) o >>= k)
          (fun_ext λ o'. decode_loop-put_all cs o'))
  | inr n ↦
      rw (n, decode_loop, decoded)
        (ap (λ k. put (decode_plain c) o >>= k) (fun_ext λ o'. decode_loop-put_all (a ∷ b ∷ cs) o'))
]

encode_loop-put_all : (s : Bytes) (o : Out) → encode_loop s o ≡ put_all (encoded s) o
unfolding encode_loop encoded
encode_loop-put_all [] o = unfold put_all in refl
encode_loop-put_all (c ∷ cs) o =
    ap (λ k. put_all (encode_byte c) o >>= k) (fun_ext λ o'. encode_loop-put_all cs o')
    ∙ sym (put_all-append (encode_byte c) (encoded cs) o)

module _ (m : Malloc) (s : Bytes) where
  -- Whatever `malloc` leaves in the block, `query_decode` never writes outside it and returns the
  -- decoded bytes and a terminator, which fill the block.
  pub query_decode-decoded : query_decode m s ≡ some (decoded s ++ 0 ∷ [])
  unfolding query_decode
  query_decode-decoded = two_pass-put_all m (decode_loop s) (decoded s) (decode_loop-put_all s)

  -- Whatever `malloc` leaves in the block, `query_encode` never writes outside it and returns the
  -- encoded bytes and a terminator, which fill the block.
  pub query_encode-encoded : query_encode m s ≡ some (encoded s ++ 0 ∷ [])
  unfolding query_encode
  query_encode-encoded = two_pass-put_all m (encode_loop s) (encoded s) (encode_loop-put_all s)
