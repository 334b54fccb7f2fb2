-- ===== src/Server/Query.antt =====
-- Serverlab/more_string.c: `query_encode` and `query_decode`, each with its loop and its two
-- passes. The loops walk the bytes of the string up to its terminator.
pub mod Buffers
pub mod RoundTrip
use cs4400_fall.Prelude.{
  ℕ, zero, suc, ◌+◌, ◌-◌, ◌*◌, ◌/◌, ◌%◌, Bool, true, false, ◌&&◌, ◌||◌, List, [], ◌∷◌, ◌++◌, Option,
  none, some, ◌==◌, ltb, if◌then◌else◌, ◌>>=◌,
}
use cs4400_fall.CString.{Bytes, within}
use cs4400_fall.Server.Output.{Malloc, Out, put, put_all, two_pass}

unfoldable pub ishexdigit : ℕ → Bool
ishexdigit v = within b'0' b'9' v || within b'A' b'F' v || within b'a' b'f' v

unfoldable pub hex_value : ℕ → ℕ
hex_value v =
    if within b'0' b'9' v
    then v - b'0'
    else if within b'A' b'F' v
    then v - b'A' + 10
    else v - b'a' + 10

unfoldable pub hex_digit : ℕ → ℕ
hex_digit v = if ltb v 10 then b'0' + v else b'a' + (v - 10)

-- The first test of the loop body of `query_decode`, at the bytes `data[i]`, `data[i+1]` and
-- `data[i+2]`.
unfoldable pub is_escape : ℕ → ℕ → ℕ → Bool
unfolding ishexdigit
is_escape c a b = c == b'%' && ishexdigit a && ishexdigit b

-- Its other branch.
unfoldable pub decode_plain : ℕ → ℕ
decode_plain c = if c == b'+' then b' ' else c

-- Where fewer than two bytes follow, one of the three is the terminator, which is no digit.
unfoldable pub decode_loop : Bytes → Out → Option Out
unfolding is_escape hex_value decode_plain
decode_loop [] o = some o
decode_loop (c ∷ a ∷ b ∷ cs) o = elim (is_escape c a b) [
  | true ↦ do o' ← put (hex_value a * 16 + hex_value b) o; decode_loop cs o'
  | false ↦ do o' ← put (decode_plain c) o; decode_loop (a ∷ b ∷ cs) o'
]
decode_loop (c ∷ cs) o = do o' ← put (decode_plain c) o; decode_loop cs o'

-- The buffer that is returned, terminator included.
unfoldable pub query_decode : Malloc → Bytes → Option Bytes
unfolding decode_loop
query_decode m s = two_pass m (decode_loop s)

unfoldable pub is_unreserved : ℕ → Bool
is_unreserved c = within b'a' b'z' c || within b'A' b'Z' c || within b'0' b'9' c

-- What one round of the loop of `query_encode` writes.
unfoldable pub encode_byte : ℕ → Bytes
unfolding is_unreserved hex_digit
encode_byte c =
    if is_unreserved c then c ∷ [] else b'%' ∷ hex_digit (c / 16) ∷ hex_digit (c % 16) ∷ []

unfoldable pub encode_loop : Bytes → Out → Option Out
unfolding encode_byte
encode_loop [] o = some o
encode_loop (c ∷ cs) o = do o' ← put_all (encode_byte c) o; encode_loop cs o'

unfoldable pub query_encode : Malloc → Bytes → Option Bytes
unfolding encode_loop
query_encode m s = two_pass m (encode_loop s)
