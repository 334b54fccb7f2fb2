-- ===== src/Server/Fields.antt =====
-- Serverlab/more_string.c: `parse_query` and `parse_uriquery`, which set the fields of a query in
-- a dictionary. A string is walked by its suffixes; the end of the list is the terminator.
pub mod Render
pub mod Total
use cs4400_fall.Prelude.{
  ℕ, zero, suc, ◌+◌, Bool, true, false, not, ◌&&◌, ◌||◌, List, [], ◌∷◌, Option, none, some, ◌==◌,
  if◌then◌else◌, length, ◌>>=◌,
}
use cs4400_fall.CString.{Bytes, strchr, terminated}
use cs4400_fall.Server.Dictionary.{Dictionary, dictionary_set}
use cs4400_fall.Server.Output.{Malloc}
use cs4400_fall.Server.Query.{query_decode}

unfoldable pub is_qsep : ℕ → Bool
is_qsep c = c == b'&' || c == b';'

unfoldable pub is_end_char : ℕ → Bool
is_end_char c = c == 0 || c == b'#'

-- `IS_END(*buf)`
unfoldable pub at_end : Bytes → Bool
unfolding is_end_char
at_end [] = true
at_end (c ∷ cs) = is_end_char c

-- A loop `while (!stop(*buf)) buf++`: the bytes passed, and the rest.
unfoldable pub until : (ℕ → Bool) → Bytes → Bytes × Bytes
until stop [] = ([], [])
until stop (c ∷ cs) =
    let (a, rest) = until stop cs in if stop c then ([], c ∷ cs) else (c ∷ a, rest)

-- The tests of the two inner loops.
abbrev pub ends_name : ℕ → Bool
ends_name c = is_end_char c || c == b'=' || is_qsep c

abbrev pub ends_data : ℕ → Bool
ends_data c = is_end_char c || is_qsep c

-- `if (!IS_END(*buf) && !IS_QSEP(*buf)) buf++;`
unfoldable pub skip_equal : Bytes → Bytes
skip_equal [] = []
skip_equal (c ∷ cs) = if not (is_end_char c) && not (is_qsep c) then cs else c ∷ cs

-- `if (!IS_END(*buf)) buf++;`
unfoldable pub skip_sep : Bytes → Bytes
skip_sep [] = []
skip_sep (c ∷ cs) = if not (is_end_char c) then cs else c ∷ cs

module _ (m : Malloc) (junk_key junk : Bytes) where
  -- The body of the outer loop. The decoded name, `d_name`, is freed without being used.
  unfoldable pub parse_field : Bytes → Dictionary Bytes → Option (Bytes × Dictionary Bytes)
  parse_field buf d = do
    let (name, behind_name) = until ends_name buf
    let (field, rest) = until ends_data (skip_equal behind_name)
    d_name ← query_decode m name
    d_data ← query_decode m field
    d' ← dictionary_set junk_key junk d name (terminated d_data)
    some (skip_sep rest, d')

  -- Every round passes a byte, so as many rounds as bytes are enough.
  unfoldable pub query_loop : ℕ → Bytes → Dictionary Bytes → Option (Dictionary Bytes)
  query_loop zero buf d = if at_end buf then some d else none
  query_loop (suc rounds) buf d =
      let more = parse_field buf d >>= λ (rest, d'). query_loop rounds rest d' in
      if at_end buf then some d else more

  unfoldable pub parse_query : Bytes → Dictionary Bytes → Option (Dictionary Bytes)
  parse_query buf d = query_loop (length buf) buf d

  unfoldable pub parse_uriquery : Bytes → Dictionary Bytes → Option (Dictionary Bytes)
  parse_uriquery buf d = elim (strchr b'?' buf) [
    | none ↦ some d
    | some (_, behind) ↦ parse_query behind d
  ]
