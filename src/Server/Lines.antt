-- ===== src/Server/Lines.antt =====
-- Serverlab/more_string.c: joining strings, and the request, status and header lines of HTTP.
pub mod Three
pub mod Header
pub mod Join
use cs4400_fall.Prelude.{
  ℕ, zero, suc, ◌+◌, ◌-◌, Bool, true, false, not, ◌&&◌, ◌||◌, List, [], ◌∷◌, ◌++◌, Option, none,
  some, ◌==◌, ltb, if◌then◌else◌, length, take, ◌>>=◌, guard, ◌>>◌, store,
}
use cs4400_fall.CString.{Bytes, digits, strchr, strn_eq, isspace, char_at}
use cs4400_fall.Server.Dictionary.{Dictionary, dictionary_set}
use cs4400_fall.Server.Output.{Malloc, Out, put_all}

-- A length is not negative, and has at most 19 digits.
unfoldable pub to_string : ℕ → Bytes
to_string v = digits 19 v []

-- `!strncmp(starts, s, len)` with the length of `starts`.
unfoldable pub starts_with : Bytes → Bytes → Bool
unfolding strn_eq
starts_with starts s = strn_eq starts s (length starts)

-- The copying loop of `append_strings`: `memcpy` to `result + pos`, for each argument.
unfoldable pub copy_strings : List Bytes → Out → Option Out
copy_strings [] o = some o
copy_strings (s ∷ rest) o = do o' ← put_all s o; copy_strings rest o'

unfoldable pub total_length : List Bytes → ℕ
total_length [] = 0
total_length (s ∷ rest) = length s + total_length rest

-- The arguments before NULL; the first loop sizes the block.
unfoldable pub append_strings : Malloc → List Bytes → Option Bytes
append_strings m ss = do
  filled ← copy_strings ss (record { pos = 0; dest = some (m.block (total_length ss + 1)) })
  buf ← filled.dest
  store buf filled.pos 0

-- The check for "\r\n" at the end.
unfoldable pub ends_line : Bytes → Bool
unfolding char_at
ends_line buf =
    let len = length buf in
    not (ltb len 2 || not (char_at buf (len - 2) == 13) || not (char_at buf (len - 1) == 10))

-- The parts, or `none` for the result 0. A caller that passes NULL for a part ignores it.
unfoldable pub parse_three : Bytes → Bool → Option (Bytes × Bytes × Bytes)
parse_three buf extra_space_ok = do
  guard (ends_line buf)
  (one, behind_one) ← strchr b' ' buf
  (two, behind_two) ← strchr b' ' behind_one
  guard (extra_space_ok || elim (strchr b' ' behind_two) [ none ↦ true | some _ ↦ false ])
  some (one, two, take (length buf - 2 - length one - length two - 2) behind_two)

unfoldable pub parse_request_line : Bytes → Option (Bytes × Bytes × Bytes)
parse_request_line buf = parse_three buf false

unfoldable pub parse_status_line : Bytes → Option (Bytes × Bytes × Bytes)
parse_status_line buf = parse_three buf true

-- `while (isspace(*s)) s++;`
unfoldable pub skip_leading : Bytes → Bytes
skip_leading [] = []
skip_leading (c ∷ cs) = let rest = skip_leading cs in if isspace c then rest else c ∷ cs

-- `while (len && isspace(s[len-1])) --len;`
unfoldable pub trimmed_length : Bytes → ℕ → ℕ
trimmed_length s zero = 0
trimmed_length s (suc n) =
    let rest = trimmed_length s n in if isspace (char_at s n) then rest else suc n

-- A line with no colon adds nothing. The value is a copy of the first `len` bytes.
unfoldable pub parse_header_line :
    Bytes → Bytes → Bytes → Dictionary Bytes → Option (Dictionary Bytes)
parse_header_line junk_key junk buf d = elim (strchr b':' buf) [
  | none ↦ some d
  | some (name, behind) ↦
      let s = skip_leading behind in
      dictionary_set junk_key junk d name (take (trimmed_length s (length s)) s)
]
