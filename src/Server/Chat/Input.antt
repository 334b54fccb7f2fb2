-- ===== src/Server/Chat/Input.antt =====
-- Serverlab/tinychat.c: what a request brings, and how its headers and the fields of its body are
-- read.
use cs4400_fall.Prelude.{
  ℕ, zero, suc, ◌+◌, ◌-◌, ◌*◌, List, [], ◌∷◌, Option, none, some, ◌==◌, if◌then◌else◌, ◌>>=◌, ◌>>◌,
  guard, ltb, drop, ◌%◌, ◌^◌,
}
use cs4400_fall.CString.{Bytes, codes, char_at, isdigit, str_eq, str_case_eq}
use cs4400_fall.Server.Dictionary.{Dictionary, case_insens, make_dictionary, dictionary_get}
use cs4400_fall.Server.Output.{Malloc}
use cs4400_fall.Server.Lines.{skip_leading, parse_header_line}
use cs4400_fall.Server.Fields.{parse_query}

-- `first_line` is `none` where nothing comes.
pub record Connection : Type 0 where
  pub first_line : Option Bytes
  pub more_lines : List Bytes
  pub body : ℕ → Bytes

-- The digits that `atoi` reads.
unfoldable pub atoi_digits : ℕ → Bytes → ℕ
atoi_digits n [] = n
atoi_digits n (c ∷ cs) =
    let rest = atoi_digits (n * 10 + (c - b'0')) cs in if isdigit c then rest else n

-- `atoi`, as the 32 bits of an `int`; a number that does not fit is taken to wrap around.
unfoldable pub atoi : Bytes → ℕ
atoi s =
    let digits = skip_leading s in
    if char_at digits 0 == b'-'
    then (2 ^ 32 - atoi_digits 0 (drop 1 digits) % 2 ^ 32) % 2 ^ 32
    else if char_at digits 0 == b'+'
    then atoi_digits 0 (drop 1 digits) % 2 ^ 32
    else atoi_digits 0 digits % 2 ^ 32

-- `len_str ? atoi(len_str) : 0`
unfoldable pub length_of : Option Bytes → ℕ
length_of none = 0
length_of (some len_str) = atoi len_str

-- A call of `dictionary_get` on a dictionary of the request.
abbrev pub field : Dictionary Bytes → Bytes → Option Bytes
field d key = elim (dictionary_get d key) [ none ↦ none | some value ↦ value ]

-- A dictionary; a fault; or no end within the rounds. A request is given a round for each of its
-- lines: who has not come to an end by then parses the last line for ever.
pub data HeadersResult : Type 0 where
  got : Dictionary Bytes → HeadersResult
  faulted out_of_rounds : HeadersResult

module _ (m : Malloc) (junk_key junk : Bytes) where
  -- The loop of `read_requesthdrs` over the lines behind `buf`. When no line comes any more, `buf`
  -- stays as it is and is parsed again.
  unfoldable pub headers_loop :
      (rounds : ℕ) → (buf : Bytes) → List Bytes → Dictionary Bytes → HeadersResult
  headers_loop zero buf lines d = if str_eq buf (codes "\r\n") then got d else out_of_rounds
  headers_loop (suc rounds) buf [] d =
      let rest : HeadersResult = elim (parse_header_line junk_key junk buf d) [
        | none ↦ faulted
        | some d' ↦ headers_loop rounds buf [] d'
      ] in
      if str_eq buf (codes "\r\n") then got d else rest
  headers_loop (suc rounds) buf (line ∷ lines) d =
      let rest : HeadersResult = elim (parse_header_line junk_key junk line d) [
        | none ↦ faulted
        | some d' ↦ headers_loop rounds line lines d'
      ] in
      if str_eq buf (codes "\r\n") then got d else rest

  -- The first line is only compared. Where there is none, `strcmp` reads what nothing has set.
  unfoldable pub read_requesthdrs : (rounds : ℕ) → List Bytes → HeadersResult
  read_requesthdrs rounds [] = faulted
  read_requesthdrs rounds (line ∷ lines) =
      headers_loop rounds line lines (make_dictionary case_insens)

  -- `none` where `strcasecmp` reads NULL, and where the length is negative or `len + 1` does not fit
  -- an `int`: then malloc fails or `buffer[len]` lies before the block.
  unfoldable pub read_postquery :
      Connection → (headers dest : Dictionary Bytes) → Option (Dictionary Bytes)
  read_postquery connection headers dest = do
    let len = length_of (field headers (codes "Content-Length"))
    guard (ltb (len + 1) (2 ^ 31))
    type ← field headers (codes "Content-Type")
    if str_case_eq type (codes "application/x-www-form-urlencoded")
        then parse_query m junk_key junk (connection.body len) dest
        else some dest
