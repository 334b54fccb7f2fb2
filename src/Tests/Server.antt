-- ===== src/Tests/Server.antt =====
-- The routines of the chat server at concrete inputs.
use mathlib.Core.List.{Perm}
use cs4400_fall.Prelude.{
  ℕ, ◌≡◌, refl, ◌↔◌, false, List, [], ◌∷◌, ◌++◌, some, arith, replicate, length-replicate, All,
  if◌then◌else◌,
}
use cs4400_fall.CString.{Bytes, codes, terminated, isspace}
use cs4400_fall.Server.Dictionary.{
  Dictionary, case_sens, case_insens, same_key, make_dictionary, dictionary_set, dictionary_get,
  dictionary_key, dictionary_value, dictionary_count, free_dictionary,
}
use cs4400_fall.Server.Dictionary.Spec.{lookup}
use cs4400_fall.Server.Dictionary.Represents.{Represents, dictionary_get-lookup}
use cs4400_fall.Server.Dictionary.Update.{Updated, dictionary_set-insert, dictionary_get-set}
use cs4400_fall.Server.Dictionary.Ownership.{set_all, free_dictionary-perm}
use cs4400_fall.Server.Dictionary.Slots.{dictionary_get-key}
use cs4400_fall.Server.Output.{Malloc, put, two_pass}
use cs4400_fall.Server.Query.{query_decode, query_encode}
use cs4400_fall.Server.Query.Buffers.{decoded, query_decode-decoded}
use cs4400_fall.Server.Query.RoundTrip.{IsSafe, query_decode-encode, query_encode-IsSafe}
use cs4400_fall.Server.Entity.{entity_encode}
use cs4400_fall.Server.Entity.Escape.{IsInert, read_entities, entity_encode-read_entities}
use cs4400_fall.Server.Lines.{parse_three, parse_header_line, append_strings}
use cs4400_fall.Server.Lines.Three.{line_of, IsLine, parse_three_iff}
use cs4400_fall.Server.Lines.Header.{parse_header_line-set}
use cs4400_fall.Server.Lines.Join.{append_strings-joined}
use cs4400_fall.Server.Fields.{at_end, is_end_char, is_qsep, parse_query}
use cs4400_fall.Server.Fields.Total.{parse_query-total}
use cs4400_fall.Server.Fields.Render.{AreFields, render, parse_query-render}

-- Blocks that hold sevens.
abbrev sevens : Malloc
sevens = record { block = λ n. replicate n 7; length-block = λ n. length-replicate n 7 }

-- A dictionary after `Host` has been set to 1 and `Age` to 2, with its two arrays.
abbrev two_entries : List (Bytes × ℕ)
two_entries = (codes "Host", 1) ∷ (codes "Age", 2) ∷ []

abbrev two : Dictionary ℕ
two = record {
  compare_mode = case_insens;
  count = 2;
  alloc = 2;
  keys = codes "Host" ∷ codes "Age" ∷ [];
  values = 1 ∷ 2 ∷ [];
  freed = [];
}

two_run : set_all [] 0 (make_dictionary case_insens) two_entries ≡ some two
unfolding set_all dictionary_set make_dictionary
two_run = refl

two-Represents : Represents two two_entries
two-Represents = record {
  free_keys = [];
  free_values = [];
  keys_are = refl;
  values_are = refl;
  count_is = refl;
  alloc_is = refl;
  room = refl;
}

dictionary_get-lookup_example :
    dictionary_get two (codes "age") ≡ some (lookup case_insens (codes "age") two_entries)
dictionary_get-lookup_example = dictionary_get-lookup two (codes "age") two_entries two-Represents

dictionary_set-insert_example :
    (d' : Dictionary ℕ) × (dictionary_set [] 0 two (codes "HOST") 3 ≡ some d')
    × Updated two (codes "HOST") 3 two_entries d'
dictionary_set-insert_example =
    dictionary_set-insert [] 0 two (codes "HOST") 3 two_entries two-Represents

dictionary_get-set_example :
    (d' : Dictionary ℕ) × (dictionary_set [] 0 two (codes "HOST") 3 ≡ some d')
    × (dictionary_get d' (codes "host") ≡ (
        if same_key case_insens (codes "host") (codes "HOST")
        then some (some 3)
        else dictionary_get two (codes "host")))
dictionary_get-set_example =
    dictionary_get-set [] 0 two (codes "HOST") 3 (codes "host") two_entries two-Represents

free_dictionary-perm_example :
    (d e : Dictionary ℕ) × (set_all [] 0
        (make_dictionary case_sens)
        ((codes "a", 1) ∷ (codes "b", 2) ∷ (codes "a", 3) ∷ [])
      ≡ some d)
    × (free_dictionary d ≡ some e)
    × Perm e.freed (1 ∷ 2 ∷ 3 ∷ [])
free_dictionary-perm_example =
    free_dictionary-perm [] 0 case_sens ((codes "a", 1) ∷ (codes "b", 2) ∷ (codes "a", 3) ∷ [])

dictionary_get-key_example :
    (k : Bytes) × (v : ℕ) × (dictionary_key two 1 ≡ some k)
    × (dictionary_value two 1 ≡ some v)
    × (dictionary_get two k ≡ some (some v))
dictionary_get-key_example =
    dictionary_get-key two two_entries 1 two-Represents (unfold same_key in (refl, (refl, tt)))
      (unfold dictionary_count in omega arith)

query_decode-decoded_example :
    query_decode sevens (codes "a%20b+c%4") ≡ some (decoded (codes "a%20b+c%4") ++ 0 ∷ [])
query_decode-decoded_example = query_decode-decoded sevens (codes "a%20b+c%4")

decode_run : query_decode sevens (codes "a%20b+c%4") ≡ some (codes "a b c%4" ++ 0 ∷ [])
unfolding query_decode two_pass put
decode_run = refl

query_decode-encode_example :
    (e : Bytes) × (query_encode sevens (codes "a b&c") ≡ some e)
    × (query_decode sevens (terminated e) ≡ some (codes "a b&c" ++ 0 ∷ []))
query_decode-encode_example = query_decode-encode sevens (codes "a b&c") (omega arith)

query_encode-IsSafe_example :
    (e : Bytes) × (query_encode sevens (codes "a b&c") ≡ some e) × All IsSafe (terminated e)
query_encode-IsSafe_example = query_encode-IsSafe sevens (codes "a b&c") (omega arith)

entity_encode-read_entities_example :
    (e : Bytes) × (entity_encode sevens (codes "<a & \"b\">") ≡ some e)
    × All IsInert (terminated e)
    × (read_entities 0 (terminated e) ≡ codes "<a & \"b\">")
entity_encode-read_entities_example =
    entity_encode-read_entities sevens (codes "<a & \"b\">") (omega arith)

append_strings-joined_example :
    append_strings sevens (codes "apple" ∷ codes "banana" ∷ [])
    ≡ some (codes "applebanana" ++ 0 ∷ [])
append_strings-joined_example = append_strings-joined sevens (codes "apple" ∷ codes "banana" ∷ [])

parse_three_iff_example :
    (parse_three (codes "GET /x HTTP/1.1\r\n") false
      ≡ some (codes "GET", codes "/x", codes "HTTP/1.1"))
    ↔ ((codes "GET /x HTTP/1.1\r\n" ≡ line_of (codes "GET", codes "/x", codes "HTTP/1.1"))
        × IsLine false (codes "GET", codes "/x", codes "HTTP/1.1"))
parse_three_iff_example =
    parse_three_iff false (codes "GET /x HTTP/1.1\r\n") (codes "GET", codes "/x", codes "HTTP/1.1")

abbrev fresh : Dictionary Bytes
fresh = record {
  compare_mode = case_insens;
  count = 0;
  alloc = 0;
  keys = [];
  values = [];
  freed = [];
}

fresh-Represents : Represents fresh []
fresh-Represents = record {
  free_keys = [];
  free_values = [];
  keys_are = refl;
  values_are = refl;
  count_is = refl;
  alloc_is = refl;
  room = refl;
}

parse_header_line-set_example :
    parse_header_line [] []
      (codes "Host" ++ b':' ∷ (codes "  " ++ (codes "a b" ++ codes "\r\n")))
      fresh
    ≡ dictionary_set [] [] fresh (codes "Host") (codes "a b")
parse_header_line-set_example =
    parse_header_line-set [] [] fresh (codes "Host") (codes "  ") (codes "a b") (codes "\r\n") refl
      (unfold isspace in (refl, (refl, tt)))
      (record {
        head = b'a';
        tail = codes " b";
        front = codes "a ";
        last = b'b';
        begins = refl;
        ends = refl;
        head_dark = unfold isspace in refl;
        last_dark = unfold isspace in refl;
      })
      (unfold isspace in (refl, (refl, tt)))

parse_query-total_example :
    (d' : Dictionary Bytes) × (es' : List (Bytes × Bytes)) × (parse_query sevens [] []
        (codes "&&a==b;c")
        fresh
      ≡ some d')
    × Represents d' es'
parse_query-total_example =
    parse_query-total sevens [] [] (codes "&&a==b;c") fresh [] fresh-Represents

-- The name is encoded in the query, and is set as it stands.
abbrev sent : List (Bytes × Bytes)
sent = (codes "a%20b", codes "1&2") ∷ (codes "c", codes "") ∷ []

sent-AreFields : AreFields sent
unfolding is_end_char is_qsep
sent-AreFields = ((refl, (refl, (refl, (refl, (refl, tt))))), omega arith, ((refl, tt), tt, tt))

parse_query-render_example :
    parse_query sevens [] [] (render sent (codes "#top")) fresh ≡ set_all [] [] fresh sent
parse_query-render_example =
    parse_query-render (codes "#top") (unfold at_end in refl) sevens [] [] sent fresh sent-AreFields
