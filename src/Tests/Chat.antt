-- ===== src/Tests/Chat.antt =====
-- Serverlab/tinychat.c: messages of two users on one topic.
use cs4400_fall.Server.Dictionary.{case_insens}
use cs4400_fall.Server.Chat.{set_locked, Task}
use cs4400_fall.Server.Chat.Input.{got, out_of_rounds}
use cs4400_fall.Prelude.{
  ℕ, length, ◌≡◌, refl, List, [], ◌∷◌, ◌++◌, none, some, replicate, length-replicate,
}
use cs4400_fall.CString.{Bytes, codes, str_eq}
use cs4400_fall.CString.Compare.{is_text-IsText}
use cs4400_fall.Server.Dictionary.{
  Dictionary, case_sens, make_dictionary, dictionary_get, find_slot, same_key,
}
use cs4400_fall.Server.Dictionary.Represents.{Represents}
use cs4400_fall.Server.Dictionary.Ownership.{make_dictionary-Represents}
use cs4400_fall.Server.Dictionary.Spec.{lookup}
use cs4400_fall.Server.Output.{Malloc}
use cs4400_fall.Server.Chat.{run}
use cs4400_fall.Server.Chat.Input.{Connection, read_requesthdrs}
use cs4400_fall.Server.Chat.Handlers.{say_on, say, conversation}
use cs4400_fall.Server.Chat.Messages.{IsSay, page, say_onto, say_answer}
use cs4400_fall.Server.Chat.Says.{transcript, say_all, say_all-transcript}
use cs4400_fall.Server.Chat.Threads.{Server, Turns}
use cs4400_fall.Server.Chat.Race.{say-lost}
use cs4400_fall.Server.Chat.Headers.{blank, read_requesthdrs-blank}

-- Blocks that hold sevens.
abbrev sevens : Malloc
sevens = record { block = λ n. replicate n 7; length-block = λ n. length-replicate n 7 }

abbrev query_of : Bytes → Bytes → Dictionary Bytes
query_of user content = record {
  compare_mode = case_sens;
  count = 3;
  alloc = 3;
  keys = codes "topic" ∷ codes "user" ∷ codes "content" ∷ [];
  values = codes "tea" ∷ user ∷ content ∷ [];
  freed = [];
}

abbrev ann_says : Dictionary Bytes
ann_says = query_of (codes "ann") (codes "hello")

abbrev bob_says : Dictionary Bytes
bob_says = query_of (codes "bob") (codes "hi")

ann-IsSay : IsSay (codes "tea") (codes "ann", codes "hello") ann_says
unfolding dictionary_get find_slot same_key str_eq
ann-IsSay =
    (refl, refl, refl, is_text-IsText (codes "ann") refl, is_text-IsText (codes "hello") refl)

bob-IsSay : IsSay (codes "tea") (codes "bob", codes "hi") bob_says
unfolding dictionary_get find_slot same_key str_eq
bob-IsSay = (refl, refl, refl, is_text-IsText (codes "bob") refl, is_text-IsText (codes "hi") refl)

abbrev start : Dictionary Bytes
start = make_dictionary case_sens

say_all-transcript_example :
    (d' : Dictionary Bytes) × (say_all sevens [] []
        (((codes "ann", codes "hello"), ann_says) ∷ ((codes "bob", codes "hi"), bob_says) ∷ [])
        start
      ≡ some d')
    × (run [] [] 3 (conversation sevens ann_says) d'
        ≡ some (
          page sevens (transcript (codes "ann", codes "hello") ((codes "bob", codes "hi") ∷ [])),
          d',
        ))
say_all-transcript_example =
    say_all-transcript sevens [] [] (codes "tea") (codes "ann", codes "hello") ann_says ann_says
      start (((codes "bob", codes "hi"), bob_says) ∷ []) [] (make_dictionary-Represents case_sens)
      refl ann-IsSay (bob-IsSay, tt) ann-IsSay.0

-- One topic, with a conversation.
abbrev tea : List (Bytes × Bytes)
tea = (codes "tea", codes "ann: hello") ∷ []

abbrev tea_server : Dictionary Bytes
tea_server = record {
  compare_mode = case_sens;
  count = 1;
  alloc = 2;
  keys = codes "tea" ∷ [] ∷ [];
  values = codes "ann: hello" ∷ [] ∷ [];
  freed = [];
}

tea-Represents : Represents tea_server tea
tea-Represents = record {
  free_keys = [] ∷ [];
  free_values = [] ∷ [];
  keys_are = refl;
  values_are = refl;
  count_is = refl;
  alloc_is = refl;
  room = refl;
}

tea-lookup : lookup case_sens (codes "tea") tea ≡ some (codes "ann: hello")
unfolding same_key str_eq
tea-lookup = refl

abbrev silent : Connection
silent = record { first_line = none; more_lines = []; body = λ n. [] }

-- A message of nobody's, with nothing in it.
abbrev say_uri : Bytes
say_uri = codes "/say?topic=tea"

abbrev plain_connection : Connection
plain_connection = record {
  first_line = some (codes "GET /say?topic=tea HTTP/1.0\r\n");
  more_lines = codes "Host: a\r\n" ∷ codes "\r\n" ∷ [];
  body = λ n. [];
}

-- The query, read once and read again.
abbrev topic_query : List Bytes → Dictionary Bytes
topic_query freed = record {
  compare_mode = case_sens;
  count = 1;
  alloc = 2;
  keys = codes "topic" ∷ [] ∷ [];
  values = codes "tea" ∷ [] ∷ [];
  freed = freed;
}

headers : Dictionary Bytes
headers = make_dictionary case_insens

asks : Task
asks = say_on sevens (some (codes "tea")) none none

-- The thread with what it has read.
tells : Task
tells = set_locked (some (codes "tea")) (codes "ann: hello\r\n") (say_answer sevens)

abbrev idle : Server
idle = record { global_dic = tea_server; threads = [] }

-- The message has made the conversation longer by a line end.
abbrev tea_later : Server
tea_later = record {
  global_dic = record tea_server {
    values = codes "ann: hello\r\n" ∷ [] ∷ [];
    freed = codes "ann: hello" ∷ [];
  };
  threads = say_answer sevens ∷ [];
}

say-lost_example :
    (d' : Dictionary Bytes) × (es' : List (Bytes × Bytes)) × Turns sevens [] []
      (record { global_dic = tea_server; threads = say sevens ann_says ∷ say sevens bob_says ∷ [] })
      (record { global_dic = d'; threads = say_answer sevens ∷ say_answer sevens ∷ [] })
    × Represents d' es'
    × (lookup d'.compare_mode (codes "tea") es'
        ≡ some (say_onto (some (codes "ann: hello")) (codes "bob", codes "hi")))
say-lost_example =
    say-lost sevens [] [] (codes "tea") (codes "ann: hello")
      (is_text-IsText (codes "ann: hello") refl) (codes "ann", codes "hello")
      (codes "bob", codes "hi") ann_says bob_says tea_server tea tea-Represents tea-lookup ann-IsSay
      bob-IsSay

read_requesthdrs-blank_example :
    ((rounds : ℕ)
      → read_requesthdrs sevens [] [] rounds (codes "Host: a\r\n" ∷ codes "Age: 1\r\n" ∷ [])
        ≡ out_of_rounds)
    × ((d : Dictionary Bytes) × (read_requesthdrs sevens [] []
            (length (codes "Host: a\r\n" ∷ (codes "Age: 1\r\n" ∷ []) ++ blank ∷ []))
            (codes "Host: a\r\n" ∷ (codes "Age: 1\r\n" ∷ []) ++ blank ∷ [])
          ≡ got d))
read_requesthdrs-blank_example =
    read_requesthdrs-blank sevens [] [] (codes "Host: a\r\n") (codes "Age: 1\r\n" ∷ []) [] (cc)
      (cc, tt)
