-- ===== src/Server/Chat/Handlers.antt =====
-- Serverlab/tinychat.c: `doit` and its branches. What a connection brings is a parameter: the
-- lines that Rio_readlineb gives, and the string in the buffer that Rio_readnb has filled for a
-- length. The dictionaries of one request are freed at its end, where nothing uses them any more.
use cs4400_fall.Prelude.{
  Bool, true, false, not, ◌&&◌, [], ◌∷◌, Option, none, some, ◌==◌, if◌then◌else◌, length,
}
use cs4400_fall.CString.{Bytes, codes, str_case_eq}
use cs4400_fall.Server.Dictionary.{Dictionary, case_sens, make_dictionary}
use cs4400_fall.Server.Output.{Malloc}
use cs4400_fall.Server.Lines.{starts_with, parse_request_line}
use cs4400_fall.Server.Fields.{parse_uriquery}
use cs4400_fall.Server.Chat.{
  Fd, client, remote, Task, finished, crash, hang, write_to, get_locked, set_locked, appended,
  welcome, serve_form, clienterror,
}
use cs4400_fall.Server.Chat.Input.{
  Connection, field, got, faulted, out_of_rounds, read_requesthdrs, read_postquery,
}

abbrev pub is_some : Option Bytes → Bool
is_some none = false
is_some (some s) = true

module _ (m : Malloc) where
  -- The branch of a POST for a name and a topic from the welcome page.
  unfoldable pub join_conversation : (new_header : Bytes) → (name topic : Option Bytes) → Task
  join_conversation new_header name topic =
      let answer : Task =
        get_locked topic λ last_mes. serve_form m client new_header name topic last_mes finished in
      get_locked topic λ tem_topic. elim tem_topic [
        | none ↦ set_locked topic (appended m (some [] ∷ [])) answer
        | some _ ↦
            get_locked topic
              λ tem_topic'. serve_form m client new_header name topic tem_topic' answer
      ]

  -- The branch of a POST for a message.
  unfoldable pub add_message : (new_header : Bytes) → (name topic new_message : Option Bytes) → Task
  add_message new_header name topic new_message = get_locked topic λ last_mes. elim new_message [
    | none ↦ crash
    | some message ↦
        if length message == 0
        then serve_form m client new_header name topic last_mes finished
        else let new_mes : Bytes = appended m (
            last_mes
            ∷ some (codes "<br>")
            ∷ some (codes "\r\n")
            ∷ name
            ∷ some (codes ": ")
            ∷ some message
            ∷ []) in
          set_locked topic new_mes
            (serve_form m client new_header name topic (some new_mes) finished)
  ]

  unfoldable pub post : Dictionary Bytes → Task
  post query =
      let name = field query (codes "name") in
      let topic = field query (codes "topic") in
      let new_header = appended m (some (codes "Tinychat - ") ∷ topic ∷ []) in
      if is_some (field query (codes "user_name")) && is_some (field query (codes "user_topic"))
      then join_conversation new_header name topic
      else add_message new_header name topic (field query (codes "message"))

  -- The branches of a GET, on the fields that they read.
  unfoldable pub conversation_on : (topic : Option Bytes) → Task
  conversation_on topic = get_locked topic λ last_mes. elim last_mes [
    | none ↦
        let new_mes : Bytes = appended m (some [] ∷ []) in
        set_locked topic new_mes (serve_form m client [] (some []) topic (some new_mes) finished)
    | some mes ↦ serve_form m client [] (some []) topic (some mes) finished
  ]

  unfoldable pub conversation : Dictionary Bytes → Task
  conversation query = conversation_on (field query (codes "topic"))

  unfoldable pub say_on : (topic user content : Option Bytes) → Task
  say_on topic user content = get_locked topic λ all_conv.
      let append_new : Bytes = elim all_conv [
        | some conv ↦
            appended m (some conv ∷ some (codes "\r\n") ∷ user ∷ some (codes ": ") ∷ content ∷ [])
        | none ↦ appended m (user ∷ some (codes ": ") ∷ content ∷ [])
      ] in
      set_locked topic append_new (serve_form m client [] (some []) (some []) (some []) finished)

  unfoldable pub say : Dictionary Bytes → Task
  say query =
      say_on (field query (codes "topic")) (field query (codes "user"))
        (field query (codes "content"))

  -- A conversation is put behind itself.
  unfoldable pub double : Option Bytes → Task → Task
  double topic next = get_locked topic λ last_mes.
      let new_str : Bytes = appended m (last_mes ∷ some (codes "\r\n") ∷ last_mes ∷ []) in
      set_locked topic new_str (serve_form m client [] (some []) topic (some new_str) next)

  -- The tests of version and method, which come twice, in front of the rest of a request.
  unfoldable pub check_request : Fd → (method version : Bytes) → Task → Task
  check_request fd method version next =
      if not (str_case_eq version (codes "HTTP/1.0"))
        && not (str_case_eq version (codes "HTTP/1.1"))
      then clienterror m fd version (codes "501") (codes "Not Implemented")
          (codes "TinyChat does not implement that version") finished
      else if not (str_case_eq method (codes "GET")) && not (str_case_eq method (codes "POST"))
      then clienterror m fd method (codes "501") (codes "Not Implemented")
          (codes "TinyChat does not implement that method") finished
      else next

module _ (m : Malloc) (junk_key junk : Bytes) where
  -- The answer of the other server, read as a request. `unset` is what the variable for the
  -- method holds, which nothing has set.
  unfoldable pub import_answer : (unset : Bytes) → Connection → Task
  import_answer unset other = elim other.first_line [
    | none ↦ finished
    | some buffer ↦ elim (parse_request_line buffer) [
      | none ↦
          clienterror m remote unset (codes "400") (codes "Bad Request")
            (codes "TinyChat did not recognize the request") finished
      | some (new_method, new_uri, new_version) ↦
          check_request m remote new_method new_version
            (elim (read_requesthdrs m junk_key junk (length other.more_lines) other.more_lines) [
              | out_of_rounds ↦ hang
              | faulted ↦ crash
              | got _ ↦ elim (parse_uriquery m junk_key junk new_uri (make_dictionary case_sens)) [
                | none ↦ crash
                | some new_query ↦ double m (field new_query (codes "topic")) finished
              ]
            ])
    ]
  ]

  -- `sprintf` takes the request for its format: a copy, where the topic has no `%`.
  unfoldable pub import : (unset : Bytes) → Connection → Dictionary Bytes → Task
  import unset other query =
      let topic = field query (codes "topic") in
      double m topic (
        write_to remote
          (appended m (
            some (codes "GET /conversation?topic=")
            ∷ topic
            ∷ some (codes " ")
            ∷ some (codes "HTTP/1.1")
            ∷ some (codes "\r\n")
            ∷ []))
          (import_answer unset other))

  unfoldable pub get : (unset : Bytes) → Connection → (uri : Bytes) → Dictionary Bytes → Task
  get unset other uri query =
      if starts_with (codes "/conversation") uri
      then conversation m query
      else if starts_with (codes "/say") uri
      then say m query
      else if starts_with (codes "/import") uri
      then import unset other query
      else serve_form m client welcome (some []) (some []) (some []) finished

  -- The request once its headers are read, with the query of the URI.
  unfoldable pub dispatch :
      (unset : Bytes)
      → (connection other : Connection) → (method uri : Bytes) → (headers query : Dictionary Bytes)
      → Task
  dispatch unset connection other method uri headers query =
      if str_case_eq method (codes "POST")
      then elim (read_postquery m junk_key junk connection headers query) [
        | none ↦ crash
        | some query' ↦ post m query'
      ]
      else elim (parse_uriquery m junk_key junk uri query) [
        | none ↦ crash
        | some query' ↦ get unset other uri query'
      ]

  unfoldable pub doit : (unset : Bytes) → (connection other : Connection) → Task
  doit unset connection other = elim connection.first_line [
    | none ↦ finished
    | some buf ↦ elim (parse_request_line buf) [
      | none ↦
          clienterror m client unset (codes "400") (codes "Bad Request")
            (codes "TinyChat did not recognize the request") finished
      | some (method, uri, version) ↦
          check_request m client method version
            (elim (read_requesthdrs m junk_key junk (length connection.more_lines)
              connection.more_lines) [
                | out_of_rounds ↦ hang
                | faulted ↦ crash
                | got headers ↦
                    elim (parse_uriquery m junk_key junk uri (make_dictionary case_sens)) [
                      | none ↦ crash
                      | some query ↦ dispatch unset connection other method uri headers query
                    ]
              ])
    ]
  ]
