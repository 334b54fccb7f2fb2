-- ===== src/Server/Chat/Extends.antt =====
-- What the requests of Serverlab/tinychat.c put into the shared dictionary: nothing, or what stood
-- there when the thread read it, with more behind it.
use cs4400_fall.Prelude.{
  length, ◌≡◌, refl, ap, ◌∙◌, Bool, true, false, List, [], ◌∷◌, ◌++◌, Option, none, some,
  append_assoc, arith, if◌then◌else◌, not, ◌&&◌,
}
use cs4400_fall.CString.{Bytes, IsText, codes, terminated, str_case_eq}
use cs4400_fall.Server.Dictionary.{Dictionary, make_dictionary, case_sens, CompareMode, same_key}
use cs4400_fall.Server.Output.{Malloc}
use cs4400_fall.Server.Lines.Join.{joined, append_strings-joined}
use cs4400_fall.Server.Lines.{starts_with, parse_request_line}
use cs4400_fall.Server.Fields.{parse_uriquery}
use cs4400_fall.Server.Chat.{
  Fd, client, remote, Task, finished, crash, hang, write_to, get_locked, set_locked, before_null,
  appended, serve_form, clienterror,
}
use cs4400_fall.Server.Chat.Input.{
  HeadersResult, got, faulted, out_of_rounds, read_requesthdrs, read_postquery, field, Connection,
}
use cs4400_fall.Server.Chat.Handlers.{
  join_conversation, add_message, post, conversation_on, conversation, say_on, say, double,
  check_request, import_answer, import, get, dispatch, doit,
}

-- A value that begins with some bytes.
abbrev pub Begins : Bytes → Option Bytes → Type 0
Begins base none = ⊥
Begins base (some s) = (rest : Bytes) × (s ≡ base ++ rest)

terminated-text : (a b : Bytes) → IsText a → terminated (a ++ b) ≡ a ++ terminated b
unfolding terminated
terminated-text [] b t = refl
terminated-text (c ∷ a) b t = ground (arith, terminated-text a b)

appended-Begins :
    (m : Malloc) (base : Bytes) (o : Option Bytes) (args : List (Option Bytes))
    → IsText base
    → Begins base o
    → Begins base (some (appended m (o ∷ args)))
unfolding appended before_null
appended-Begins m base none args t b = absurd b
appended-Begins m base (some s) args t (r, e) =
    let more = joined (before_null args) in
    (
      terminated (r ++ (more ++ 0 ∷ [])),
      ap (λ o. elim o [ none ↦ [] | some block ↦ terminated block ])
            (append_strings-joined m (s ∷ before_null args))
          ∙ ap (λ u. terminated ((u ++ more) ++ 0 ∷ [])) e
          ∙ ap terminated (append_assoc (base ++ r) more (0 ∷ []) ∙ append_assoc base r _)
          ∙ terminated-text base _ t,
    )

module _ (mode : CompareMode) (topic base : Bytes) where
  abbrev pub IsTopic : Option Bytes → Type 0
  IsTopic none = ⊥
  IsTopic (some key) = same_key mode topic key ≡ true

  -- A thread that, if what it reads of the topic begins with `base`, sets the topic to nothing but
  -- values that begin with it.
  pub data Extends : Task → Type 0 where
    at_end : Extends finished
    at_crash : Extends crash
    at_hang : Extends hang
    writes : {fd : Fd} {s : Bytes} {next : Task} → Extends next → Extends (write_to fd s next)
    reads :
        {key : Option Bytes} {next : Option Bytes → Task}
        → ((value : Option Bytes) → (IsTopic key → Begins base value) → Extends (next value))
        → Extends (get_locked key next)
    sets :
        {key : Option Bytes} {value : Bytes} {next : Task}
        → (IsTopic key → Begins base (some value))
        → Extends next
        → Extends (set_locked key value next)

  if-Extends : (b : Bool) (t u : Task) → Extends t → Extends u → Extends (if b then t else u)
  if-Extends true t u h k = h
  if-Extends false t u h k = k

  option-Extends {ℓ} :
      {A : Type ℓ} (o : Option A) (t : Task) (f : A → Task)
      → Extends t
      → ((x : A) → Extends (f x))
      → Extends (elim o [ none ↦ t | some x ↦ f x ])
  option-Extends none t f h k = h
  option-Extends (some x) t f h k = k x

  headers-Extends :
      (r : HeadersResult) (f : Dictionary Bytes → Task)
      → ((d : Dictionary Bytes) → Extends (f d))
      → Extends (elim r [ out_of_rounds ↦ hang | faulted ↦ crash | got d ↦ f d ])
  headers-Extends (got d) f h = h d
  headers-Extends faulted f h = at_crash
  headers-Extends out_of_rounds f h = at_hang

  module _ (m : Malloc) (text : IsText base) where
    serve_form-Extends :
        (fd : Fd) (pre_content : Bytes) (name topic' conv : Option Bytes) (next : Task)
        → Extends next
        → Extends (serve_form m fd pre_content name topic' conv next)
    unfolding serve_form
    serve_form-Extends fd pre_content name topic' conv next h = writes (writes h)

    clienterror-Extends :
        (fd : Fd) (cause errnum shortmsg longmsg : Bytes)
        → Extends (clienterror m fd cause errnum shortmsg longmsg finished)
    unfolding clienterror
    clienterror-Extends fd cause errnum shortmsg longmsg = writes (writes at_end)

    page-Extends :
        (pre_content : Bytes) (name topic' conv : Option Bytes)
        → Extends (serve_form m client pre_content name topic' conv finished)
    page-Extends pre_content name topic' conv =
        serve_form-Extends client pre_content name topic' conv finished at_end

    join_conversation-Extends :
        (new_header : Bytes) (name key : Option Bytes)
        → Extends (join_conversation m new_header name key)
    unfolding join_conversation
    join_conversation-Extends new_header name key = reads λ value b. go value b
      where
        answer :
            Extends
              (get_locked key λ last_mes. serve_form m client new_header name key last_mes finished)
        answer = reads λ value b. page-Extends _ _ _ _

        go :
            (value : Option Bytes)
            → (IsTopic key → Begins base value)
            → Extends (elim value [
              | none ↦ set_locked key (appended m (some [] ∷ [])) (
                  get_locked key
                    λ last_mes. serve_form m client new_header name key last_mes finished)
              | some _ ↦ get_locked key λ tem_topic'.
                  serve_form m client new_header name key tem_topic' (
                    get_locked key
                      λ last_mes. serve_form m client new_header name key last_mes finished)
            ])
        go none b = sets (λ t. absurd (b t)) answer
        go (some s) b = reads λ value c. serve_form-Extends _ _ _ _ _ _ answer

    add_message-Extends :
        (new_header : Bytes) (name key new_message : Option Bytes)
        → Extends (add_message m new_header name key new_message)
    unfolding add_message
    add_message-Extends new_header name key none = reads λ value b. at_crash
    add_message-Extends new_header name key (some message) = reads λ value b.
        if-Extends _ _ _ (page-Extends _ _ _ _)
          (sets (λ t. appended-Begins m base value _ text (b t)) (page-Extends _ _ _ _))

    post-Extends : (query : Dictionary Bytes) → Extends (post m query)
    unfolding post
    post-Extends query =
        if-Extends _ _ _ (join_conversation-Extends _ _ _) (add_message-Extends _ _ _ _)

    conversation_on-Extends : (key : Option Bytes) → Extends (conversation_on m key)
    unfolding conversation_on
    conversation_on-Extends key = reads λ value b. go value b
      where
        go :
            (value : Option Bytes)
            → (IsTopic key → Begins base value)
            → Extends (elim value [
              | none ↦
                  set_locked key (appended m (some [] ∷ [])) (
                    serve_form m client []
                      (some [])
                      key
                      (some (appended m (some [] ∷ [])))
                      finished)
              | some mes ↦ serve_form m client [] (some []) key (some mes) finished
            ])
        go none b = sets (λ t. absurd (b t)) (page-Extends _ _ _ _)
        go (some s) b = page-Extends _ _ _ _

    say_on-Extends : (key user content : Option Bytes) → Extends (say_on m key user content)
    unfolding say_on
    say_on-Extends key user content =
        reads λ value b. sets (λ t. go value (b t)) (page-Extends _ _ _ _)
      where
        go :
            (value : Option Bytes)
            → Begins base value
            → Begins base (
                some (elim value [
                  | some conv ↦
                      appended m
                        (some conv ∷ some (codes "\r\n") ∷ user ∷ some (codes ": ") ∷ content ∷ [])
                  | none ↦ appended m (user ∷ some (codes ": ") ∷ content ∷ [])
                ]))
        go none b = absurd b
        go (some s) b = appended-Begins m base (some s) _ text b

    double-Extends : (key : Option Bytes) (next : Task) → Extends next → Extends (double m key next)
    unfolding double
    double-Extends key next h = reads λ value b.
        sets (λ t. appended-Begins m base value _ text (b t)) (serve_form-Extends _ _ _ _ _ _ h)

    check_request-Extends :
        (fd : Fd) (method version : Bytes) (next : Task)
        → Extends next
        → Extends (check_request m fd method version next)
    unfolding check_request
    check_request-Extends fd method version next h =
        if-Extends
          (not (str_case_eq version (codes "HTTP/1.0"))
            && not (str_case_eq version (codes "HTTP/1.1")))
          _ _ (clienterror-Extends fd version (codes "501") (codes "Not Implemented") _)
          (if-Extends
            (not (str_case_eq method (codes "GET")) && not (str_case_eq method (codes "POST"))) _ _
            (clienterror-Extends fd method (codes "501") (codes "Not Implemented") _) h)

    module _ (junk_key junk unset : Bytes) where
      import_answer-Extends :
          (other : Connection) → Extends (import_answer m junk_key junk unset other)
      unfolding import_answer
      import_answer-Extends other = option-Extends other.first_line _ _ at_end λ buffer.
          option-Extends (parse_request_line buffer) _ _ (clienterror-Extends remote unset _ _ _)
            λ (method, uri, version). check_request-Extends remote method version _ (
              headers-Extends
                (read_requesthdrs m junk_key junk (length other.more_lines) other.more_lines) _
                λ _.
                  option-Extends (parse_uriquery m junk_key junk uri (make_dictionary case_sens)) _
                    _ at_crash λ query. double-Extends (field query (codes "topic")) _ at_end)

      get-Extends :
          (other : Connection) (uri : Bytes) (query : Dictionary Bytes)
          → Extends (get m junk_key junk unset other uri query)
      unfolding get conversation say import
      get-Extends other uri query =
          if-Extends (starts_with (codes "/conversation") uri) _ _ (conversation_on-Extends _) (
            if-Extends (starts_with (codes "/say") uri) _ _ (say_on-Extends _ _ _) (
              if-Extends (starts_with (codes "/import") uri) _ _
                (double-Extends (field query (codes "topic")) _
                  (writes (import_answer-Extends other)))
                (page-Extends _ _ _ _)))

      dispatch-Extends :
          (connection other : Connection) (method uri : Bytes) (headers query : Dictionary Bytes)
          → Extends (dispatch m junk_key junk unset connection other method uri headers query)
      unfolding dispatch
      dispatch-Extends connection other method uri headers query =
          if-Extends (str_case_eq method (codes "POST")) _ _
            (option-Extends (read_postquery m junk_key junk connection headers query) _ _ at_crash
              λ query'. post-Extends query')
            (option-Extends (parse_uriquery m junk_key junk uri query) _ _ at_crash
              λ query'. get-Extends other uri query')

      -- Whatever a connection brings.
      pub doit-Extends :
          (connection other : Connection) → Extends (doit m junk_key junk unset connection other)
      unfolding doit
      doit-Extends connection other = option-Extends connection.first_line _ _ at_end λ buffer.
          option-Extends (parse_request_line buffer) _ _ (clienterror-Extends client unset _ _ _)
            λ (method, uri, version). check_request-Extends client method version _ (
              headers-Extends
                (read_requesthdrs m junk_key junk (length connection.more_lines)
                  connection.more_lines)
                _
                λ headers.
                  option-Extends (parse_uriquery m junk_key junk uri (make_dictionary case_sens)) _
                    _ at_crash λ query. dispatch-Extends connection other method uri headers query)
