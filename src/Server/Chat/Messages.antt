-- ===== src/Server/Chat/Messages.antt =====
-- One message by `/say` of Serverlab/tinychat.c, and what it makes of a conversation.
use cs4400_fall.Prelude.{
  ◌≡◌, refl, ap, ◌∙◌, List, [], ◌∷◌, ◌++◌, Option, none, some, length, All, append-nil,
}
use cs4400_fall.CString.{Bytes, IsText, codes, terminated}
use cs4400_fall.CString.Compare.{terminated-append, is_text-IsText, IsText-append}
use cs4400_fall.Server.Dictionary.{Dictionary}
use cs4400_fall.Server.Dictionary.Represents.{Represents, dictionary_get-lookup}
use cs4400_fall.Server.Dictionary.Spec.{lookup}
use cs4400_fall.Server.Dictionary.Update.{Updated, dictionary_set-insert}
use cs4400_fall.Server.Output.{Malloc}
use cs4400_fall.Server.Lines.Join.{joined, append_strings-joined}
use cs4400_fall.Server.Chat.{
  Fd, client, Task, finished, before_null, appended, ok_header, form_body, serve_form, effect, run,
}
use cs4400_fall.Server.Chat.Input.{field}
use cs4400_fall.Server.Chat.Handlers.{say_on, say}

joined-IsText : (ss : List Bytes) → All IsText ss → IsText (joined ss)
joined-IsText [] h = tt
joined-IsText (s ∷ ss) h = IsText-append s (joined ss) h.0 (joined-IsText ss h.1)

-- Of C strings `append_strings` makes the string of their bytes.
pub appended-joined :
    (m : Malloc) (args : List (Option Bytes))
    → All IsText (before_null args)
    → appended m args ≡ joined (before_null args)
unfolding appended
appended-joined m args h =
    ap (λ o. elim o [ none ↦ [] | some block ↦ terminated block ])
      (append_strings-joined m (before_null args))
    ∙ (terminated-append (joined (before_null args)) [] (joined-IsText (before_null args) h))

abbrev pub crlf : Bytes
crlf = codes "\r\n"

-- One message, and a conversation of messages, a line each.
abbrev pub message_line : Bytes × Bytes → Bytes
message_line (user, content) = user ++ (codes ": " ++ content)

abbrev pub added : Bytes → List (Bytes × Bytes) → Bytes
added conv [] = conv
added conv (x ∷ xs) = added (conv ++ (crlf ++ message_line x)) xs

-- What a message makes of a conversation, or of none.
abbrev pub say_onto : Option Bytes → Bytes × Bytes → Bytes
say_onto none x = message_line x
say_onto (some conv) x = conv ++ (crlf ++ message_line x)

-- The query of a message on a topic.
abbrev pub IsSay : Bytes → Bytes × Bytes → Dictionary Bytes → Type 0
IsSay topic x query =
    (field query (codes "topic") ≡ some topic)
    × (field query (codes "user") ≡ some x.0)
    × (field query (codes "content") ≡ some x.1)
    × IsText x.0
    × IsText x.1

abbrev pub IsTextOrNull : Option Bytes → Type 0
IsTextOrNull none = Unit
IsTextOrNull (some s) = IsText s

pub colon-IsText : IsText (codes ": ")
colon-IsText = is_text-IsText (codes ": ") refl

pub crlf-IsText : IsText crlf
crlf-IsText = is_text-IsText crlf refl

module _ (m : Malloc) where
  -- The value that `say` puts into the dictionary.
  abbrev pub said : Option Bytes → Option Bytes → Option Bytes → Bytes
  said user content all_conv = elim all_conv [
    | some conv ↦
        appended m (some conv ∷ some (codes "\r\n") ∷ user ∷ some (codes ": ") ∷ content ∷ [])
    | none ↦ appended m (user ∷ some (codes ": ") ∷ content ∷ [])
  ]

  pub said-say_onto :
      (user content : Bytes) (o : Option Bytes)
      → IsText user
      → IsText content
      → IsTextOrNull o
      → said (some user) (some content) o ≡ say_onto o (user, content)
  unfolding before_null
  said-say_onto user content none h k t =
      let args : List Bytes = user ∷ codes ": " ∷ content ∷ [] in
      let text : said (some user) (some content) none ≡ joined args =
        appended-joined m (some user ∷ some (codes ": ") ∷ some content ∷ [])
          (h, (colon-IsText, (k, tt))) in
      text ∙ ap (λ s. user ++ (codes ": " ++ s)) (append-nil content)
  said-say_onto user content (some conv) h k t =
      let args : List Bytes = conv ∷ crlf ∷ user ∷ codes ": " ∷ content ∷ [] in
      let text : said (some user) (some content) (some conv) ≡ joined args =
        appended-joined m
          (some conv ∷ some crlf ∷ some user ∷ some (codes ": ") ∷ some content ∷ [])
          (t, (crlf-IsText, (h, (colon-IsText, (k, tt))))) in
      text ∙ ap (λ s. conv ++ (crlf ++ (user ++ (codes ": " ++ s)))) (append-nil content)

  -- The answer to a message.
  abbrev pub say_answer : Task
  say_answer = serve_form m client [] (some []) (some []) (some []) finished

  pub say_lem :
      (topic : Bytes) (x : Bytes × Bytes) (query : Dictionary Bytes)
      → IsSay topic x query
      → say m query ≡ say_on m (some topic) (some x.0) (some x.1)
  unfolding say
  say_lem topic x query h =
      ap (λ t. say_on m t (field query (codes "user")) (field query (codes "content"))) h.0
      ∙ ap (λ u. say_on m (some topic) u (field query (codes "content"))) h.1
      ∙ ap (say_on m (some topic) (some x.0)) h.2

  -- What the client is sent for an empty `pre_content`.
  abbrev pub page : Bytes → List (Fd × Bytes)
  page conv =
      let body = appended m (some conv ∷ some crlf ∷ []) in
      (client, ok_header m (length body) (codes "text/html; charset=utf-8")) ∷ (client, body) ∷ []

  module _ (junk_key junk : Bytes) (topic : Bytes) (d : Dictionary Bytes)
      (es : List (Bytes × Bytes)) (r : Represents d es) where
    -- A message alone: the conversation grows by it, and nothing else changes.
    pub say-Updated :
        (x : Bytes × Bytes) (query : Dictionary Bytes)
        → IsSay topic x query
        → IsTextOrNull (lookup d.compare_mode topic es)
        → (d' : Dictionary Bytes) × (run junk_key junk 4 (say m query) d ≡ some (page [], d'))
          × Updated d topic (say_onto (lookup d.compare_mode topic es) x) es d'
    unfolding run effect say_on serve_form form_body
    say-Updated x query h t =
        let value = say_onto (lookup d.compare_mode topic es) x in
        let (d', set_run, up) = dictionary_set-insert junk_key junk d topic value es r in
        let same = said-say_onto x.0 x.1 (lookup d.compare_mode topic es) h.3 h.4 t in
        (
          d',
          rw (say_lem topic x query h, dictionary_get-lookup d topic es r, same, set_run) refl,
          up,
        )
