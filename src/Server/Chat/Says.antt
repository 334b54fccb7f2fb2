-- ===== src/Server/Chat/Says.antt =====
-- Messages by `/say` one behind the other, and the conversation that Serverlab/tinychat.c keeps of them.
use mathlib.Core.Path.{subst}
use cs4400_fall.Prelude.{
  ◌≡◌, refl, ap, ◌∙◌, List, [], ◌∷◌, ◌++◌, Option, none, some, ◌>>=◌, append_assoc,
}
use cs4400_fall.CString.{Bytes, IsText, codes}
use cs4400_fall.CString.Compare.{IsText-append}
use cs4400_fall.Server.Dictionary.{Dictionary}
use cs4400_fall.Server.Dictionary.Represents.{Represents, dictionary_get-lookup}
use cs4400_fall.Server.Dictionary.Spec.{lookup, insert, lookup-insert, same_key_refl}
use cs4400_fall.Server.Output.{Malloc}
use cs4400_fall.Server.Chat.{form_body, serve_form, effect, run}
use cs4400_fall.Server.Chat.Input.{field}
use cs4400_fall.Server.Chat.Handlers.{say, conversation_on, conversation}
use cs4400_fall.Server.Chat.Messages.{
  say-Updated, crlf, message_line, added, say_onto, IsSay, IsTextOrNull, colon-IsText, crlf-IsText,
  page,
}

-- A conversation: a line for each message, in order.
abbrev pub transcript : Bytes × Bytes → List (Bytes × Bytes) → Bytes
transcript x [] = message_line x
transcript x (y ∷ ys) = message_line x ++ (crlf ++ transcript y ys)

added-append : (a b : Bytes) (xs : List (Bytes × Bytes)) → added (a ++ b) xs ≡ a ++ added b xs
added-append a b [] = refl
added-append a b (x ∷ xs) =
    ap (λ s. added s xs) (append_assoc a b (crlf ++ message_line x))
    ∙ added-append a (b ++ (crlf ++ message_line x)) xs

added-transcript :
    (x : Bytes × Bytes) (xs : List (Bytes × Bytes)) → added (message_line x) xs ≡ transcript x xs
added-transcript x [] = refl
added-transcript x (y ∷ ys) =
    added-append (message_line x) (crlf ++ message_line y) ys
    ∙ ap (λ s. message_line x ++ s)
        (added-append crlf (message_line y) ys ∙ ap (λ s. crlf ++ s) (added-transcript y ys))

-- Messages with their queries.
abbrev pub Requests : Type 0
Requests = List ((Bytes × Bytes) × Dictionary Bytes)

abbrev pub messages : Requests → List (Bytes × Bytes)
messages [] = []
messages ((x, query) ∷ rs) = x ∷ messages rs

abbrev pub AllSay : Bytes → Requests → Type 0
AllSay topic [] = Unit
AllSay topic ((x, query) ∷ rs) = IsSay topic x query × AllSay topic rs

module _ (m : Malloc) (junk_key junk : Bytes) where
  -- One request behind the other, each thread alone.
  unfoldable pub say_all : Requests → Dictionary Bytes → Option (Dictionary Bytes)
  say_all [] d = some d
  say_all ((x, query) ∷ rs) d = do (_, d') ← run junk_key junk 4 (say m query) d; say_all rs d'

  module _ (topic : Bytes) where
    -- What a dictionary has behind some requests.
    abbrev Has : Bytes → Dictionary Bytes → Type 0
    Has conv d =
        (es : List (Bytes × Bytes)) × Represents d es × (lookup d.compare_mode topic es ≡ some conv)

    say-Has :
        (x : Bytes × Bytes) (query d : Dictionary Bytes) (es : List (Bytes × Bytes))
        → Represents d es
        → IsSay topic x query
        → IsTextOrNull (lookup d.compare_mode topic es)
        → (d' : Dictionary Bytes) × (run junk_key junk 4 (say m query) d ≡ some (page m [], d'))
          × Has (say_onto (lookup d.compare_mode topic es) x) d'
    say-Has x query d es r h t =
        let mode = d.compare_mode in
        let value = say_onto (lookup mode topic es) x in
        let (d', go, up) = say-Updated m junk_key junk topic d es r x query h t in
        let found : lookup mode topic (insert mode topic value es) ≡ some value =
          lookup-insert mode topic topic value es ∙ (rw (same_key_refl mode topic) refl) in
        (d', go, (insert mode topic value es, up.entries, rw up.mode_kept found))

    say_all-added :
        (rs : Requests) (conv : Bytes) (d : Dictionary Bytes)
        → AllSay topic rs
        → IsText conv
        → Has conv d
        → (d' : Dictionary Bytes) × (say_all rs d ≡ some d') × Has (added conv (messages rs)) d'
    unfolding say_all
    say_all-added [] conv d h t k = (d, refl, k)
    say_all-added ((x, query) ∷ rs) conv d h t (es, r, e) =
        let line =
          IsText-append x.0 (codes ": " ++ x.1) h.0.3
            (IsText-append (codes ": ") x.1 colon-IsText h.0.4) in
        let grown =
          IsText-append conv (crlf ++ message_line x) t
            (IsText-append crlf (message_line x) crlf-IsText line) in
        let (d₁, go, k) = say-Has x query d es r h.0 (rw e t) in
        let k' : Has (conv ++ (crlf ++ message_line x)) d₁ =
          subst (λ o. Has (say_onto o x) d₁) e k in
        let (d', rest, k'') = say_all-added rs (conv ++ (crlf ++ message_line x)) d₁ h.1 grown k' in
        (d', rw go rest, k'')

    conversation-page :
        (conv : Bytes) (query d : Dictionary Bytes)
        → field query (codes "topic") ≡ some topic
        → Has conv d
        → run junk_key junk 3 (conversation m query) d ≡ some (page m conv, d)
    unfolding run effect conversation conversation_on serve_form form_body
    conversation-page conv query d h (es, r, e) =
        ap (λ t. run junk_key junk 3 (conversation_on m t) d) h
        ∙ (rw (dictionary_get-lookup d topic es r, e) refl)

  -- Messages by `/say` on a topic that has no conversation yet, one request behind the other, are
  -- all kept: the server does not crash, and `/conversation` then sends a line for each of them,
  -- in their order, and changes nothing. The queries have the fields that the requests read, and
  -- names and texts are C strings.
  pub say_all-transcript :
      (topic : Bytes) (x : Bytes × Bytes) (query query' d : Dictionary Bytes) (rs : Requests)
      (es : List (Bytes × Bytes))
      → Represents d es
      → lookup d.compare_mode topic es ≡ none
      → IsSay topic x query
      → AllSay topic rs
      → field query' (codes "topic") ≡ some topic
      → (d' : Dictionary Bytes) × (say_all ((x, query) ∷ rs) d ≡ some d')
        × (run junk_key junk 3 (conversation m query') d'
            ≡ some (page m (transcript x (messages rs)), d'))
  unfolding say_all
  say_all-transcript topic x query query' d rs es r e h k q =
      let line =
        IsText-append x.0 (codes ": " ++ x.1) h.3
          (IsText-append (codes ": ") x.1 colon-IsText h.4) in
      let (d₁, go, has) = say-Has topic x query d es r h (rw e tt) in
      let has' : Has topic (message_line x) d₁ = subst (λ o. Has topic (say_onto o x) d₁) e has in
      let (d', rest, has'') = say_all-added topic rs (message_line x) d₁ k line has' in
      let kept : Has topic (transcript x (messages rs)) d' =
        subst (λ s. Has topic s d') (added-transcript x (messages rs)) has'' in
      (d', rw go rest, conversation-page topic (transcript x (messages rs)) query' d' q kept)
