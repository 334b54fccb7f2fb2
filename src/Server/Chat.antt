-- ===== src/Server/Chat.antt =====
-- Serverlab/tinychat.c: what a thread of the server does to the shared dictionary and to its
-- connections, and the pages that it sends. A thread is the sequence of its effects: a call of a
-- dictionary function between P and V is one effect, and so is a write to a connection. What it
-- reads of a value it reads when it gets it. The log on standard output is left out.
pub mod Input
pub mod Handlers
pub mod Messages
pub mod Says
pub mod Extends
pub mod Threads
pub mod Race
pub mod Headers
use cs4400_fall.Prelude.{
  ℕ, zero, suc, Bool, true, false, List, [], ◌∷◌, ◌++◌, Option, none, some, ◌==◌, if◌then◌else◌,
  length, ◌>>=◌,
}
use cs4400_fall.CString.{Bytes, codes, terminated, str_eq}
use cs4400_fall.Server.Dictionary.{Dictionary, dictionary_get, dictionary_set}
use cs4400_fall.Server.Output.{Malloc}
use cs4400_fall.Server.Lines.{append_strings, to_string}

-- The connection to the client, and the one that `/import` opens.
pub data Fd : Type 0 where
  client remote : Fd

-- A key or a value is a pointer that may be NULL. `crash` is a fault, `hang` a loop that does not
-- end.
pub data Task : Type 0 where
  finished crash hang : Task
  write_to : Fd → Bytes → Task → Task
  get_locked : Option Bytes → (Option Bytes → Task) → Task
  set_locked : Option Bytes → Bytes → Task → Task

-- The arguments of `append_strings`, which NULL ends.
unfoldable pub before_null : List (Option Bytes) → List Bytes
before_null [] = []
before_null (none ∷ args) = []
before_null (some s ∷ args) = s ∷ before_null args

abbrev pub welcome : Bytes
welcome = codes "Welcome to TinyChat"

module _ (m : Malloc) where
  -- The string that `append_strings` returns.
  unfoldable pub appended : List (Option Bytes) → Bytes
  appended args = elim (append_strings m (before_null args)) [
    | none ↦ []
    | some block ↦ terminated block
  ]

  unfoldable pub ok_header : ℕ → Bytes → Bytes
  ok_header len content_type = appended (
      some (codes "HTTP/1.0 200 OK\r\n")
      ∷ some (codes "Server: TinyChat Web Server\r\n")
      ∷ some (codes "Connection: close\r\n")
      ∷ some (codes "Content-length: ")
      ∷ some (to_string len)
      ∷ some (codes "\r\n")
      ∷ some (codes "Content-type: ")
      ∷ some content_type
      ∷ some (codes "\r\n\r\n")
      ∷ [])

  unfoldable pub welcome_body : Bytes
  welcome_body = appended (
      some (codes "<html><body>\r\n")
      ∷ some (codes "<p>Welcome to TinyChat</p>")
      ∷ some (codes "\r\n<form action=\"reply\" method=\"post\"")
      ∷ some (codes " enctype=\"application/x-www-form-urlencoded\"")
      ∷ some (codes " accept-charset=\"UTF-8\">\r\n")
      ∷ some (codes "Name: <input type=\"text\" name=\"name\"><br>\r\n")
      ∷ some (codes "Topic: <input type=\"text\" name=\"topic\"><br>\r\n")
      ∷ some (codes "<input type=\"hidden\" name=\"user_name\" value=\"yes\">\r\n")
      ∷ some (codes "<input type=\"hidden\" name=\"user_topic\" value=\"yes\">\r\n")
      ∷ some (codes "<input type=\"submit\" value=\"Join Conversation\">\r\n")
      ∷ some (codes "</form></body></html>\r\n")
      ∷ [])

  unfoldable pub reply_body :
      (pre_content : Bytes) → (name topic conversation : Option Bytes) → Bytes
  reply_body pre_content name topic conversation = appended (
      some (codes "<html><body>\r\n")
      ∷ some (codes "<p>")
      ∷ some pre_content
      ∷ some (codes "</p>")
      ∷ some (codes "\r\n<form action=\"reply\" method=\"post\"")
      ∷ some (codes " enctype=\"application/x-www-form-urlencoded\"")
      ∷ some (codes " accept-charset=\"UTF-8\">\r\n")
      ∷ conversation
      ∷ some (codes "<br>\r\n")
      ∷ name
      ∷ some (codes ": ")
      ∷ some (codes "<input type=\"hidden\" name=\"name\" value=")
      ∷ name
      ∷ some (codes ">\r\n")
      ∷ some (codes "<input type=\"hidden\" name=\"topic\" value=")
      ∷ topic
      ∷ some (codes ">\r\n")
      ∷ some (codes "<input type=\"text\" name=\"message\">\r\n")
      ∷ some (codes "<input type=\"submit\" value=\"Add\">\r\n")
      ∷ some (codes "</form></body></html>\r\n")
      ∷ [])

  unfoldable pub form_body :
      (pre_content : Bytes) → (name topic conversation : Option Bytes) → Bytes
  form_body pre_content name topic conversation =
      if length pre_content == 0
      then appended (conversation ∷ some (codes "\r\n") ∷ [])
      else if str_eq pre_content welcome
      then welcome_body
      else reply_body pre_content name topic conversation

  -- `serve_form`, in front of what the thread does next.
  unfoldable pub serve_form :
      Fd → (pre_content : Bytes) → (name topic conversation : Option Bytes) → Task → Task
  serve_form fd pre_content name topic conversation next =
      let body = form_body pre_content name topic conversation in
      write_to fd (ok_header (length body) (codes "text/html; charset=utf-8"))
        (write_to fd body next)

  unfoldable pub clienterror : Fd → (cause errnum shortmsg longmsg : Bytes) → Task → Task
  clienterror fd cause errnum shortmsg longmsg next =
      let body = appended (
        some (codes "<html><title>Tiny Error</title>")
        ∷ some (codes "<body bgcolor=ffffff>\r\n")
        ∷ some errnum
        ∷ some (codes " ")
        ∷ some shortmsg
        ∷ some (codes "<p>")
        ∷ some longmsg
        ∷ some (codes ": ")
        ∷ some cause
        ∷ some (codes "<hr><em>The Tiny Web server</em>\r\n")
        ∷ []) in
      let header = appended (
        some (codes "HTTP/1.0 ")
        ∷ some errnum
        ∷ some (codes " ")
        ∷ some shortmsg
        ∷ some (codes "Content-type: text/html; charset=utf-8\r\n")
        ∷ some (codes "Content-length: ")
        ∷ some (to_string (length body))
        ∷ some (codes "\r\n\r\n")
        ∷ []) in
      write_to fd header (write_to fd body next)

-- One effect of a thread on the shared dictionary; `none` is a crash of the server, or a thread
-- that has no next effect. `strcmp` and `strdup` read a key that is NULL.
module _ (junk_key junk : Bytes) where
  unfoldable pub effect :
      Task → Dictionary Bytes → Option (List (Fd × Bytes) × Task × Dictionary Bytes)
  effect finished d = none
  effect crash d = none
  effect hang d = some ([], hang, d)
  effect (write_to fd s next) d = some ((fd, s) ∷ [], next, d)
  effect (get_locked none next) d = if d.count == 0 then some ([], next none, d) else none
  effect (get_locked (some key) next) d = do value ← dictionary_get d key; some ([], next value, d)
  effect (set_locked none value next) d = none
  effect (set_locked (some key) value next) d = do
    d' ← dictionary_set junk_key junk d key value
    some ([], next, d')

  -- A thread that runs alone: what it writes, and the dictionary behind it.
  unfoldable pub run : ℕ → Task → Dictionary Bytes → Option (List (Fd × Bytes) × Dictionary Bytes)
  run rounds finished d = some ([], d)
  run zero task d = none
  run (suc rounds) task d = do
    (sent, next, d') ← effect task d
    (more, d'') ← run rounds next d'
    some (sent ++ more, d'')
