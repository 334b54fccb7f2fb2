-- ===== src/Server/Chat/Threads.antt =====
-- The threads of Serverlab/tinychat.c in any interleaving of their effects, and connections that
-- are accepted in between.
use cs4400_fall.Prelude.{All, ◌≡◌, List, ◌∷◌, ◌++◌, some}
use cs4400_fall.CString.{Bytes}
use cs4400_fall.Server.Dictionary.{Dictionary}
use cs4400_fall.Server.Dictionary.Represents.{Represents}
use cs4400_fall.Server.Chat.Extends.{Begins, Extends}
use cs4400_fall.Server.Dictionary.Spec.{lookup}
use cs4400_fall.Server.Output.{Malloc}
use cs4400_fall.Server.Chat.{Fd, Task, effect}
use cs4400_fall.Server.Chat.Input.{Connection}
use cs4400_fall.Server.Chat.Handlers.{doit}

pub record Server : Type 0 where
  pub global_dic : Dictionary Bytes
  pub threads : List Task

module _ (m : Malloc) (junk_key junk : Bytes) where
  -- The next effect of one of the threads, or a new one for a connection.
  pub data Turn : Server → Server → Type 0 where
    advance :
        (before behind : List Task) (t t' : Task) (d d' : Dictionary Bytes)
        (sent : List (Fd × Bytes))
        → effect junk_key junk t d ≡ some (sent, t', d')
        → Turn
            (record { global_dic = d; threads = before ++ t ∷ behind })
            (record { global_dic = d'; threads = before ++ t' ∷ behind })
    accept :
        (unset : Bytes) (connection other : Connection) (s : Server)
        → Turn s (record s { threads = doit m junk_key junk unset connection other ∷ s.threads })

  pub data Turns : Server → Server → Type 0 where
    stay : {s : Server} → Turns s s
    turn : {s t u : Server} → Turn s t → Turns t u → Turns s u

  -- A topic has a conversation that begins with `base`, and no thread will set it to another.
  abbrev Kept : Bytes → Bytes → Server → Type 0
  Kept topic base s =
      (es : List (Bytes × Bytes)) × Represents s.global_dic es
      × Begins base (lookup s.global_dic.compare_mode topic es)
      × All (Extends s.global_dic.compare_mode topic base) s.threads

  module _ (topic base : Bytes) where
    abbrev Found : Dictionary Bytes → Type 0
    Found d =
        (es : List (Bytes × Bytes)) × Represents d es × Begins base (lookup d.compare_mode topic es)

    -- What an effect leaves, and the rest of the thread.
    abbrev Leaves : Dictionary Bytes → Task → Dictionary Bytes → Type 0
    Leaves d t' d' =
        Found d' × (d'.compare_mode ≡ d.compare_mode) × Extends d.compare_mode topic base t'
