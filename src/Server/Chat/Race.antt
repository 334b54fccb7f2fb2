-- ===== src/Server/Chat/Race.antt =====
-- Two messages at once: the lock of Serverlab/tinychat.c covers the reading and the writing of a
-- conversation, but not the two together.
use cs4400_fall.Prelude.{◌≡◌, refl, ◌∙◌, List, [], ◌∷◌, some}
use cs4400_fall.CString.{Bytes, IsText}
use cs4400_fall.Server.Dictionary.{Dictionary, dictionary_set}
use cs4400_fall.Server.Dictionary.Represents.{Represents, dictionary_get-lookup}
use cs4400_fall.Server.Dictionary.Spec.{lookup, insert, lookup-insert, same_key_refl}
use cs4400_fall.Server.Dictionary.Update.{dictionary_set-insert}
use cs4400_fall.Server.Output.{Malloc}
use cs4400_fall.Server.Chat.{Task, set_locked, effect}
use cs4400_fall.Server.Chat.Handlers.{say_on, say}
use cs4400_fall.Server.Chat.Messages.{said-say_onto, say_lem, say_onto, say_answer, IsSay}
use cs4400_fall.Server.Chat.Threads.{advance, Turns, stay, turn}

module _ (m : Malloc) (junk_key junk topic conv : Bytes) (text : IsText conv) where
  got :
      (x : Bytes × Bytes) (query d : Dictionary Bytes) (es : List (Bytes × Bytes))
      → Represents d es
      → lookup d.compare_mode topic es ≡ some conv
      → IsSay topic x query
      → effect junk_key junk (say m query) d
        ≡ some ([], set_locked (some topic) (say_onto (some conv) x) (say_answer m), d)
  unfolding effect say_on
  got x query d es r e h =
      let same = said-say_onto m x.0 x.1 (some conv) h.3 h.4 text in
      rw (say_lem m topic x query h, dictionary_get-lookup d topic es r, e, same) refl

  put :
      (value : Bytes) (d d' : Dictionary Bytes)
      → dictionary_set junk_key junk d topic value ≡ some d'
      → effect junk_key junk (set_locked (some topic) value (say_answer m)) d
        ≡ some ([], say_answer m, d')
  unfolding effect
  put value d d' e = rw e refl

  -- Two requests by `/say` for one topic may run so that both threads come to their answers, and
  -- the conversation has the second message and not the first one.
  pub say-lost :
      (x y : Bytes × Bytes) (query query' d : Dictionary Bytes) (es : List (Bytes × Bytes))
      → Represents d es
      → lookup d.compare_mode topic es ≡ some conv
      → IsSay topic x query
      → IsSay topic y query'
      → (d' : Dictionary Bytes) × (es' : List (Bytes × Bytes)) × Turns m junk_key junk
          (record { global_dic = d; threads = say m query ∷ say m query' ∷ [] })
          (record { global_dic = d'; threads = say_answer m ∷ say_answer m ∷ [] })
        × Represents d' es'
        × (lookup d'.compare_mode topic es' ≡ some (say_onto (some conv) y))
  say-lost x y query query' d es r e h k =
      let mode = d.compare_mode in
      let vx = say_onto (some conv) x in
      let vy = say_onto (some conv) y in
      let (d₁, set₁, up₁) = dictionary_set-insert junk_key junk d topic vx es r in
      let es₁ = insert mode topic vx es in
      let (d₂, set₂, up₂) = dictionary_set-insert junk_key junk d₁ topic vy es₁ up₁.entries in
      let mode₁ = d₁.compare_mode in
      let es₂ = insert mode₁ topic vy es₁ in
      let found : lookup mode₁ topic es₂ ≡ some vy =
        lookup-insert mode₁ topic topic vy es₁ ∙ (rw (same_key_refl mode₁ topic) refl) in
      let first : Task = set_locked (some topic) vx (say_answer m) in
      let second : Task = set_locked (some topic) vy (say_answer m) in
      (
        d₂,
        es₂,
        turn (advance [] (say m query' ∷ []) (say m query) first d d [] (got x query d es r e h)) (
            turn (advance (first ∷ []) [] (say m query') second d d [] (got y query' d es r e k)) (
              turn (advance [] (second ∷ []) first (say_answer m) d d₁ [] (put vx d d₁ set₁)) (
                turn
                  (advance (say_answer m ∷ []) [] second (say_answer m) d₁ d₂ []
                    (put vy d₁ d₂ set₂))
                  stay))),
        up₂.entries,
        rw up₂.mode_kept found,
      )
