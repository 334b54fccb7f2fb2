-- ===== src/Server/Entity.antt =====
-- Serverlab/more_string.c: `entity_encode`, with its loop and its two passes.
pub mod Escape
use cs4400_fall.Prelude.{ℕ, ◌||◌, List, [], ◌∷◌, Option, none, some, ◌==◌, if◌then◌else◌, ◌>>=◌}
use cs4400_fall.CString.{Bytes}
use cs4400_fall.Server.Output.{Malloc, Out, put_all, two_pass}

-- What one round of the loop writes.
unfoldable pub entity_byte : ℕ → Bytes
entity_byte c =
    if c == b'<' || c == b'>'
    then b'&' ∷ (if c == b'<' then b'l' else b'g') ∷ b't' ∷ b';' ∷ []
    else if c == b'&'
    then b'&' ∷ b'a' ∷ b'm' ∷ b'p' ∷ b';' ∷ []
    else if c == b'"'
    then b'&' ∷ b'q' ∷ b'u' ∷ b'o' ∷ b't' ∷ b';' ∷ []
    else c ∷ []

unfoldable pub entity_loop : Bytes → Out → Option Out
unfolding entity_byte
entity_loop [] o = some o
entity_loop (c ∷ cs) o = do o' ← put_all (entity_byte c) o; entity_loop cs o'

unfoldable pub entity_encode : Malloc → Bytes → Option Bytes
unfolding entity_loop
entity_encode m s = two_pass m (entity_loop s)
