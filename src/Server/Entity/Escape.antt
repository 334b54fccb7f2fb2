-- ===== src/Server/Entity/Escape.antt =====
-- `entity_encode` of more_string.c leaves no markup, and a reader of entities gets the text back.
use cs4400_fall.Prelude.{
  ℕ, zero, suc, ◌<◌, ◌≡◌, refl, sym, ap, ◌∙◌, false, ◌||◌, [], ◌∷◌, ◌++◌, some, arith, ◌>>=◌,
  if◌then◌else◌, ◌==◌, All, All-append,
}
use mathlib.Core.Path.{fun_ext}
use cs4400_fall.CString.{Bytes, IsText, terminated, strn_eq}
use cs4400_fall.CString.Compare.{terminated-append, IsText-append}
use cs4400_fall.Server.Output.{Malloc, Out, put_all, put_all-append, two_pass-put_all}
use cs4400_fall.Server.Entity.{entity_byte, entity_loop, entity_encode}

pub entities : Bytes → Bytes
entities [] = []
entities (c ∷ cs) = entity_byte c ++ entities cs

entity_loop-put_all : (s : Bytes) (o : Out) → entity_loop s o ≡ put_all (entities s) o
unfolding entity_loop entities
entity_loop-put_all [] o = unfold put_all in refl
entity_loop-put_all (c ∷ cs) o =
    ap (λ k. put_all (entity_byte c) o >>= k) (fun_ext λ o'. entity_loop-put_all cs o')
    ∙ sym (put_all-append (entity_byte c) (entities cs) o)

-- What a browser reads at an `&`: the character, and how many more bytes its name takes.
pub entity_name : Bytes → ℕ × ℕ
unfolding strn_eq
entity_name s =
    if strn_eq (b'l' ∷ b't' ∷ b';' ∷ []) s 3
    then (b'<', 3)
    else if strn_eq (b'g' ∷ b't' ∷ b';' ∷ []) s 3
    then (b'>', 3)
    else if strn_eq (b'a' ∷ b'm' ∷ b'p' ∷ b';' ∷ []) s 4
    then (b'&', 4)
    else if strn_eq (b'q' ∷ b'u' ∷ b'o' ∷ b't' ∷ b';' ∷ []) s 5
    then (b'"', 5)
    else (b'&', 0)

-- The text that a browser shows for character data; the number says how many bytes to pass over.
pub read_entities : ℕ → Bytes → Bytes
unfolding entity_name
read_entities k [] = []
read_entities (suc k) (c ∷ cs) = read_entities k cs
read_entities zero (c ∷ cs) =
    let (x, n) = if c == b'&' then entity_name cs else (c, 0) in x ∷ read_entities n cs

read_entities-entity_byte :
    (c : ℕ) (rest : Bytes) → read_entities 0 (entity_byte c ++ rest) ≡ c ∷ read_entities 0 rest
unfolding read_entities entity_byte
read_entities-entity_byte c rest = ground arith

read_entities-entities : (s : Bytes) → read_entities 0 (entities s) ≡ s
unfolding entities
read_entities-entities [] = unfold read_entities in refl
read_entities-entities (c ∷ s) =
    read_entities-entity_byte c (entities s) ∙ ap (◌∷◌ c) (read_entities-entities s)

-- Bytes that cannot open a tag or close an attribute.
abbrev pub IsInert : ℕ → Type 0
IsInert c = (c == b'<' || c == b'>' || c == b'"') ≡ false

entity_byte-IsInert : (c : ℕ) → All IsInert (entity_byte c)
unfolding entity_byte
entity_byte-IsInert c = ground arith

entities-IsInert : (s : Bytes) → All IsInert (entities s)
unfolding entities
entities-IsInert [] = tt
entities-IsInert (c ∷ s) =
    All-append IsInert (entity_byte c) (entities s) (entity_byte-IsInert c) (entities-IsInert s)

entity_byte-IsText : (c : ℕ) → 0 < c → c < 256 → IsText (entity_byte c)
unfolding entity_byte
entity_byte-IsText c h k = ground arith

entities-IsText : (s : Bytes) → IsText s → IsText (entities s)
unfolding entities
entities-IsText [] t = tt
entities-IsText (c ∷ s) t =
    IsText-append (entity_byte c) (entities s) (entity_byte-IsText c t.0 t.1)
      (entities-IsText s t.2)

-- For a C string, `entity_encode` stays within its buffer and returns a string that holds no `<`,
-- no `>` and no `"`, and that a reader of entities reads as the string that was given.
pub entity_encode-read_entities :
    (m : Malloc) (s : Bytes)
    → IsText s
    → (e : Bytes) × (entity_encode m s ≡ some e)
      × All IsInert (terminated e)
      × (read_entities 0 (terminated e) ≡ s)
unfolding entity_encode
entity_encode-read_entities m s text =
    let string = terminated-append (entities s) [] (entities-IsText s text) in
    (
      entities s ++ 0 ∷ [],
      two_pass-put_all m (entity_loop s) (entities s) (entity_loop-put_all s),
      rw string (entities-IsInert s),
      rw string (read_entities-entities s),
    )
