-- ===== src/Server/Dictionary/Spec.antt =====
-- The abstract dictionary: a list of entries, searched and updated at the first matching key.
use cs4400_fall.Prelude.{
  ◌≡◌, refl, sym, ◌↔◌, true, false, List, [], ◌∷◌, ◌++◌, map, Option, none, some, arith,
  if◌then◌else◌, inl, inr, Bool-cases, ap,
}
use cs4400_fall.CString.{Bytes, tolower}
use cs4400_fall.CString.Compare.{str_eq_iff, str_case_eq_iff}
use cs4400_fall.Server.Dictionary.{CompareMode, case_sens, case_insens, same_key}
use cs4400_fall.Server.Dictionary.Lookup.{known}

-- What the comparison sees of a key.
canonical : CompareMode → Bytes → Bytes
canonical case_sens k = k
canonical case_insens k = map tolower k

same_key_iff :
    (mode : CompareMode) (a b : Bytes)
    → (same_key mode a b ≡ true) ↔ (canonical mode a ≡ canonical mode b)
unfolding same_key canonical
same_key_iff case_sens a b = str_eq_iff a b
same_key_iff case_insens a b = str_case_eq_iff a b

same_key-canonical :
    (mode : CompareMode) (a b c : Bytes)
    → canonical mode b ≡ canonical mode c
    → same_key mode a b ≡ same_key mode a c
same_key-canonical mode a b c e = ground (arith, same_key_iff mode a b, same_key_iff mode a c)

module _ (mode : CompareMode) (j a b : Bytes) where
  pub same_key_right : same_key mode a b ≡ true → same_key mode j b ≡ same_key mode j a
  same_key_right h = sym (same_key-canonical mode j a b ((same_key_iff mode a b).0 h))

  pub same_key_apart :
      same_key mode a b ≡ false → same_key mode j b ≡ true → same_key mode j a ≡ false
  same_key_apart n h =
      ground (arith, same_key_iff mode a b, same_key_iff mode j b, same_key_iff mode j a)

pub same_key_sym : (mode : CompareMode) (a b : Bytes) → same_key mode a b ≡ same_key mode b a
same_key_sym mode a b = ground (arith, same_key_iff mode a b, same_key_iff mode b a)

pub same_key_refl : (mode : CompareMode) (a : Bytes) → same_key mode a a ≡ true
same_key_refl mode a = (same_key_iff mode a a).1 refl

module _ {ℓ} {V : Type ℓ} where
  abbrev pub names : List (Bytes × V) → List Bytes
  names [] = []
  names ((k, _) ∷ es) = k ∷ names es

  abbrev pub contents : List (Bytes × V) → List V
  contents [] = []
  contents ((_, v) ∷ es) = v ∷ contents es

module _ {ℓ} {V : Type ℓ} (mode : CompareMode) (key : Bytes) where
  abbrev pub lookup : List (Bytes × V) → Option V
  lookup [] = none
  lookup ((k, w) ∷ es) = if same_key mode key k then some w else lookup es

  -- A matching entry keeps its key and its place; a new one goes to the end.
  abbrev pub insert : V → List (Bytes × V) → List (Bytes × V)
  insert v [] = (key, v) ∷ []
  insert v ((k, w) ∷ es) = if same_key mode key k then (k, v) ∷ es else (k, w) ∷ insert v es

  -- The value that an insertion displaces, if any.
  abbrev pub displaced : List (Bytes × V) → List V
  displaced [] = []
  displaced ((k, w) ∷ es) = if same_key mode key k then w ∷ [] else displaced es

-- Where the first entry stands whose key is the same as `key`.
pub data Split {ℓ} {V : Type ℓ} (mode : CompareMode) (key : Bytes) (es : List (Bytes × V))
    : Type ℓ where
  absent : known mode key (names es) ≡ false → Split mode key es
  present :
      (a : List (Bytes × V)) (k : Bytes) (w : V) (b : List (Bytes × V))
      → es ≡ a ++ (k, w) ∷ b
      → known mode key (names a) ≡ false
      → same_key mode key k ≡ true
      → Split mode key es

module _ {ℓ} {V : Type ℓ} (mode : CompareMode) (key : Bytes) where
  Split-cons :
      (k : Bytes) (w : V) {es : List (Bytes × V)}
      → same_key mode key k ≡ false
      → Split mode key es
      → Split mode key ((k, w) ∷ es)
  Split-cons k w n (absent h) = absent (ground arith)
  Split-cons k w n (present a x u b e h s) =
      present ((k, w) ∷ a) x u b (ap (◌∷◌ (k, w)) e) (ground arith) s

  pub split : (es : List (Bytes × V)) → Split mode key es
  split [] = absent refl
  split ((k, w) ∷ es) = elim (Bool-cases (same_key mode key k)) [
    | inl y ↦ present [] k w es refl refl y
    | inr n ↦ Split-cons k w n (split es)
  ]

  pub lookup-absent :
      (es : List (Bytes × V)) → known mode key (names es) ≡ false → lookup mode key es ≡ none
  lookup-absent [] h = refl
  lookup-absent ((k, w) ∷ es) h = ground (arith, lookup-absent es)

  pub insert-absent :
      (v : V) (es : List (Bytes × V))
      → known mode key (names es) ≡ false
      → (insert mode key v es ≡ es ++ (key, v) ∷ []) × (displaced mode key es ≡ [])
  insert-absent v [] h = (refl, refl)
  insert-absent v ((k, w) ∷ es) h = ground (arith, insert-absent v es)

  module _ (k : Bytes) (same : same_key mode key k ≡ true) (w : V) (b : List (Bytes × V)) where
    pub lookup-present :
        (a : List (Bytes × V))
        → known mode key (names a) ≡ false
        → lookup mode key (a ++ (k, w) ∷ b) ≡ some w
    lookup-present [] h = rw same
    lookup-present ((j, u) ∷ a) h = ground (arith, lookup-present a)

    pub insert-present :
        (v : V) (a : List (Bytes × V))
        → known mode key (names a) ≡ false
        → (insert mode key v (a ++ (k, w) ∷ b) ≡ a ++ (k, v) ∷ b)
          × (displaced mode key (a ++ (k, w) ∷ b) ≡ w ∷ [])
    insert-present v [] h = (rw same, rw same)
    insert-present v ((j, u) ∷ a) h = ground (arith, insert-present v a)

module _ {ℓ} {V : Type ℓ} (mode : CompareMode) (key : Bytes) where
  pub lookup-insert :
      (j : Bytes) (v : V) (es : List (Bytes × V))
      → lookup mode j (insert mode key v es)
        ≡ (if same_key mode j key then some v else lookup mode j es)
  lookup-insert j v [] = refl
  lookup-insert j v ((k, w) ∷ es) =
      ground (arith, lookup-insert j v es, same_key_right mode j key k, same_key_apart mode j key k)

  pub known-insert :
      (j : Bytes) (v : V) (es : List (Bytes × V))
      → same_key mode j key ≡ false
      → known mode j (names (insert mode key v es)) ≡ known mode j (names es)
  known-insert j v [] n = ground arith
  known-insert j v ((k, w) ∷ es) n = ground (arith, known-insert j v es n)

-- No two keys are the same.
abbrev pub Distinct : CompareMode → List Bytes → Type 0
Distinct mode [] = Unit
Distinct mode (k ∷ ks) = (known mode k ks ≡ false) × Distinct mode ks
