-- ===== src/Server/Dictionary/Represents.antt =====
-- The arrays of dictionary.c hold a list of entries, and every operation follows the abstract one.
use cs4400_fall.Prelude.{
  suc, ◌+◌, ◌≡◌, refl, sym, ap, ◌∙◌, true, false, List, [], ◌∷◌, ◌++◌, none, some, arith, length,
  length-append, get_elem?-append, append_assoc,
}
use mathlib.Core.Path.{subst}
use cs4400_fall.CString.{Bytes}
use cs4400_fall.Server.Dictionary.{Dictionary, same_key, find_slot, dictionary_get}
use cs4400_fall.Server.Dictionary.Lookup.{known, find_slot-first, find_slot-missing}
use cs4400_fall.Server.Dictionary.Spec.{
  names, contents, lookup, Split, absent, present, split, lookup-absent, lookup-present,
}

-- The slots in use hold the entries, in order; behind them both arrays have the same room.
pub record Represents {ℓ} {V : Type ℓ} (d : Dictionary V) (es : List (Bytes × V)) : Type ℓ where
  pub free_keys : List Bytes
  pub free_values : List V
  pub keys_are : d.keys ≡ names es ++ free_keys
  pub values_are : d.values ≡ contents es ++ free_values
  pub count_is : d.count ≡ length es
  pub alloc_is : d.alloc ≡ length es + length free_keys
  pub room : length free_values ≡ length free_keys

module _ {ℓ} {V : Type ℓ} where
  pub names-append : (a b : List (Bytes × V)) → names (a ++ b) ≡ names a ++ names b
  names-append [] b = refl
  names-append ((k, v) ∷ a) b = ap (◌∷◌ k) (names-append a b)

  pub contents-append : (a b : List (Bytes × V)) → contents (a ++ b) ≡ contents a ++ contents b
  contents-append [] b = refl
  contents-append ((k, v) ∷ a) b = ap (◌∷◌ v) (contents-append a b)

  pub length-names : (es : List (Bytes × V)) → length (names es) ≡ length es
  length-names [] = refl
  length-names ((k, v) ∷ es) = ap suc (length-names es)

  pub length-contents : (es : List (Bytes × V)) → length (contents es) ≡ length es
  length-contents [] = refl
  length-contents ((k, v) ∷ es) = ap suc (length-contents es)

module _ {ℓ} {V : Type ℓ} (d : Dictionary V) (key : Bytes) where
  pub find_slot-absent :
      (es : List (Bytes × V))
      → Represents d es
      → known d.compare_mode key (names es) ≡ false
      → find_slot d key 0 d.count ≡ some none
  find_slot-absent es r h =
      ap (find_slot d key 0) (r.count_is ∙ sym (length-names es))
      ∙ find_slot-missing d key (names es) [] r.free_keys 0 r.keys_are refl h

  pub find_slot-present :
      (a : List (Bytes × V)) (k : Bytes) (w : V) (b : List (Bytes × V))
      → Represents d (a ++ (k, w) ∷ b)
      → known d.compare_mode key (names a) ≡ false
      → same_key d.compare_mode key k ≡ true
      → find_slot d key 0 d.count ≡ some (some (length a))
  find_slot-present a k w b r h s =
      let layout =
        r.keys_are
        ∙ ap (λ n. n ++ r.free_keys) (names-append a ((k, w) ∷ b))
        ∙ append_assoc (names a) (k ∷ names b) r.free_keys in
      let count : d.count ≡ length (names a) + suc (length b) =
        omega (arith, r.count_is, length-append a ((k, w) ∷ b), length-names a) in
      ap (find_slot d key 0) count
      ∙ find_slot-first d key (names a) [] k (names b ++ r.free_keys) (length b) 0 layout refl h s
      ∙ ap (λ n. some (some n)) (omega (arith, length-names a))

  pub value-present :
      (a : List (Bytes × V)) (k : Bytes) (w : V) (b : List (Bytes × V))
      (r : Represents d (a ++ (k, w) ∷ b))
      → d.values ≡ contents a ++ w ∷ (contents b ++ r.free_values)
  value-present a k w b r =
      r.values_are
      ∙ ap (λ n. n ++ r.free_values) (contents-append a ((k, w) ∷ b))
      ∙ append_assoc (contents a) (w ∷ contents b) r.free_values

  get-Split :
      (es : List (Bytes × V))
      → Represents d es
      → Split d.compare_mode key es
      → dictionary_get d key ≡ some (lookup d.compare_mode key es)
  unfolding dictionary_get
  get-Split es r (absent h) = rw (find_slot-absent es r h, lookup-absent d.compare_mode key es h)
  get-Split es r (present a k w b e h s) =
      let r' = subst (Represents d) e r in
      rw (
        find_slot-present a k w b r' h s,
        value-present a k w b r',
        ← length-contents a,
        get_elem?-append (contents a) w (contents b ++ r'.free_values),
        e,
        lookup-present d.compare_mode key k s w b a h,
      )

  -- On a dictionary that holds the entries `es`, `dictionary_get` never faults, and returns the
  -- value of the first entry whose key is the same under the dictionary's comparison, or NULL.
  pub dictionary_get-lookup :
      (es : List (Bytes × V))
      → Represents d es
      → dictionary_get d key ≡ some (lookup d.compare_mode key es)
  dictionary_get-lookup es r = get-Split es r (split d.compare_mode key es)
