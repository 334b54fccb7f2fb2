-- ===== src/Server/Dictionary/Slots.antt =====
-- The accessors of dictionary.c by index, and why enumerating the slots finds every key once.
use cs4400_fall.Prelude.{
  ℕ, zero, suc, ◌<◌, ◌≡◌, refl, ap, ◌∙◌, false, List, [], ◌∷◌, ◌++◌, some, arith, length, get_elem?,
}
use cs4400_fall.CString.{Bytes}
use cs4400_fall.Server.Dictionary.{
  Dictionary, CompareMode, same_key, dictionary_get, dictionary_key, dictionary_value,
  dictionary_count,
}
use cs4400_fall.Server.Dictionary.Lookup.{known}
use cs4400_fall.Server.Dictionary.Spec.{
  names, contents, lookup, insert, Distinct, known-insert, same_key_sym, same_key_refl,
}
use cs4400_fall.Server.Dictionary.Represents.{Represents, dictionary_get-lookup}

known-get_elem? :
    (mode : CompareMode) (j k : Bytes) (i : ℕ) (ks : List Bytes)
    → get_elem? ks i ≡ some k
    → known mode j ks ≡ false
    → same_key mode j k ≡ false
known-get_elem? mode j k i [] e h = ground arith
known-get_elem? mode j k zero (x ∷ ks) e h = ground arith
known-get_elem? mode j k (suc i) (x ∷ ks) e h = ground (arith, known-get_elem? mode j k i ks)

module _ {ℓ} {V : Type ℓ} (mode : CompareMode) where
  -- A key once, whatever is inserted.
  pub insert-Distinct :
      (key : Bytes) (v : V) (es : List (Bytes × V))
      → Distinct mode (names es)
      → Distinct mode (names (insert mode key v es))
  insert-Distinct key v [] d = (refl, tt)
  insert-Distinct key v ((k, w) ∷ es) d =
      ground
        (arith, insert-Distinct key v es d.1, known-insert mode key k v es, same_key_sym mode key k)

  -- The entry at index `i`.
  record Entry (es : List (Bytes × V)) (i : ℕ) (ks : List Bytes) (vs : List V) : Type ℓ where
    key : Bytes
    value : V
    key_at : get_elem? ks i ≡ some key
    value_at : get_elem? vs i ≡ some value
    in_names : get_elem? (names es) i ≡ some key
    found : Distinct mode (names es) → lookup mode key es ≡ some value

  Entry-at :
      (es : List (Bytes × V)) (ks : List Bytes) (vs : List V) (i : ℕ)
      → i < length es
      → Entry es i (names es ++ ks) (contents es ++ vs)
  Entry-at [] ks vs i h = elim h [ ]
  Entry-at ((k, w) ∷ es) ks vs zero h = record {
    key = k;
    value = w;
    key_at = refl;
    value_at = refl;
    in_names = refl;
    found = λ d. rw (same_key_refl mode k);
  }
  Entry-at ((k, w) ∷ es) ks vs (suc i) h =
      let e = Entry-at es ks vs i (omega arith) in
      record {
        key = e.key;
        value = e.value;
        key_at = e.key_at;
        value_at = e.value_at;
        in_names = e.in_names;
        found = λ d. ground (
          arith,
          known-get_elem? mode k e.key i (names es) e.in_names d.0,
          same_key_sym mode k e.key,
          e.found d.1,
        );
      }

module _ {ℓ} {V : Type ℓ} (d : Dictionary V) where
  -- If no two keys of the dictionary are the same, then at every index below `dictionary_count`
  -- both accessors succeed, and looking up the key there gives the value there.
  pub dictionary_get-key :
      (es : List (Bytes × V)) (i : ℕ)
      → Represents d es
      → Distinct d.compare_mode (names es)
      → i < dictionary_count d
      → (k : Bytes) × (v : V) × (dictionary_key d i ≡ some k)
        × (dictionary_value d i ≡ some v)
        × (dictionary_get d k ≡ some (some v))
  unfolding dictionary_key dictionary_value dictionary_count
  dictionary_get-key es i r dist h =
      let e = Entry-at d.compare_mode es r.free_keys r.free_values i (omega (arith, r.count_is)) in
      (
        e.key,
        e.value,
        rw r.keys_are e.key_at,
        rw r.values_are e.value_at,
        dictionary_get-lookup d e.key es r ∙ ap some (e.found dist),
      )
