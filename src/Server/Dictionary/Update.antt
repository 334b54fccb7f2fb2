-- ===== src/Server/Dictionary/Update.antt =====
-- `dictionary_set` is the abstract insertion: it never faults, and frees what it displaces.
use cs4400_fall.Prelude.{
  ◌+◌, ◌-◌, ◌*◌, ◌<◌, ◌≡◌, refl, sym, ap, ◌∙◌, true, false, List, [], ◌∷◌, ◌++◌, some, arith,
  if◌then◌else◌, inl, inr, Bool-cases, length, length-append, store, store-append, get_elem?-append,
  append_assoc, ◌==◌, replicate, length-replicate,
}
use mathlib.Core.Path.{subst}
use cs4400_fall.CString.{Bytes}
use cs4400_fall.Server.Dictionary.{
  Dictionary, same_key, dictionary_set, dictionary_get, replace_value, append_entry, grow,
}
use cs4400_fall.Server.Dictionary.Lookup.{known}
use cs4400_fall.Server.Dictionary.Spec.{
  names, contents, lookup, insert, displaced, Split, absent, present, split, lookup-insert,
  insert-absent, insert-present,
}
use cs4400_fall.Server.Dictionary.Represents.{
  Represents, names-append, contents-append, length-names, length-contents, find_slot-absent,
  find_slot-present, value-present, dictionary_get-lookup,
}

-- What `dictionary_set` leaves: the abstract insertion, with the displaced value freed.
pub record Updated {ℓ} {V : Type ℓ} (d : Dictionary V) (key : Bytes) (value : V)
    (es : List (Bytes × V)) (d' : Dictionary V) : Type ℓ where
  pub entries : Represents d' (insert d.compare_mode key value es)
  pub mode_kept : d'.compare_mode ≡ d.compare_mode
  pub freed_is : d'.freed ≡ displaced d.compare_mode key es ++ d.freed

module _ {ℓ} {V : Type ℓ} (d : Dictionary V) where
  -- The arrays after `realloc`: the entries stay, and there is room for more.
  grow-Represents :
      (junk_key : Bytes) (junk : V) (es : List (Bytes × V))
      → Represents d es
      → (r : Represents (grow junk_key junk d) es) × (0 < length r.free_keys)
  unfolding grow
  grow-Represents junk_key junk es r = elim (Bool-cases (d.count == d.alloc)) [
    | inl full ↦
        let more = 2 * (d.alloc + 1) - d.alloc in
        let key_room = length-append r.free_keys (replicate more junk_key) in
        let value_room = length-append r.free_values (replicate more junk) in
        let n = length-replicate more junk_key in
        let n' = length-replicate more junk in
        rw full (
          record {
            free_keys = r.free_keys ++ replicate more junk_key;
            free_values = r.free_values ++ replicate more junk;
            keys_are =
                ap (λ ks. ks ++ replicate more junk_key) r.keys_are
                ∙ append_assoc (names es) r.free_keys (replicate more junk_key);
            values_are =
                ap (λ vs. vs ++ replicate more junk) r.values_are
                ∙ append_assoc (contents es) r.free_values (replicate more junk);
            count_is = r.count_is;
            alloc_is = omega (arith, key_room, n, r.alloc_is);
            room = omega (arith, key_room, value_room, n, n', r.room);
          },
          omega (arith, key_room, n),
        )
    | inr more ↦ rw more (r, ground (arith, r.count_is, r.alloc_is))
  ]

  set-present :
      (key : Bytes) (value : V) (a : List (Bytes × V)) (k : Bytes) (w : V) (b : List (Bytes × V))
      → Represents d (a ++ (k, w) ∷ b)
      → same_key d.compare_mode key k ≡ true
      → known d.compare_mode key (names a) ≡ false
      → (d' : Dictionary V) × (replace_value d (length a) value ≡ some d')
        × Updated d key value (a ++ (k, w) ∷ b) d'
  unfolding replace_value
  set-present key value a k w b r s h =
      let vs = contents a ++ value ∷ (contents b ++ r.free_values) in
      let (inserted, gone) = insert-present d.compare_mode key k s w b value a h in
      let names_same : names (a ++ (k, value) ∷ b) ≡ names (a ++ (k, w) ∷ b) =
        names-append a ((k, value) ∷ b) ∙ sym (names-append a ((k, w) ∷ b)) in
      let size : length (a ++ (k, value) ∷ b) ≡ length (a ++ (k, w) ∷ b) =
        omega (arith, length-append a ((k, value) ∷ b), length-append a ((k, w) ∷ b)) in
      (
        record d { values = vs; freed = w ∷ d.freed },
        rw
            (
              value-present d key a k w b r,
              ← length-contents a,
              get_elem?-append (contents a) w (contents b ++ r.free_values),
              store-append (contents a) w (contents b ++ r.free_values) value,
            )
            refl,
        record {
          entries = rw inserted (record {
            free_keys = r.free_keys;
            free_values = r.free_values;
            keys_are = r.keys_are ∙ ap (λ ks. ks ++ r.free_keys) (sym names_same);
            values_are =
                sym (append_assoc (contents a) (value ∷ contents b) r.free_values)
                ∙ ap (λ vs. vs ++ r.free_values) (sym (contents-append a ((k, value) ∷ b)));
            count_is = omega (arith, r.count_is, size);
            alloc_is = omega (arith, r.alloc_is, size);
            room = r.room;
          });
          mode_kept = refl;
          freed_is = rw gone;
        },
      )

  -- Room in both arrays: the new entry takes the first unused slot.
  append-room :
      (es : List (Bytes × V)) (key : Bytes) (value : V) (x : Bytes) (ks : List Bytes) (y : V)
      (vs : List V)
      → d.keys ≡ names es ++ x ∷ ks
      → d.values ≡ contents es ++ y ∷ vs
      → d.count ≡ length es
      → append_entry d key value
        ≡ some (record d {
          keys = names es ++ key ∷ ks;
          values = contents es ++ value ∷ vs;
          count = d.count + 1;
        })
  unfolding append_entry
  append-room es key value x ks y vs ek ev n =
      let store_key : store d.keys d.count key ≡ some (names es ++ key ∷ ks) =
        rw (ek, n, ← length-names es) (store-append (names es) x ks key) in
      let store_value : store d.values d.count value ≡ some (contents es ++ value ∷ vs) =
        rw (ev, n, ← length-contents es) (store-append (contents es) y vs value) in
      rw (store_key, store_value) refl

  append-Represents :
      (es : List (Bytes × V)) (key : Bytes) (value : V) (fk : List Bytes) (fv : List V)
      → d.keys ≡ names es ++ fk
      → d.values ≡ contents es ++ fv
      → d.count ≡ length es
      → d.alloc ≡ length es + length fk
      → length fv ≡ length fk
      → 0 < length fk
      → (d' : Dictionary V) × (append_entry d key value ≡ some d')
        × Represents d' (es ++ (key, value) ∷ [])
        × (d'.compare_mode ≡ d.compare_mode)
        × (d'.freed ≡ d.freed)
  append-Represents es key value [] fv ek ev n al ro h = absurd (omega arith)
  append-Represents es key value (x ∷ ks) [] ek ev n al ro h = absurd (omega arith)
  append-Represents es key value (x ∷ ks) (y ∷ vs) ek ev n al ro h = (
    _,
    append-room es key value x ks y vs ek ev n,
    record {
      free_keys = ks;
      free_values = vs;
      keys_are =
          sym (append_assoc (names es) (key ∷ []) ks)
          ∙ ap (λ l. l ++ ks) (sym (names-append es ((key, value) ∷ [])));
      values_are =
          sym (append_assoc (contents es) (value ∷ []) vs)
          ∙ ap (λ l. l ++ vs) (sym (contents-append es ((key, value) ∷ [])));
      count_is = omega (arith, length-append es ((key, value) ∷ []));
      alloc_is = omega (arith, length-append es ((key, value) ∷ []));
      room = omega arith;
    },
    refl,
    refl,
  )

module _ {ℓ} {V : Type ℓ} (d : Dictionary V) where
  grow_kept :
      (junk_key : Bytes) (junk : V)
      → ((grow junk_key junk d).compare_mode ≡ d.compare_mode)
        × ((grow junk_key junk d).freed ≡ d.freed)
  unfolding grow
  grow_kept junk_key junk = ground arith

  set-absent :
      (junk_key : Bytes) (junk : V) (es : List (Bytes × V)) (key : Bytes) (value : V)
      → Represents d es
      → known d.compare_mode key (names es) ≡ false
      → (d' : Dictionary V) × (append_entry (grow junk_key junk d) key value ≡ some d')
        × Updated d key value es d'
  set-absent junk_key junk es key value r h =
      let (r', space) = grow-Represents d junk_key junk es r in
      let (same_mode, same_freed) = grow_kept junk_key junk in
      let (inserted, nothing) = insert-absent d.compare_mode key value es h in
      let (d', run, after, mode, freed) =
        append-Represents (grow junk_key junk d) es key value r'.free_keys r'.free_values
          r'.keys_are r'.values_are r'.count_is r'.alloc_is r'.room space in
      (
        d',
        run,
        record {
          entries = rw inserted after;
          mode_kept = mode ∙ same_mode;
          freed_is = freed ∙ same_freed ∙ rw nothing;
        },
      )

module _ {ℓ} {V : Type ℓ} (junk_key : Bytes) (junk : V) (d : Dictionary V) (key : Bytes)
    (value : V) where
  set-Split :
      (es : List (Bytes × V))
      → Represents d es
      → Split d.compare_mode key es
      → (d' : Dictionary V) × (dictionary_set junk_key junk d key value ≡ some d')
        × Updated d key value es d'
  unfolding dictionary_set
  set-Split es r (absent h) =
      rw (find_slot-absent d key es r h) (set-absent d junk_key junk es key value r h)
  set-Split es r (present a k w b e h s) =
      let r' = subst (Represents d) e r in
      let (d', run, up) = set-present d key value a k w b r' s h in
      (
        d',
        rw (find_slot-present d key a k w b r' h s) run,
        subst (λ l. Updated d key value l d') (sym e) up,
      )

  -- On a dictionary that holds the entries `es`, `dictionary_set` succeeds, and afterwards the
  -- dictionary holds the abstract insertion into `es`, under the same comparison; of all values
  -- exactly the displaced one, if there is one, has been freed.
  pub dictionary_set-insert :
      (es : List (Bytes × V))
      → Represents d es
      → (d' : Dictionary V) × (dictionary_set junk_key junk d key value ≡ some d')
        × Updated d key value es d'
  dictionary_set-insert es r = set-Split es r (split d.compare_mode key es)

  -- After a `dictionary_set` every lookup gives the new value if its key is the same as the key
  -- that was set, and what it gave before if not.
  pub dictionary_get-set :
      (j : Bytes) (es : List (Bytes × V))
      → Represents d es
      → (d' : Dictionary V) × (dictionary_set junk_key junk d key value ≡ some d')
        × (dictionary_get d' j
            ≡ (if same_key d.compare_mode j key then some (some value) else dictionary_get d j))
  dictionary_get-set j es r =
      let (d', run, up) = dictionary_set-insert es r in
      (
        d',
        run,
        dictionary_get-lookup d' j _ up.entries
            ∙ ap (λ m. some (lookup m j (insert d.compare_mode key value es))) up.mode_kept
            ∙ rw (lookup-insert d.compare_mode key j value es, dictionary_get-lookup d j es r)
                (ground arith),
      )
