-- ===== src/Server/Dictionary/Ownership.antt =====
-- Who frees the values of dictionary.c: every value handed to `dictionary_set` is freed once,
-- when another value displaces it or when the dictionary is destroyed.
use mathlib.Core.List.{Perm, perm_middle, perm_append_comm, reverse_aux}
use mathlib.Core.List.Perm
use mathlib.Core.List.Permᴰ
use cs4400_fall.Prelude.{
  ℕ, ◌+◌, ◌≡◌, refl, sym, ap, ◌∙◌, List, [], ◌∷◌, ◌++◌, Option, some, arith, inl, inr, Bool-cases,
  length, length-append, get_elem?, get_elem?-append, append_assoc, append-nil, ◌>>=◌,
}
use cs4400_fall.CString.{Bytes}
use cs4400_fall.Server.Dictionary.{
  Dictionary, CompareMode, same_key, make_dictionary, dictionary_set, free_from, free_value,
  free_dictionary,
}
use cs4400_fall.Server.Dictionary.Spec.{names, contents, insert, displaced}
use cs4400_fall.Server.Dictionary.Represents.{Represents}
use cs4400_fall.Server.Dictionary.Update.{Updated, dictionary_set-insert}

module _ {ℓ} {V : Type ℓ} where
  -- Calls of `dictionary_set`, one for each pair, in order.
  unfoldable pub set_all : Bytes → V → Dictionary V → List (Bytes × V) → Option (Dictionary V)
  set_all junk_key junk d [] = some d
  set_all junk_key junk d ((k, v) ∷ ops) = do
    d' ← dictionary_set junk_key junk d k v
    set_all junk_key junk d' ops

  pub make_dictionary-Represents :
      (mode : CompareMode) → Represents (make_dictionary {V = V} mode) []
  unfolding make_dictionary
  make_dictionary-Represents mode = record {
    free_keys = [];
    free_values = [];
    keys_are = refl;
    values_are = refl;
    count_is = refl;
    alloc_is = refl;
    room = refl;
  }

  displaced-insert-perm :
      (mode : CompareMode) (key : Bytes) (v : V) (es : List (Bytes × V))
      → Perm (displaced mode key es ++ contents (insert mode key v es)) (v ∷ contents es)
  displaced-insert-perm mode key v [] = Perm.refl _
  displaced-insert-perm mode key v ((k, w) ∷ es) = elim (Bool-cases (same_key mode key k)) [
    | inl y ↦ rw y (Perm.swap _ _ _)
    | inr n ↦ rw n (
        Perm.trans (perm_middle (displaced mode key es) _)
          (Perm.trans (Perm.cons w (displaced-insert-perm mode key v es)) (Perm.swap _ _ _)))
  ]

  -- What has been freed together with what is held.
  abbrev pub accounted : Dictionary V → List (Bytes × V) → List V
  accounted d es = d.freed ++ contents es

  Updated-perm :
      (d d' : Dictionary V) (key : Bytes) (v : V) (es : List (Bytes × V))
      → Updated d key v es d'
      → Perm (accounted d' (insert d.compare_mode key v es)) (v ∷ accounted d es)
  Updated-perm d d' key v es up = rw up.freed_is (
      Perm.trans
        (Perm.append (perm_append_comm (displaced d.compare_mode key es) d.freed) (Perm.refl _))
        (rw append_assoc (
          Perm.trans
            (Perm.append (Perm.refl d.freed) (displaced-insert-perm d.compare_mode key v es))
            (perm_middle d.freed (contents es)))))

  free_from-contents :
      (d : Dictionary V) (es : List (Bytes × V)) (pre_keys : List Bytes) (pre : List V)
      (ks : List Bytes) (vs : List V) (i : ℕ)
      → d.keys ≡ pre_keys ++ (names es ++ ks)
      → d.values ≡ pre ++ (contents es ++ vs)
      → i ≡ length pre_keys
      → i ≡ length pre
      → free_from d i (length es) ≡ some (record d { freed = reverse_aux (contents es) d.freed })
  unfolding free_from
  free_from-contents d [] pre_keys pre ks vs i ek ev nk nv = refl
  free_from-contents d ((k, v) ∷ es) pre_keys pre ks vs i ek ev nk nv =
      let key_got : get_elem? d.keys i ≡ some k = rw (ek, nk) (get_elem?-append pre_keys k _) in
      let value_got : get_elem? d.values i ≡ some v = rw (ev, nv) (get_elem?-append pre v _) in
      rw (key_got, value_got)
        (free_from-contents (free_value d v) es (pre_keys ++ k ∷ []) (pre ++ v ∷ []) ks vs (i + 1)
          (ek ∙ sym (append_assoc pre_keys (k ∷ []) _)) (ev ∙ sym (append_assoc pre (v ∷ []) _))
          (omega (arith, length-append pre_keys (k ∷ [])))
          (omega (arith, length-append pre (v ∷ []))))

  -- `free_dictionary` frees every value held, once.
  free_dictionary-contents :
      (d : Dictionary V) (es : List (Bytes × V))
      → Represents d es
      → free_dictionary d ≡ some (record d { freed = reverse_aux (contents es) d.freed })
  unfolding free_dictionary
  free_dictionary-contents d es r =
      ap (free_from d 0) r.count_is
      ∙ free_from-contents d es [] [] r.free_keys r.free_values 0 r.keys_are r.values_are refl refl

  -- What a sequence of sets leaves: entries with distinct keys, and no value lost or freed twice.
  record Ran (ops : List (Bytes × V)) (d : Dictionary V) (es : List (Bytes × V)) (d' : Dictionary V)
      : Type ℓ where
    end : List (Bytes × V)
    entries : Represents d' end
    kept : Perm (accounted d' end) (contents ops ++ accounted d es)

  module _ (junk_key : Bytes) (junk : V) where
    set_all-Ran :
        (ops : List (Bytes × V)) (d : Dictionary V) (es : List (Bytes × V))
        → Represents d es
        → (d' : Dictionary V) × (set_all junk_key junk d ops ≡ some d') × Ran ops d es d'
    unfolding set_all
    set_all-Ran [] d es r = (d, refl, record { end = es; entries = r; kept = Perm.refl _ })
    set_all-Ran ((k, v) ∷ ops) d es r =
        let (d₁, run₁, up) = dictionary_set-insert junk_key junk d k v es r in
        let (d₂, run₂, more) = set_all-Ran ops d₁ (insert d.compare_mode k v es) up.entries in
        (
          d₂,
          rw run₁ run₂,
          record {
            end = more.end;
            entries = more.entries;
            kept = Perm.trans more.kept (
                Perm.trans (Perm.append (Perm.refl (contents ops)) (Updated-perm d d₁ k v es up))
                  (perm_middle (contents ops) (accounted d es)));
          },
        )

    -- From an empty dictionary any sequence of sets succeeds, and so does `free_dictionary` after
    -- it; then the values freed are exactly the values that were set, each as often as it was set.
    pub free_dictionary-perm :
        (mode : CompareMode) (ops : List (Bytes × V))
        → (d e : Dictionary V) × (set_all junk_key junk (make_dictionary mode) ops ≡ some d)
          × (free_dictionary d ≡ some e)
          × Perm e.freed (contents ops)
    free_dictionary-perm mode ops =
        let (d, run, r) =
          set_all-Ran ops (make_dictionary mode) [] (make_dictionary-Represents mode) in
        let kept : Perm (accounted d r.end) (contents ops ++ []) =
          unfold make_dictionary in r.kept in
        (
          d,
          _,
          run,
          free_dictionary-contents d r.end r.entries,
          Perm.trans ∣ Permᴰ.reverse_aux (contents r.end) d.freed ∣₁
              (Perm.trans (perm_append_comm (contents r.end) d.freed) (rw append-nil at kept)),
        )
