-- ===== src/Server/Dictionary/Lookup.antt =====
-- The search loop of dictionary.c over the slots in use.
use cs4400_fall.Prelude.{
  ℕ, suc, ◌+◌, ◌≡◌, refl, sym, ◌∙◌, Bool, true, false, ◌||◌, List, [], ◌∷◌, ◌++◌, none, some, arith,
  get_elem?, length, length-append, get_elem?-append, append_assoc, if◌then◌else◌,
}
use Prim.Native.Nat.add
use cs4400_fall.CString.{Bytes}
use cs4400_fall.Server.Dictionary.{CompareMode, Dictionary, same_key, find_slot}

-- Whether a key is the same as one of the list.
abbrev pub known : CompareMode → Bytes → List Bytes → Bool
known mode key [] = false
known mode key (k ∷ ks) = same_key mode key k || known mode key ks

module _ {ℓ} {V : Type ℓ} (d : Dictionary V) (key : Bytes) where
  find_slot-suc :
      (pre : List Bytes) (k : Bytes) (rest : List Bytes) (n i : ℕ)
      → d.keys ≡ pre ++ k ∷ rest
      → i ≡ length pre
      → find_slot d key i (suc n)
        ≡ (if same_key d.compare_mode key k then some (some i) else find_slot d key (i + 1) n)
  unfolding find_slot
  find_slot-suc pre k rest n i e at =
      let got : get_elem? d.keys i ≡ some k = rw (e, at) (get_elem?-append pre k rest) in
      rw got refl

  pub find_slot-first :
      (a pre : List Bytes) (k : Bytes) (rest : List Bytes) (n i : ℕ)
      → d.keys ≡ pre ++ (a ++ k ∷ rest)
      → i ≡ length pre
      → known d.compare_mode key a ≡ false
      → same_key d.compare_mode key k ≡ true
      → find_slot d key i (length a + suc n) ≡ some (some (i + length a))
  find_slot-first [] pre k rest n i e at h s =
      rw add.zero (rw (find_slot-suc pre k rest n i e at, s) (ground arith))
  find_slot-first (x ∷ a) pre k rest n i e at h s =
      let next =
        find_slot-first a (pre ++ x ∷ []) k rest n (i + 1)
          (e ∙ sym (append_assoc pre (x ∷ []) (a ++ k ∷ rest)))
          (omega (arith, length-append pre (x ∷ []))) in
      rw add.suc (
        rw (find_slot-suc pre x (a ++ k ∷ rest) (length a + suc n) i e at)
          (ground (arith, next (ground arith))))

  pub find_slot-missing :
      (ks pre rest : List Bytes) (i : ℕ)
      → d.keys ≡ pre ++ (ks ++ rest)
      → i ≡ length pre
      → known d.compare_mode key ks ≡ false
      → find_slot d key i (length ks) ≡ some none
  find_slot-missing [] pre rest i e at h = unfold find_slot in refl
  find_slot-missing (x ∷ ks) pre rest i e at h =
      let next =
        find_slot-missing ks (pre ++ x ∷ []) rest (i + 1)
          (e ∙ sym (append_assoc pre (x ∷ []) (ks ++ rest)))
          (omega (arith, length-append pre (x ∷ []))) in
      rw (find_slot-suc pre x (ks ++ rest) (length ks) i e at) (ground (arith, next (ground arith)))
