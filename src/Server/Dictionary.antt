-- ===== src/Server/Dictionary.antt =====
-- Serverlab/dictionary.c. The two arrays hold `alloc` slots each, of which the first `count` are
-- in use; `realloc` leaves arbitrary values in the new slots, the parameters `junk_key` and
-- `junk`. A read or write outside an array is a fault, `none`. The values that `free_value` has
-- been called on are listed in `freed`, the last one first.
pub mod Lookup
pub mod Represents
pub mod Ownership
pub mod Slots
pub mod Spec
pub mod Update
use cs4400_fall.Prelude.{
  ℕ, zero, suc, ◌+◌, ◌-◌, ◌*◌, Bool, true, false, List, [], ◌∷◌, ◌++◌, Option, none, some, ◌==◌,
  if◌then◌else◌, get_elem?, store, replicate, ◌>>=◌,
}
use cs4400_fall.CString.{Bytes, str_eq, str_case_eq}

-- COMPARE_CASE_SENS and COMPARE_CASE_INSENS.
pub data CompareMode : Type 0 where
  case_sens case_insens : CompareMode

pub record Dictionary {ℓ} (V : Type ℓ) : Type ℓ where
  pub compare_mode : CompareMode
  pub count : ℕ
  pub alloc : ℕ
  pub keys : List Bytes
  pub values : List V
  pub freed : List V

unfoldable pub same_key : CompareMode → Bytes → Bytes → Bool
unfolding str_eq str_case_eq
same_key case_insens a b = str_case_eq a b
same_key case_sens a b = str_eq a b

module _ {ℓ} {V : Type ℓ} where
  unfoldable pub make_dictionary : CompareMode → Dictionary V
  make_dictionary mode = record {
    compare_mode = mode;
    count = 0;
    alloc = 0;
    keys = [];
    values = [];
    freed = [];
  }

  -- The loop that both accessors run over the slots in use: the first index from `i` on, with
  -- `rounds` slots left, whose key is the same as `key`.
  unfoldable pub find_slot : Dictionary V → Bytes → ℕ → ℕ → Option (Option ℕ)
  unfolding same_key
  find_slot d key i zero = some none
  find_slot d key i (suc rounds) = do
    k ← get_elem? d.keys i
    let rest = find_slot d key (i + 1) rounds
    if same_key d.compare_mode key k then some (some i) else rest

  unfoldable pub free_value : Dictionary V → V → Dictionary V
  free_value d v = record d { freed = v ∷ d.freed }

  -- The branch of `dictionary_set` that replaces the value of slot `i`.
  unfoldable pub replace_value : Dictionary V → ℕ → V → Option (Dictionary V)
  unfolding free_value
  replace_value d i value = do
    old ← get_elem? d.values i
    vs ← store d.values i value
    some (record (free_value d old) { values = vs })

  -- The arrays are full: `alloc` becomes `2 * (alloc + 1)`, and both arrays are reallocated.
  unfoldable pub grow : Bytes → V → Dictionary V → Dictionary V
  grow junk_key junk d =
      if d.count == d.alloc
      then record d {
        alloc = 2 * (d.alloc + 1);
        keys = d.keys ++ replicate (2 * (d.alloc + 1) - d.alloc) junk_key;
        values = d.values ++ replicate (2 * (d.alloc + 1) - d.alloc) junk;
      }
      else d

  -- The branch that fills the first unused slot.
  unfoldable pub append_entry : Dictionary V → Bytes → V → Option (Dictionary V)
  append_entry d key value = do
    ks ← store d.keys d.count key
    vs ← store d.values d.count value
    some (record d { keys = ks; values = vs; count = d.count + 1 })

  unfoldable pub dictionary_set : Bytes → V → Dictionary V → Bytes → V → Option (Dictionary V)
  unfolding find_slot replace_value grow append_entry
  dictionary_set junk_key junk d key value = do
    found ← find_slot d key 0 d.count
    elim found [
      | some i ↦ replace_value d i value
      | none ↦ append_entry (grow junk_key junk d) key value
    ]

  -- `some none` is the result NULL.
  unfoldable pub dictionary_get : Dictionary V → Bytes → Option (Option V)
  unfolding find_slot
  dictionary_get d key = do
    found ← find_slot d key 0 d.count
    elim found [ some i ↦ do v ← get_elem? d.values i; some (some v) | none ↦ some none ]

  unfoldable pub dictionary_count : Dictionary V → ℕ
  dictionary_count d = d.count

  unfoldable pub dictionary_key : Dictionary V → ℕ → Option Bytes
  dictionary_key d i = get_elem? d.keys i

  unfoldable pub dictionary_value : Dictionary V → ℕ → Option V
  dictionary_value d i = get_elem? d.values i

  -- The loop of `free_dictionary`, with `rounds` slots left: the keys are freed with the values.
  free_from : Dictionary V → ℕ → ℕ → Option (Dictionary V)
  unfolding free_value
  free_from d i zero = some d
  free_from d i (suc rounds) = do
    _ ← get_elem? d.keys i
    v ← get_elem? d.values i
    free_from (free_value d v) (i + 1) rounds

  unfoldable pub free_dictionary : Dictionary V → Option (Dictionary V)
  unfolding free_from
  free_dictionary d = free_from d 0 d.count
