-- ===== src/Matchlab/ModelA.antt =====
-- `is_a_model` of Matchlab/matchlab.c accepts just the strings of its pattern.
use cs4400_fall.Prelude.{
  ℕ, zero, suc, ◌+◌, ◌≤◌, ◌≡◌, ◌≢◌, ◌↔◌, inl, inr, refl, sym, ap, ◌∙◌, Bool, true, false, [], ◌∷◌,
  ◌++◌, Option, none, some, leb, ◌==◌, if◌then◌else◌, All, length, replicate, arith, Bool-cases,
}
use cs4400_fall.CString.{Bytes, isdigit}
use cs4400_fall.Matchlab.{scan_l, scan_t, scan_digits, is_end, is_last, after_t, is_a_model}

-- From one to three decimal digits.
abbrev pub IsNumber : Bytes → Type 0
IsNumber ds = All (λ d. isdigit d ≡ true) ds × (1 ≤ length ds) × (length ds ≤ 3)

-- Up to three letters l, one to five letters t, one to three digits.
pub record IsModelA (s : Bytes) : Type 0 where
  pub ls : ℕ
  pub ts : ℕ
  pub digits : Bytes
  pub parts : s ≡ replicate ls b'l' ++ replicate ts b't' ++ digits
  pub ls_max : ls ≤ 3
  pub ts_min : 1 ≤ ts
  pub ts_max : ts ≤ 5
  pub number : IsNumber digits

scan_digits_sound :
    (q : Bytes) (n : ℕ)
    → scan_digits q n ≡ true
    → All (λ d. isdigit d ≡ true) q × (1 ≤ length q) × (n + length q ≤ 3)
unfolding scan_digits
scan_digits_sound [] n e = ground arith
scan_digits_sound (c ∷ []) n e = ground arith
scan_digits_sound (c ∷ d ∷ cs) n e = ground (arith, scan_digits_sound (d ∷ cs) (suc n))

scan_digits_complete :
    (q : Bytes) (n : ℕ)
    → All (λ d. isdigit d ≡ true) q
    → 1 ≤ length q
    → n + length q ≤ 3
    → scan_digits q n ≡ true
unfolding scan_digits
scan_digits_complete [] n a l m = ground arith
scan_digits_complete (c ∷ []) n a l m = ground arith
scan_digits_complete (c ∷ d ∷ cs) n a l m =
    ground (arith, scan_digits_complete (d ∷ cs) (suc n) a.1)

t_isdigit : isdigit b't' ≡ false
unfolding isdigit
t_isdigit = refl

l_isdigit : isdigit b'l' ≡ false
unfolding isdigit
l_isdigit = refl

scan_digits_other :
    (c : ℕ) (cs : Bytes) (n : ℕ) → isdigit c ≡ false → scan_digits (c ∷ cs) n ≡ false
unfolding scan_digits
scan_digits_other c cs n e = rw e refl

digits-IsNumber : (q : Bytes) → scan_digits q 0 ≡ true → IsNumber q
digits-IsNumber q e = let (a, lo, hi) = scan_digits_sound q 0 e in (a, lo, omega (arith, hi))

pub cons_part : (c d : ℕ) (cs ds : Bytes) → c ≡ d → cs ≡ ds → c ∷ cs ≡ d ∷ ds
cons_part c d cs ds p q = ap (λ x. x ∷ cs) p ∙ ap (λ xs. d ∷ xs) q

scan_t_sound :
    (q : Bytes) (n : ℕ) (index : Bytes)
    → (q ≡ [] → scan_digits index 0 ≡ false)
    → after_t (scan_t q n index) ≡ true
    → (ts : ℕ) × (ds : Bytes) × (q ≡ replicate ts b't' ++ ds)
      × (1 ≤ n + ts)
      × (n + ts ≤ 5)
      × IsNumber ds
unfolding scan_t
scan_t_sound [] n index stop e = absurd (ground (arith, stop))
scan_t_sound (c ∷ cs) n index stop e = elim (Bool-cases (c == b't')) [
  | inl yes_t ↦
      let again : after_t (scan_t cs (suc n) (c ∷ cs)) ≡ true = ground arith in
      let at : c ≡ b't' = ground arith in
      let (ts, ds, p, lo, hi, num) =
        scan_t_sound cs (suc n) (c ∷ cs) (λ _. scan_digits_other c cs 0 (ap isdigit at ∙ t_isdigit))
          again in
      (suc ts, ds, cons_part c b't' cs _ at p, omega arith, omega arith, num)
  | inr not_t ↦
      let counted : (1 ≤ n) × (n ≤ 5) × (scan_digits (c ∷ cs) 0 ≡ true) = ground arith in
      (0, c ∷ cs, refl, omega arith, omega arith, digits-IsNumber (c ∷ cs) counted.2)
]

scan_t_complete :
    (ts : ℕ) (n : ℕ) (index ds : Bytes)
    → 1 ≤ n + ts
    → n + ts ≤ 5
    → IsNumber ds
    → after_t (scan_t (replicate ts b't' ++ ds) n index) ≡ true
unfolding scan_t
scan_t_complete zero n index [] lo hi num = absurd (omega (arith, num.1))
scan_t_complete zero n index (d ∷ ds) lo hi num =
    let off : (d == b't') ≡ false = ground (arith, num.0.0, t_isdigit) in
    let good = scan_digits_complete (d ∷ ds) 0 num.0 num.1 (omega (arith, num.2)) in
    ground (arith, off, good)
scan_t_complete (suc ts) n index ds lo hi num =
    scan_t_complete ts (suc n) (b't' ∷ replicate ts b't' ++ ds) ds (omega arith) (omega arith) num

-- What `is_a_model` does after its first loop.
unfoldable after_l : Option (Option Bytes) → Option Bool
after_l none = some false
after_l (some none) = none
after_l (some (some q)) = if is_last q then some false else some (after_t (scan_t q 0 q))

short_l : (c : ℕ) (cs : Bytes) → cs ≡ [] → after_l (some (some (c ∷ cs))) ≢ some true
unfolding after_l
short_l c [] e k = ground arith
short_l c (d ∷ cs) e k = ground arith

after_l_sound :
    (s : Bytes) (n : ℕ) (index : Option Bytes)
    → (s ≡ [] → after_l (some index) ≢ some true)
    → after_l (scan_l s n index) ≡ some true
    → (ls : ℕ) × (ts : ℕ) × (ds : Bytes) × (s ≡ replicate ls b'l' ++ replicate ts b't' ++ ds)
      × (n + ls ≤ 3)
      × (1 ≤ ts)
      × (ts ≤ 5)
      × IsNumber ds
unfolding after_l scan_l
after_l_sound [] n index stop e = absurd (stop refl e)
after_l_sound (c ∷ cs) n index stop e = elim (Bool-cases (c == b'l')) [
  | inl yes_l ↦
      let again : after_l (scan_l cs (suc n) (some (c ∷ cs))) ≡ some true = ground arith in
      let at : c ≡ b'l' = ground arith in
      let (ls, ts, ds, p, hi, lo, top, num) =
        after_l_sound cs (suc n) (some (c ∷ cs)) (short_l c cs) again in
      (suc ls, ts, ds, cons_part c b'l' cs _ at p, omega arith, lo, top, num)
  | inr not_l ↦
      let counted : (n ≤ 3) × (after_t (scan_t (c ∷ cs) 0 (c ∷ cs)) ≡ true) = ground arith in
      let (ts, ds, p, lo, hi, num) =
        scan_t_sound (c ∷ cs) 0 (c ∷ cs) (λ k. ground arith) counted.1 in
      (0, ts, ds, p, omega arith, omega arith, omega arith, num)
]

-- Only the empty string leaves the index unset.
after_l-some :
    (s : Bytes) (n : ℕ) (q : Bytes) → (b : Bool) × (after_l (scan_l s n (some q)) ≡ some b)
unfolding after_l scan_l
after_l-some [] n q = elim (Bool-cases (is_last q)) [
  | inl last ↦ (false, rw last refl)
  | inr more ↦ (after_t (scan_t q 0 q), rw more refl)
]
after_l-some (c ∷ cs) n q = elim (Bool-cases (c == b'l')) [
  | inl yes_l ↦ let (b, e) = after_l-some cs (suc n) (c ∷ cs) in (b, rw yes_l e)
  | inr not_l ↦ elim (Bool-cases (leb n 3)) [
    | inr many ↦ (false, rw (not_l, many) refl)
    | inl few ↦ elim (Bool-cases (is_end cs)) [
      | inl last ↦ (false, rw (not_l, few, last) refl)
      | inr more ↦ (after_t (scan_t (c ∷ cs) 0 (c ∷ cs)), rw (not_l, few, more) refl)
    ]
  ]
]

long_t : (ts : ℕ) (ds : Bytes) → 1 ≤ length ds → is_end (replicate ts b't' ++ ds) ≡ false
long_t zero [] h = ground arith
long_t zero (d ∷ ds) h = refl
long_t (suc ts) ds h = refl

after_l_complete :
    (ls : ℕ) (n : ℕ) (index : Option Bytes) (ts : ℕ) (ds : Bytes)
    → n + ls ≤ 3
    → 1 ≤ ts
    → ts ≤ 5
    → IsNumber ds
    → after_l (scan_l (replicate ls b'l' ++ replicate ts b't' ++ ds) n index) ≡ some true
unfolding after_l scan_l
after_l_complete zero n index zero ds hi lo top num = absurd (omega arith)
after_l_complete zero n index (suc ts) ds hi lo top num =
    let more = long_t ts ds num.1 in
    let good =
      scan_t_complete (suc ts) 0 (b't' ∷ replicate ts b't' ++ ds) ds (omega arith) (omega arith)
        num in
    let few : leb n 3 ≡ true = ground arith in rw (few, more) (ap some good)
after_l_complete (suc ls) n index ts ds hi lo top num =
    after_l_complete ls (suc n) (some (b'l' ∷ replicate ls b'l' ++ replicate ts b't' ++ ds)) ts ds
      (omega arith) lo top num

is_a_model-after_l : (s : Bytes) → is_a_model s ≡ after_l (scan_l s 0 none)
unfolding is_a_model after_l
is_a_model-after_l s = elim (scan_l s 0 none) [
  | none ↦ refl
  | some none ↦ refl
  | some (some q) ↦ refl
]

pub some_inj : (a b : Bool) → some a ≡ some b → a ≡ b
some_inj a b e = ground arith

-- On every string but the empty one `is_a_model` ends without reading an index that was not set,
-- and accepts just the strings of up to three letters l, one to five letters t and one to three
-- decimal digits.
pub is_a_model-IsModelA :
    (s : Bytes) → s ≢ [] → (b : Bool) × (is_a_model s ≡ some b) × ((b ≡ true) ↔ IsModelA s)
unfolding scan_l
is_a_model-IsModelA [] ne = absurd (ne refl)
is_a_model-IsModelA (c ∷ cs) ne =
    let (b, e) = after_l-some (c ∷ cs) 0 [] in
    (
      b,
      is_a_model-after_l (c ∷ cs) ∙ e,
      (
        λ good.
            let (ls, ts, ds, p, hi, lo, top, num) =
              after_l_sound (c ∷ cs) 0 (some []) (λ k. ground arith) (e ∙ ap some good) in
            record {
              ls = ls;
              ts = ts;
              digits = ds;
              parts = p;
              ls_max = omega arith;
              ts_min = lo;
              ts_max = top;
              number = num;
            },
        λ m. some_inj b true (
            sym e
            ∙ ap (λ s. after_l (scan_l s 0 (some []))) m.parts
            ∙ after_l_complete m.ls 0 (some []) m.ts m.digits (omega (arith, m.ls_max)) m.ts_min
                m.ts_max m.number),
      ),
    )
