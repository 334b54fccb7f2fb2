-- ===== src/Pages/Table.antt =====
-- The table of Malloclab/pagemap.c as a map from pages to entries.
use cs4400_fall.Prelude.{
  ℕ, ◌≡◌, inl, inr, refl, sym, ap, ◌∙◌, true, Option, none, some, ◌==◌, ◌>>=◌, arith, Bool-cases,
}
use cs4400_fall.Pages.{
  Mpage, Pagemap, Level1, Level2, Level3, level1_bits, level2_bits, level3_bits, blank, or_new,
  at_index, reserve, page_at,
}

-- The entry of a page, blank where no table was allocated.
abbrev pub entry : Pagemap → ℕ → Mpage
entry m p = or_new (page_at m p) blank

abbrev pub HasPage : Pagemap → ℕ → Type 0
HasPage m p = page_at m p ≡ some (entry m p)

-- The three levels, read by their indices.
abbrev look2 : Option Level2 → ℕ → ℕ → Mpage
look2 none j k = blank
look2 (some t) j k = elim (t j) [ none ↦ blank | some u ↦ u k ]

abbrev look1 : Option Level1 → ℕ → ℕ → ℕ → Mpage
look1 none i j k = blank
look1 (some t) i j k = look2 (t i) j k

walk-look1 :
    (o : Option Level1) (i j k : ℕ)
    → or_new (o >>= λ t₁. t₁ i >>= λ t₂. t₂ j >>= λ t₃. some (t₃ k)) blank ≡ look1 o i j k
walk-look1 o i j k = ground arith

entry-look1 :
    (m : Pagemap) (p : ℕ)
    → entry m p ≡ look1 m.page_maps1 (level1_bits p) (level2_bits p) (level3_bits p)
unfolding page_at
entry-look1 m p = walk-look1 m.page_maps1 (level1_bits p) (level2_bits p) (level3_bits p)

reserved_look2 :
    (o : Option Level2) (j j' k : ℕ)
    → look2
        (some
          (at_index (or_new o (λ _. none)) j (some (or_new (or_new o (λ _. none) j) (λ _. blank)))))
        j'
        k
      ≡ look2 o j' k
reserved_look2 o j j' k = ground arith

new_look1 : (o : Option Level1) (i j k : ℕ) → look2 (or_new o (λ _. none) i) j k ≡ look1 o i j k
new_look1 none i j k = refl
new_look1 (some t) i j k = refl

reserved_look1 :
    (o : Option Level1) (i j i' j' k : ℕ)
    → look1
        (some (
          at_index (or_new o (λ _. none)) i (
            some (
              at_index
                (or_new (or_new o (λ _. none) i) (λ _. none))
                j
                (some (or_new (or_new (or_new o (λ _. none) i) (λ _. none) j) (λ _. blank)))))))
        i'
        j'
        k
      ≡ look1 o i' j' k
reserved_look1 o i j i' j' k = elim (Bool-cases (i' == i)) [
  | inl same ↦
      let here : i' ≡ i = ground arith in
      rw (same, here) (reserved_look2 (or_new o (λ _. none) i) j j' k ∙ new_look1 o i j' k)
  | inr other ↦ rw other (new_look1 o i' j' k)
]

-- Reserving the tables changes no entry.
pub reserve-entry : (m : Pagemap) (p q : ℕ) → entry (reserve m p) q ≡ entry m q
unfolding reserve
reserve-entry m p q =
    entry-look1 (reserve m p) q
    ∙ reserved_look1 m.page_maps1 (level1_bits p) (level2_bits p) (level1_bits q) (level2_bits q)
        (level3_bits q)
    ∙ sym (entry-look1 m q)

kept2 :
    (o : Option Level2) (j j' k : ℕ) (e : Mpage)
    → (o >>= λ u. u j' >>= λ v. some (v k)) ≡ some e
    → (at_index (or_new o (λ _. none)) j (some (or_new (or_new o (λ _. none) j) (λ _. blank))) j'
        >>= λ v. some (v k))
      ≡ some e
kept2 o j j' k e h = ground arith

kept1 :
    (o : Option Level1) (i j i' j' k : ℕ) (e : Mpage)
    → (o >>= λ t. t i' >>= λ u. u j' >>= λ v. some (v k)) ≡ some e
    → (at_index
          (or_new o (λ _. none))
          i
          (some (
            at_index
              (or_new (or_new o (λ _. none) i) (λ _. none))
              j
              (some (or_new (or_new (or_new o (λ _. none) i) (λ _. none) j) (λ _. blank)))))
          i'
        >>= λ u. u j' >>= λ v. some (v k))
      ≡ some e
kept1 none i j i' j' k e h = absurd (ground arith)
kept1 (some t) i j i' j' k e h = elim (Bool-cases (i' == i)) [
  | inl same ↦
      let here : i' ≡ i = ground arith in
      rw same
        (kept2 (t i) j j' k e (ap (λ n. t n >>= λ u. u j' >>= λ v. some (v k)) (sym here) ∙ h))
  | inr other ↦ rw other h
]

pub reserve-page_at :
    (m : Pagemap) (p q : ℕ) (e : Mpage) → page_at m q ≡ some e → page_at (reserve m p) q ≡ some e
unfolding reserve page_at
reserve-page_at m p q e h =
    kept1 m.page_maps1 (level1_bits p) (level2_bits p) (level1_bits q) (level2_bits q)
      (level3_bits q) e h

at_index_here {ℓ} : {A : Type ℓ} (t : ℕ → A) (i : ℕ) (a : A) → at_index t i a i ≡ a
at_index_here t i a = let same : (i == i) ≡ true = ground arith in rw same refl

pub page_at-HasPage : (m : Pagemap) (p : ℕ) (e : Mpage) → page_at m p ≡ some e → HasPage m p
page_at-HasPage m p e k = k ∙ ap (λ r. some (or_new r blank)) (sym k)

walk_new :
    (t : Level1) (u : Level2) (v : Level3) (i j k : ℕ)
    → (at_index t i (some (at_index u j (some v))) i >>= λ t₂. t₂ j >>= λ t₃. some (t₃ k))
      ≡ some (v k)
walk_new t u v i j k =
    ap (λ o. o >>= λ t₂. t₂ j >>= λ t₃. some (t₃ k))
      (at_index_here t i (some (at_index u j (some v))))
    ∙ ap (λ o. o >>= λ t₃. some (t₃ k)) (at_index_here u j (some v))

pub reserve-HasPage : (m : Pagemap) (p : ℕ) → HasPage (reserve m p) p
unfolding reserve page_at
reserve-HasPage m p =
    page_at-HasPage (reserve m p) p _ (
      walk_new (or_new m.page_maps1 (λ _. none)) _ _ (level1_bits p) (level2_bits p)
        (level3_bits p))
