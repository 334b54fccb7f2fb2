-- ===== src/Pages/Entries.antt =====
-- A write to an entry in the table of Malloclab/pagemap.c is seen at its page alone.
use cs4400_fall.Prelude.{
  ℕ, ◌%◌, ◌^◌, ◌≡◌, ◌≢◌, inl, inr, refl, sym, ap, ◌∙◌, Bool, true, false, ◌&&◌, Option, none, some,
  ◌==◌, if◌then◌else◌, ◌>>=◌, arith, Bool-cases,
}
use cs4400_fall.Pages.{
  Mpage, Pagemap, Level1, Level2, Level3, level1_bits, level2_bits, level3_bits, at_index, page_at,
  set_page,
}
use cs4400_fall.Pages.Table.{HasPage}

-- Different pages have different places in the table.
bits_differ :
    (p q : ℕ)
    → p % 2 ^ 12 ≡ 0
    → q % 2 ^ 12 ≡ 0
    → level1_bits p ≡ level1_bits q
    → level2_bits p ≡ level2_bits q
    → level3_bits p ≡ level3_bits q
    → p ≡ q
bits_differ p q ap aq e f g = omega arith

tables3 :
    (r : Option Level3) (k : ℕ) (x : Mpage)
    → (r >>= λ v. some (v k)) ≡ some x
    → (v : Level3) × (r ≡ some v)
tables3 none k x e = absurd (ground arith)
tables3 (some v) k x e = (v, refl)

tables2 :
    (r : Option Level2) (j k : ℕ) (x : Mpage)
    → (r >>= λ u. u j >>= λ v. some (v k)) ≡ some x
    → (u : Level2) × (v : Level3) × (r ≡ some u) × (u j ≡ some v)
tables2 none j k x e = absurd (ground arith)
tables2 (some u) j k x e = let (v, f) = tables3 (u j) k x e in (u, v, refl, f)

tables1 :
    (r : Option Level1) (i j k : ℕ) (x : Mpage)
    → (r >>= λ t. t i >>= λ u. u j >>= λ v. some (v k)) ≡ some x
    → (t : Level1) × (u : Level2) × (v : Level3) × (r ≡ some t) × (t i ≡ some u) × (u j ≡ some v)
tables1 none i j k x e = absurd (ground arith)
tables1 (some t) i j k x e = let (u, v, f, g) = tables2 (t i) j k x e in (t, u, v, refl, f, g)

written_walk :
    (t : Level1) (u : Level2) (v : Level3) (i j k : ℕ) (e : Mpage) (i' j' k' : ℕ)
    → t i ≡ some u
    → u j ≡ some v
    → (at_index t i (some (at_index u j (some (at_index v k e)))) i' >>= λ t₂.
        t₂ j' >>= λ t₃. some (t₃ k'))
      ≡ (if (i' == i) && ((j' == j) && (k' == k))
          then some e
          else (t i' >>= λ t₂. t₂ j' >>= λ t₃. some (t₃ k')))
written_walk t u v i j k e i' j' k' f g = ground arith

all_or_none :
    (a b c d e f : ℕ) → (a ≡ b → c ≡ d → e ≢ f) → ((a == b) && ((c == d) && (e == f))) ≡ false
all_or_none a b c d e f h = ground arith

equal_refl : (n : ℕ) → (n == n) ≡ true
equal_refl n = ground arith

all_same :
    (p : ℕ)
    → ((level1_bits p == level1_bits p)
        && ((level2_bits p == level2_bits p) && (level3_bits p == level3_bits p)))
      ≡ (p == p)
all_same p =
    rw
      (
        equal_refl (level1_bits p),
        equal_refl (level2_bits p),
        equal_refl (level3_bits p),
        equal_refl p,
      )
      refl

same_bits :
    (p q : ℕ)
    → p % 2 ^ 12 ≡ 0
    → q % 2 ^ 12 ≡ 0
    → ((level1_bits q == level1_bits p)
        && ((level2_bits q == level2_bits p) && (level3_bits q == level3_bits p)))
      ≡ (q == p)
same_bits p q low low' = elim (Bool-cases (q == p)) [
  | inl same ↦ let at : q ≡ p = ground arith in rw at (all_same p)
  | inr other ↦
      let ne : q ≢ p = ground arith in
      all_or_none (level1_bits q) (level1_bits p) (level2_bits q) (level2_bits p) (level3_bits q)
        (level3_bits p) (λ f g h. ne (bits_differ q p low' low f g h))
      ∙ sym other
]

-- What a page's entry is written to, other pages do not see.
pub set_page-run :
    (m : Pagemap) (p : ℕ) (e : Mpage)
    → p % 2 ^ 12 ≡ 0
    → HasPage m p
    → (m' : Pagemap) × (set_page m p e ≡ some m')
      × (m'.all_mapped_pages ≡ m.all_mapped_pages)
      × ((q : ℕ) → q % 2 ^ 12 ≡ 0 → page_at m' q ≡ (if q == p then some e else page_at m q))
unfolding set_page page_at
set_page-run m p e aligned here =
    let (t, u, v, f, g, k) =
      tables1 m.page_maps1 (level1_bits p) (level2_bits p) (level3_bits p) _ here in
    let new =
      at_index t (level1_bits p)
        (some (at_index u (level2_bits p) (some (at_index v (level3_bits p) e)))) in
    (
      record m { page_maps1 = some new },
      rw (f, g, k) refl,
      refl,
      λ q low.
          written_walk t u v (level1_bits p) (level2_bits p) (level3_bits p) e (level1_bits q)
            (level2_bits q) (level3_bits q) g k
          ∙ ap
              (λ (c : Bool).
                if c
                then some e
                else (t (level1_bits q) >>= λ t₂.
                    t₂ (level2_bits q) >>= λ t₃. some (t₃ (level3_bits q))))
              (same_bits p q aligned low)
          ∙ ap
              (λ o.
                if q == p
                then some e
                else (o >>= λ t₁. t₁ (level1_bits q) >>= λ t₂.
                    t₂ (level2_bits q) >>= λ t₃. some (t₃ (level3_bits q))))
              (sym f),
    )
