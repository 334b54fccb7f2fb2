-- ===== src/Pages/Mapping.antt =====
-- `pagemap_modify` of Malloclab/pagemap.c puts a page in front of the list of the mapped pages.
use cs4400_fall.Prelude.{
  ℕ, ◌%◌, ◌^◌, ◌<◌, ◌≡◌, ◌≢◌, refl, ap, ◌∙◌, true, false, List, [], ◌∷◌, Option, none, some, ◌==◌,
  if◌then◌else◌, ◌>>=◌, arith,
}
use cs4400_fall.Allocator.FreeList.Chain.{has, ne_of_has}
use cs4400_fall.Pages.{
  Mpage, Pagemap, blank, or_new, reserve, page_at, set_page, page_of, set_prev, is_head, link_page,
  pagemap_modify,
}
use cs4400_fall.Pages.Table.{
  entry, HasPage, page_at-HasPage, reserve-entry, reserve-HasPage, reserve-page_at,
}
use cs4400_fall.Pages.Entries.{set_page-run}
use cs4400_fall.Pages.Links.{first_page, IsPages, Linked-frame}

not_first :
    (ps : List ℕ) (p : ℕ)
    → 0 < p
    → p % 2 ^ 12 ≡ 0
    → has p ps ≡ false
    → is_head (first_page ps) (page_of p) ≡ false
not_first [] p real low new = refl
not_first (x ∷ ps) p real low new = ground arith

pick_same {ℓ} : {A : Type ℓ} (n : ℕ) (a b : A) → (if n == n then a else b) ≡ a
pick_same n a b = let same : (n == n) ≡ true = ground arith in rw same refl

pick_other {ℓ} : {A : Type ℓ} (n k : ℕ) (a b : A) → n ≢ k → (if n == k then a else b) ≡ b
pick_other n k a b ne = let other : (n == k) ≡ false = ground arith in rw other refl

page_of_low : (p : ℕ) → p % 2 ^ 12 ≡ 0 → page_of p ≡ p
page_of_low p low = omega arith

entry_eq : (m m' : Pagemap) (q : ℕ) → page_at m' q ≡ page_at m q → entry m' q ≡ entry m q
entry_eq m m' q e = ap (λ r. or_new r blank) e

-- The new entry, and that of the page that was the first.
abbrev new_entry : ℕ → List ℕ → Mpage
new_entry p ps = record { addr = p; prev = none; next = first_page ps }

page_at-head :
    (m : Pagemap) (h : Option ℕ) (q : ℕ)
    → page_at (record m { all_mapped_pages = h }) q ≡ page_at m q
unfolding page_at
page_at-head m h q = refl

set_prev-run :
    (m m' : Pagemap) (q : ℕ) (e : Option ℕ) (x : Mpage)
    → page_at m q ≡ some x
    → set_page m q (record x { prev = e }) ≡ some m'
    → set_prev m q e ≡ some m'
unfolding set_prev
set_prev-run m m' q e x at run = rw at run

module _ (m : Pagemap) (p : ℕ) (real : 0 < p) (low : p % 2 ^ 12 ≡ 0) where
  alone-IsPages :
      (m' : Pagemap)
      → IsPages m []
      → m'.all_mapped_pages ≡ some (page_of p)
      → ((q : ℕ)
          → q % 2 ^ 12 ≡ 0
          → page_at m' q ≡ (if q == p then some (new_entry p []) else page_at m q))
      → IsPages m' (p ∷ [])
  alone-IsPages m' ok first read = record {
    head = first ∙ ap some (page_of_low p low);
    linked = (real, low, read p low ∙ pick_same p _ _, refl, tt);
    others = λ q lq h.
        let ne : q ≢ p = ground arith in
        ap (λ (e : Mpage). e.addr) (entry_eq m m' q (read q lq ∙ pick_other q p _ _ ne))
        ∙ ok.others q lq refl;
  }

  front-IsPages :
      (m' : Pagemap) (y : ℕ) (ys : List ℕ)
      → IsPages m (y ∷ ys)
      → has p (y ∷ ys) ≡ false
      → m'.all_mapped_pages ≡ some (page_of p)
      → ((q : ℕ)
          → q % 2 ^ 12 ≡ 0
          → page_at m' q ≡ (
              if q == y
              then some (record { addr = y; prev = some p; next = first_page ys })
              else if q == p
              then some (new_entry p (y ∷ ys))
              else page_at m q))
      → IsPages m' (p ∷ y ∷ ys)
  front-IsPages m' y ys ok new first read =
      let k = ok.linked in
      let ne : p ≢ y = ground arith in
      record {
        head = first ∙ ap some (page_of_low p low);
        linked = (
          real,
          low,
          read p low ∙ pick_other p y _ _ ne ∙ pick_same p _ _,
          new,
          (
            k.0,
            k.1,
            read y k.1 ∙ pick_same y _ _,
            k.3,
            Linked-frame m m' (some y) ys
                (λ x e lx h f.
                  read x lx
                  ∙ pick_other x y _ _ (ne_of_has x y ys h k.3)
                  ∙ pick_other x p _ _ (ne_of_has x p ys h (ground arith))
                  ∙ f)
                k.4,
          ),
        );
        others = λ q lq h.
            let apart : (q ≢ p) × (q ≢ y) × (has q (y ∷ ys) ≡ false) = ground arith in
            ap (λ (e : Mpage). e.addr)
              (entry_eq m m' q
                (read q lq ∙ pick_other q y _ _ apart.1 ∙ pick_other q p _ _ apart.0))
            ∙ ok.others q lq apart.2;
      }

  both :
      (y : ℕ) (ys : List ℕ) (q : ℕ) {r : Option Mpage}
      → r ≡ (if q == p then some (new_entry p (y ∷ ys)) else page_at m q)
      → (if q == y
          then some (record { addr = y; prev = some (page_of p); next = first_page ys })
          else r)
        ≡ (if q == y
            then some (record { addr = y; prev = some p; next = first_page ys })
            else if q == p
            then some (new_entry p (y ∷ ys))
            else page_at m q)
  both y ys q {r} read =
      ap
        (λ t. if q == y then some (record { addr = y; prev = some t; next = first_page ys }) else r)
        (page_of_low p low)
      ∙ ap
          (λ t.
            if q == y then some (record { addr = y; prev = some p; next = first_page ys }) else t)
          read

  -- What is left of the branch, by the list's first page.
  abbrev linking : Option ℕ → Option Pagemap
  linking h = if is_head h (page_of p) then none else do
    m₁ ← set_page m p (record { addr = p; prev = none; next = h })
    m₂ ← elim h [ none ↦ some m₁ | some q ↦ set_prev m₁ q (some (page_of p)) ]
    some (record m₂ { all_mapped_pages = some (page_of p) })

  link_page-linking :
      (page : Mpage) → page.addr ≡ 0 → link_page m p page ≡ linking m.all_mapped_pages
  unfolding link_page
  link_page-linking page free =
      let vacant : (page.addr == 0) ≡ true = ground arith in rw vacant refl

  linking_first :
      (m₁ : Pagemap)
      → set_page m p (new_entry p []) ≡ some m₁
      → linking none ≡ some (record m₁ { all_mapped_pages = some (page_of p) })
  linking_first m₁ run = rw run refl

  linking_front :
      (y : ℕ) (ys : List ℕ) (m₁ m₂ : Pagemap)
      → (y == page_of p) ≡ false
      → set_page m p (new_entry p (y ∷ ys)) ≡ some m₁
      → set_prev m₁ y (some (page_of p)) ≡ some m₂
      → linking (some y) ≡ some (record m₂ { all_mapped_pages = some (page_of p) })
  linking_front y ys m₁ m₂ ahead run again = rw (ahead, run, again) refl

  link_page-run :
      (ps : List ℕ) (page : Mpage)
      → IsPages m ps
      → has p ps ≡ false
      → HasPage m p
      → page.addr ≡ 0
      → (m' : Pagemap) × (link_page m p page ≡ some m') × IsPages m' (p ∷ ps)
  unfolding link_page
  link_page-run [] page ok new here free =
      let (m₁, run₁, all₁, read₁) = set_page-run m p (new_entry p []) low here in
      (
        record m₁ { all_mapped_pages = some (page_of p) },
        link_page-linking page free ∙ ap linking ok.head ∙ linking_first m₁ run₁,
        alone-IsPages (record m₁ { all_mapped_pages = some (page_of p) }) ok refl
            (λ q lq. page_at-head m₁ (some (page_of p)) q ∙ read₁ q lq),
      )
  link_page-run (y ∷ ys) page ok new here free =
      let k = ok.linked in
      let ahead : (y == page_of p) ≡ false = not_first (y ∷ ys) p real low new in
      let ne : y ≢ p = ground arith in
      let (m₁, run₁, all₁, read₁) = set_page-run m p (new_entry p (y ∷ ys)) low here in
      let old = read₁ y k.1 ∙ pick_other y p _ _ ne ∙ k.2 in
      let (m₂, run₂, all₂, read₂) =
        set_page-run m₁ y (record { addr = y; prev = some (page_of p); next = first_page ys }) k.1
          (page_at-HasPage m₁ y _ old) in
      (
        record m₂ { all_mapped_pages = some (page_of p) },
        link_page-linking page free
            ∙ ap linking ok.head
            ∙ linking_front y ys m₁ m₂ ahead run₁
                (set_prev-run m₁ m₂ y (some (page_of p)) _ old run₂),
        front-IsPages (record m₂ { all_mapped_pages = some (page_of p) }) y ys ok new refl
            (λ q lq. page_at-head m₂ (some (page_of p)) q ∙ read₂ q lq ∙ both y ys q (read₁ q lq)),
      )

-- Reserving tables keeps the list.
reserve-IsPages : (m : Pagemap) (ps : List ℕ) (p : ℕ) → IsPages m ps → IsPages (reserve m p) ps
unfolding reserve
reserve-IsPages m ps p ok = record {
  head = ok.head;
  linked =
      Linked-frame m (reserve m p) none ps (λ x e low h f. reserve-page_at m p x e f) ok.linked;
  others = λ q low h. ap (λ (e : Mpage). e.addr) (reserve-entry m p q) ∙ ok.others q low h;
}

-- `pagemap_modify` that maps a page which is not mapped runs without a fault or an abort, and puts
-- the page in front of the list of the mapped pages, which stays linked both ways.
pub pagemap_modify-IsPages :
    (m : Pagemap) (ps : List ℕ) (p : ℕ)
    → IsPages m ps
    → 0 < p
    → p % 2 ^ 12 ≡ 0
    → has p ps ≡ false
    → (m' : Pagemap) × (pagemap_modify m p true ≡ some m') × IsPages m' (p ∷ ps)
unfolding pagemap_modify
pagemap_modify-IsPages m ps p ok real low new =
    let ok' = reserve-IsPages m ps p ok in
    let here = reserve-HasPage m p in
    let (m', run, list) =
      link_page-run (reserve m p) p real low ps (entry (reserve m p) p) ok' new here
        (ok'.others p low new) in
    (m', rw here run, list)
