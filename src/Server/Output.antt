-- ===== src/Server/Output.antt =====
-- The buffers that more_string.c fills. Its encoders run one loop twice: first with `dest` NULL,
-- which only counts, then with a buffer of `j + 1` bytes from `malloc`. A write outside the
-- buffer is a fault, `none`.
use cs4400_fall.Prelude.{
  ℕ, zero, suc, ◌+◌, ◌≡◌, refl, sym, ap, ◌∙◌, [], ◌∷◌, ◌++◌, Option, none, some, arith, length,
  length-append, store, store-append, append_assoc, ◌>>=◌, Option-cases, inl, inr,
}
use cs4400_fall.CString.{Bytes}

-- What is relied on of `malloc`, which lies outside the sources: a block of the size asked for,
-- with arbitrary bytes in it.
pub record Malloc : Type 0 where
  pub block : ℕ → Bytes
  pub length-block : (n : ℕ) → length (block n) ≡ n

-- The variables `j` and `dest` of the loops.
pub record Out : Type 0 where
  pub pos : ℕ
  pub dest : Option Bytes

-- One byte of a chunk: `if (dest) dest[j] = c;`, and the step of `j`.
unfoldable pub put : ℕ → Out → Option Out
put c o = elim o.dest [
  | none ↦ some (record o { pos = o.pos + 1 })
  | some buf ↦ do buf' ← store buf o.pos c; some (record { pos = o.pos + 1; dest = some buf' })
]

-- The bytes of a chunk in order.
unfoldable pub put_all : Bytes → Out → Option Out
unfolding put
put_all [] o = some o
put_all (c ∷ cs) o = do o' ← put c o; put_all cs o'

-- The two passes around a loop.
unfoldable pub two_pass : Malloc → (Out → Option Out) → Option Bytes
two_pass m pass = do
  sized ← pass (record { pos = 0; dest = none })
  filled ← pass (record { pos = 0; dest = some (m.block (sized.pos + 1)) })
  buf ← filled.dest
  store buf filled.pos 0

pub put_all-append : (a b : Bytes) (o : Out) → put_all (a ++ b) o ≡ (put_all a o >>= put_all b)
unfolding put_all
put_all-append [] b o = refl
put_all-append (c ∷ a) b o = elim (Option-cases (put c o)) [
  | inl e ↦ rw e
  | inr (o', e) ↦ rw e (put_all-append a b o')
]

put_all-count :
    (s : Bytes) (n : ℕ)
    → put_all s (record { pos = n; dest = none })
      ≡ some (record { pos = n + length s; dest = none })
unfolding put_all
put_all-count [] n = ground arith
put_all-count (c ∷ s) n = put_all-count s (n + 1) ∙ ground arith

-- The bytes go where they belong, and the last byte of the buffer is left for the terminator.
put_all-fill :
    (s junk done : Bytes) (x n : ℕ) (buf : Bytes)
    → n ≡ length done
    → buf ≡ done ++ (junk ++ x ∷ [])
    → length junk ≡ length s
    → put_all s (record { pos = n; dest = some buf })
      ≡ some (record { pos = n + length s; dest = some (done ++ (s ++ x ∷ [])) })
unfolding put_all
put_all-fill [] [] done x n buf en eb h = ground arith
put_all-fill [] (y ∷ junk) done x n buf en eb h = absurd (omega arith)
put_all-fill (c ∷ s) [] done x n buf en eb h = absurd (omega arith)
put_all-fill (c ∷ s) (y ∷ junk) done x n buf en eb h =
    let here : store buf n c ≡ some (done ++ c ∷ (junk ++ x ∷ [])) =
      rw (eb, en) (store-append done y (junk ++ x ∷ []) c) in
    rw here (
      put_all-fill s junk (done ++ c ∷ []) x (n + 1) (done ++ c ∷ (junk ++ x ∷ []))
        (omega (arith, length-append done (c ∷ [])))
        (sym (append_assoc done (c ∷ []) (junk ++ x ∷ []))) (omega arith)
      ∙ ground (arith, append_assoc done (c ∷ []) (s ++ x ∷ [])))

last_split :
    (n : ℕ) (b : Bytes)
    → length b ≡ n + 1
    → (junk : Bytes) × (x : ℕ) × (b ≡ junk ++ x ∷ []) × (length junk ≡ n)
last_split n [] h = absurd (omega arith)
last_split zero (c ∷ []) h = ([], c, refl, refl)
last_split zero (c ∷ d ∷ b) h = absurd (omega arith)
last_split (suc n) (c ∷ b) h =
    let (junk, x, e, l) = last_split n b (omega arith) in (c ∷ junk, x, ap (◌∷◌ c) e, omega arith)

-- A block of one byte more than is written, whatever is in it, ends up full.
pub fill_block :
    (m : Malloc) (out : Bytes)
    → (x : ℕ) × (put_all out (record { pos = 0; dest = some (m.block (length out + 1)) })
        ≡ some (record { pos = length out; dest = some (out ++ x ∷ []) }))
fill_block m out =
    let b = m.block (length out + 1) in
    let (junk, x, e, l) = last_split (length out) b (m.length-block (length out + 1)) in
    (x, put_all-fill out junk [] x 0 b refl e l ∙ ground arith)

-- A loop that writes the bytes `out` fills a buffer of just their size, terminator included.
pub two_pass-put_all :
    (m : Malloc) (pass : Out → Option Out) (out : Bytes)
    → ((o : Out) → pass o ≡ put_all out o)
    → two_pass m pass ≡ some (out ++ 0 ∷ [])
unfolding two_pass
two_pass-put_all m pass out h =
    let (x, filled) = fill_block m out in
    let sized : pass (record { pos = 0; dest = none })
        ≡ some (record { pos = length out; dest = none }) =
      h _ ∙ put_all-count out 0 ∙ ground arith in
    rw (sized, h (record { pos = 0; dest = some (m.block (length out + 1)) }) ∙ filled)
      (store-append out x [] 0)
