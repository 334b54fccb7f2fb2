-- ===== src/Allocator/Blocks.antt =====
-- The operations of Malloclab/mm.c on blocks. `Pages` is what they take from memlib.c.
use cs4400_fall.Prelude.{
  ℕ, zero, suc, ◌+◌, ◌-◌, ◌*◌, ◌/◌, ◌%◌, ◌^◌, Bool, true, false, ◌&&◌, not, ltb, ◌==◌,
  if◌then◌else◌,
}
use cs4400_fall.Allocator.Memory.{Ptr, null, Cmd, pure, ◌>>=◌, ◌>>◌, fault}
use cs4400_fall.Allocator.Tags.{
  overhead, node_size, pre_occupied, align, max_size, to_int, to_size, ge_int, pack, put, get_size,
  get_alloc, header, next_block, prev_block, footer, next_node,
}
use cs4400_fall.Allocator.FreeList.{
  get_free_list, set_free_list, add_to_free_list, remove_from_free_list,
}

-- The calls of memlib.c; `none` is its abort.
pub record Pages : Type 0 where
  pub mem_pagesize : ℕ
  pub mem_map : ℕ → Cmd Ptr
  pub mem_unmap : Ptr → ℕ → Cmd (Unit {0})

-- `a && b`, where `b` is read only if `a` holds.
abbrev pub and_also : Cmd Bool → Cmd Bool → Cmd Bool
and_also a b = do x ← a; if x then b else pure false

-- The test that a tag has a size of `s`.
abbrev pub size_is : Ptr → ℕ → Cmd Bool
size_is p s = do t ← get_size p; pure (t == s)

unfoldable pub page_set_up : Ptr → ℕ → Cmd Ptr
page_set_up bp new_page_size = do
  let this_size = to_int (to_size (to_int new_page_size) + (2 ^ 64 - pre_occupied))
  put (bp + 4) (pack 8 true)
  put (bp + 8) (pack 8 true)
  put (bp + 12) (pack this_size false)
  f ← footer (bp + 16)
  put f (pack this_size false)
  f' ← footer (bp + 16)
  put (f' + 4) (pack 0 true)
  pure (bp + 16)

unfoldable pub mm_init : Cmd ℕ
mm_init = do set_free_list null; pure 0

-- The branch that splits the block.
unfoldable pub split_block : Ptr → ℕ → ℕ → Cmd (Unit {0})
split_block bp size extra_size = do
  put (header bp) (pack size true)
  f ← footer bp
  put f (pack size true)
  remove_from_free_list bp
  next ← next_block bp
  put (header next) (pack extra_size false)
  f' ← footer next
  put f' (pack extra_size false)
  add_to_free_list next

-- The branch that takes it whole.
unfoldable pub take_block : Ptr → ℕ → Cmd (Unit {0})
take_block bp full_size = do
  put (header bp) (pack full_size true)
  f ← footer bp
  put f (pack full_size true)
  remove_from_free_list bp

unfoldable pub set_allocated : Ptr → ℕ → Cmd (Unit {0})
set_allocated bp size = do
  full ← get_size (header bp)
  let full_size = to_size full
  let extra_size = (full_size + 2 ^ 64 - size) % 2 ^ 64
  if ltb (align (1 + overhead)) extra_size
      then split_block bp size extra_size
      else take_block bp full_size

-- The loop of `mm_malloc` over the free list, with the rounds that are left: the first free block
-- that is large enough, or NULL. Running out of rounds counts as a fault.
unfoldable pub find_fit : ℕ → ℕ → Ptr → Cmd Ptr
find_fit zero new_size bp = if bp == null then pure null else fault
find_fit (suc rounds) new_size bp =
    let rest = (do next ← next_node bp; find_fit rounds new_size next) in
    if bp == null then pure null else do
      alloc ← get_alloc (header bp)
      size ← get_size (header bp)
      if not alloc && ge_int size new_size then pure bp else rest

-- How many bytes a request takes: at least those of a list node, with the two tags, aligned.
unfoldable pub request_size : ℕ → ℕ
request_size size = to_int (align (to_size (to_int (max_size size node_size)) + overhead))

module _ (pages : Pages) where
  open pages use {mem_pagesize, mem_map, mem_unmap}

  -- Rounds up to a multiple of the page size, a power of two.
  unfoldable pub page_align : ℕ → ℕ
  page_align size = (size + (mem_pagesize - 1)) % 2 ^ 64 / mem_pagesize * mem_pagesize

  unfoldable pub extend : ℕ → Cmd Ptr
  extend size = do
    let fit_size = max_size mem_pagesize size
    let needed_size = page_align (fit_size * 16 % 2 ^ 64)
    bp ← mem_map needed_size
    put bp (pack 0 false)
    bp' ← page_set_up bp needed_size
    add_to_free_list bp'
    pure bp'

  unfoldable pub mm_malloc : ℕ → ℕ → Cmd Ptr
  mm_malloc rounds size = if size == 0 then pure null else do
    let new_size = request_size size
    list ← get_free_list
    found ← find_fit rounds new_size list
    if not (found == null)
        then (do set_allocated found (to_size new_size); pure found)
        else (do bp ← extend (to_size new_size); set_allocated bp (to_size new_size); pure bp)

-- The four cases of `coalesce`.
unfoldable pub coalesce_none : Ptr → Cmd Ptr
coalesce_none bp = do add_to_free_list bp; pure bp

unfoldable pub coalesce_next : Ptr → ℕ → Cmd Ptr
coalesce_next bp size = do
  n ← next_block bp
  remove_from_free_list n
  n' ← next_block bp
  s ← get_size (header n')
  let merged = (size + to_size s) % 2 ^ 64
  put (header bp) (pack merged false)
  f ← footer bp
  put f (pack merged false)
  add_to_free_list bp
  pure bp

unfoldable pub coalesce_prev : Ptr → ℕ → Cmd Ptr
coalesce_prev bp size = do
  p ← prev_block bp
  s ← get_size (header p)
  let merged = (size + to_size s) % 2 ^ 64
  p' ← prev_block bp
  put (header p') (pack merged false)
  f ← footer bp
  put f (pack merged false)
  prev_block bp

unfoldable pub coalesce_both : Ptr → ℕ → Cmd Ptr
coalesce_both bp size = do
  n ← next_block bp
  remove_from_free_list n
  p ← prev_block bp
  before ← get_size (header p)
  n' ← next_block bp
  behind ← get_size (header n')
  let merged = (size + (to_size before + to_size behind)) % 2 ^ 64
  p' ← prev_block bp
  put (header p') (pack merged false)
  n'' ← next_block bp
  f ← footer n''
  put f (pack merged false)
  prev_block bp

-- Whether the block before is in use, and the block behind: the prologue and the terminator of
-- the page count as in use.
unfoldable pub prev_allocated : Ptr → Cmd Bool
prev_allocated bp = do
  prologue ← and_also (get_alloc (header bp - 4)) (size_is (header bp - 4) overhead)
  if prologue then pure true else (do p ← prev_block bp; get_alloc (header p))

unfoldable pub next_allocated : Ptr → Ptr → Cmd Bool
next_allocated bp terminator = do
  last ← and_also (get_alloc terminator) (size_is terminator 0)
  if last then pure true else (do n ← next_block bp; get_alloc (header n))

unfoldable pub coalesce : Ptr → Cmd Ptr
coalesce bp = do
  s ← get_size (header bp)
  let size = to_size s
  f ← footer bp
  prev_alloc ← prev_allocated bp
  next_alloc ← next_allocated bp (f + 4)
  if prev_alloc
      then (if next_alloc then coalesce_none bp else coalesce_next bp size)
      else (if next_alloc then coalesce_prev bp size else coalesce_both bp size)

-- The test of `mm_free` that the block fills its page.
unfoldable pub fills_page : Ptr → Ptr → Cmd Bool
fills_page bp terminator = and_also (size_is (header bp - 4) overhead) (
    and_also (get_alloc (header bp - 4)) (
      and_also (size_is (header bp - overhead) overhead) (
        and_also (get_alloc (header bp - overhead))
          (and_also (get_alloc terminator) (size_is terminator 0)))))

module _ (pages : Pages) where
  open pages use {mem_unmap}

  -- Giving an empty page back.
  unfoldable pub release_page : Ptr → Cmd (Unit {0})
  release_page bp = do
    remove_from_free_list bp
    s ← get_size (header bp)
    mem_unmap (header bp - 4 - overhead) ((to_size s + pre_occupied) % 2 ^ 64)

  unfoldable pub mm_free : Ptr → Cmd (Unit {0})
  mm_free bp = do
    this_alloc ← get_alloc (header bp)
    if not this_alloc then pure tt else do
      s ← get_size (header bp)
      put (header bp) (pack (to_size s) false)
      f ← footer bp
      put f (pack (to_size s) false)
      bp' ← coalesce bp
      f' ← footer bp'
      whole ← fills_page bp' (f' + 4)
      if whole then release_page bp' else pure tt
