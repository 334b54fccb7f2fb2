-- ===== src/Allocator/Tags.antt =====
-- The macros of Malloclab/mm.c. An `int` is its 32-bit pattern, a number below 2 ^ 32; pointers
-- and `size_t` are numbers below 2 ^ 64. Where the source subtracts from a pointer, the result
-- is that of an address inside the heap; at addresses near NULL it stops at NULL, where every
-- access faults.
use cs4400_fall.Prelude.{ℕ, ◌+◌, ◌-◌, ◌*◌, ◌/◌, ◌%◌, ◌^◌, Bool, ltb, leb, if◌then◌else◌, ◌==◌}
use cs4400_fall.Allocator.Memory.{Ptr, Cmd, pure, ◌>>=◌, load, store}

-- sizeof(block_header) + sizeof(foot_header), sizeof(list_node) and PRE_OCCUPIED.
abbrev pub overhead : ℕ
overhead = 8

abbrev pub node_size : ℕ
node_size = 16

abbrev pub pre_occupied : ℕ
pre_occupied = 16

-- Rounds up to a multiple of 16, in `size_t`.
unfoldable pub align : ℕ → ℕ
align size = (size + 15) % 2 ^ 64 / 16 * 16

-- MAX over `size_t`.
unfoldable pub max_size : ℕ → ℕ → ℕ
max_size x y = if ltb y x then x else y

-- The conversion of a `size_t` to `int`, and back with the sign extended.
unfoldable pub to_int : ℕ → ℕ
to_int v = v % 2 ^ 32

unfoldable pub to_size : ℕ → ℕ
to_size v = if ltb v (2 ^ 31) then v else v + (2 ^ 64 - 2 ^ 32)

-- `x >= y` between `int`s.
unfoldable pub ge_int : ℕ → ℕ → Bool
ge_int x y = leb ((y + 2 ^ 31) % 2 ^ 32) ((x + 2 ^ 31) % 2 ^ 32)

-- `size | alloc` for an `alloc` of 0 or 1.
unfoldable pub pack : ℕ → Bool → ℕ
pack size alloc = if alloc then size + (1 - size % 2) else size

unfoldable pub put : Ptr → ℕ → Cmd (Unit {0})
unfolding to_int
put p v = store p (to_int v)

-- What GET_SIZE and GET_ALLOC take from a tag.
unfoldable pub size_of : ℕ → ℕ
size_of tag = tag / 8 * 8

unfoldable pub alloc_of : ℕ → Bool
alloc_of tag = tag % 2 == 1

unfoldable pub get_size : Ptr → Cmd ℕ
get_size p = do tag ← load p; pure (size_of tag)

unfoldable pub get_alloc : Ptr → Cmd Bool
get_alloc p = do tag ← load p; pure (alloc_of tag)

-- HDPR
abbrev pub header : Ptr → Ptr
header bp = bp - 4

unfoldable pub next_block : Ptr → Cmd Ptr
next_block bp = do s ← get_size (header bp); pure ((bp + to_size s) % 2 ^ 64)

unfoldable pub prev_block : Ptr → Cmd Ptr
prev_block bp = do s ← get_size (bp - overhead); pure ((bp + 2 ^ 64 - to_size s) % 2 ^ 64)

unfoldable pub footer : Ptr → Cmd Ptr
footer bp = do s ← get_size (header bp); pure ((bp + to_size s) % 2 ^ 64 - overhead)

-- PREV_NODE and NEXT_NODE, read and written.
abbrev pub prev_node : Ptr → Cmd Ptr
prev_node bp = load bp

abbrev pub next_node : Ptr → Cmd Ptr
next_node bp = load (bp + 8)

abbrev pub set_prev_node : Ptr → Ptr → Cmd (Unit {0})
set_prev_node bp p = store bp p

abbrev pub set_next_node : Ptr → Ptr → Cmd (Unit {0})
set_next_node bp p = store (bp + 8) p
