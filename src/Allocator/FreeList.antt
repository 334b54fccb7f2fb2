-- ===== src/Allocator/FreeList.antt =====
-- The free list of Malloclab/mm.c: `add_to_free_list` and `remove_from_free_list`.
pub mod Chain
pub mod Add
pub mod Remove
pub mod Unlink
use cs4400_fall.Prelude.{ℕ, ◌+◌, Bool, true, false, Option, none, some, ◌==◌, not, if◌then◌else◌}
use cs4400_fall.Allocator.Memory.{Ptr, null, Heap, Cmd, pure, ◌>>=◌, ◌>>◌, load, store}
use cs4400_fall.Allocator.Tags.{prev_node, next_node, set_prev_node, set_next_node}

-- Reads and writes of the global variable.
abbrev pub get_free_list : Cmd Ptr
get_free_list h = some (h.free_list_ptr, h)

abbrev pub set_free_list : Ptr → Cmd (Unit {0})
set_free_list p h = some (tt, record h { free_list_ptr = p })

unfoldable pub add_to_free_list : Ptr → Cmd (Unit {0})
add_to_free_list bp = do
  list ← get_free_list
  if list == null then (do set_free_list bp; set_prev_node bp null; set_next_node bp null) else (do
    set_next_node bp list
    set_prev_node bp null
    set_prev_node list bp
    set_free_list bp)

-- The branch for the block that the list begins with.
unfoldable pub move_head : Ptr → Cmd (Unit {0})
move_head bp = do
  p ← prev_node bp
  if not (p == null)
      then set_free_list p
      else do n ← next_node bp; if not (n == null) then set_free_list n else set_free_list null

unfoldable pub unlink_next : Ptr → Cmd (Unit {0})
unlink_next bp = do
  n ← next_node bp
  if not (n == null) then (do p ← prev_node bp; set_prev_node n p) else pure tt

unfoldable pub unlink_prev : Ptr → Cmd (Unit {0})
unlink_prev bp = do
  p ← prev_node bp
  if not (p == null) then (do n ← next_node bp; set_next_node p n) else pure tt

unfoldable pub remove_from_free_list : Ptr → Cmd (Unit {0})
remove_from_free_list bp = do
  list ← get_free_list
  if bp == list then move_head bp else pure tt
  unlink_next bp
  unlink_prev bp
