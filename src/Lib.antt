-- ===== src/Lib.antt =====
-- The labs of a course on computer systems, CS 4400: programs in C that share no code.
--
-- Prelude holds what all parts use: tests on numbers, lists over the native numbers, and the
-- laws of Option. CString holds C strings as lists of bytes, with what the sources use of
-- string.h, strings.h and ctype.h; its children prove what the comparisons and strchr mean.
--
-- Server is the chat server, Serverlab/tinychat.c, with its library dictionary.c and more_string.c.
--   Dictionary has the growing arrays of the dictionary: make_dictionary, dictionary_set,
--   dictionary_get and the accessors, free_dictionary. Its arrays have just the slots that were
--   allocated, and an access outside is a fault, a none. A list of entries is the abstract view
--   (Spec); Represents, Update, Slots and Ownership relate the two.
--   Output has the blocks that the string routines fill. malloc is the parameter Malloc: a block
--   of the size asked for, with any contents. A write behind the end is a fault. The routines
--   that run twice over their input, first to size the block and then to fill it, are one loop
--   that is given no block and then the block, as in the source.
--   Query has query_decode and query_encode, Entity entity_encode, Lines the parsers of request,
--   status and header lines, append_strings and starts_with, Fields parse_query and
--   parse_uriquery. The outer loop of parse_query takes fuel: the length of the string is enough,
--   since each round passes a byte.
--   Chat is Serverlab/tinychat.c. A thread is the sequence of its effects: each call of a
--   dictionary function between P and V, and each write to a connection. Input reads the headers
--   and the body of a request, in a round for each line, Handlers has doit and its
--   branches; what a connection brings, and the other server of /import, are parameters.
--   Messages is about one message, Says about messages one behind the other, Extends about what a
--   request puts into the dictionary, Threads about any interleaving, Race about two messages at
--   once, Headers about the end of the header loop. The log is left out, and so is the freeing of
--   what a request has allocated; a value is copied when it is read, so that a use of it after
--   another thread has freed it is not seen.
--
-- Allocator is Malloclab/mm.c: 16-aligned blocks with a tag at each end, in pages that begin with
-- a prologue, and one doubly linked list of the free ones.
--   Memory is a map from addresses to cells, a tag or a link each; an access to a place that is
--   not mapped is a fault. Tags has the macros, with the 32-bit int of the tags and the 64-bit
--   size_t of the arguments written out. FreeList has add_to_free_list and remove_from_free_list,
--   Blocks page_set_up, set_allocated, coalesce, extend, mm_init, mm_malloc and mm_free. The loop
--   of mm_malloc takes rounds: one for each free block is enough.
--   Invariant says when a heap is in order: blocks that carry their size and use in both tags, do
--   not overlap, and of which the free ones are just the free list. Chain says what the list is
--   in memory. Add, Remove and Unlink are about the list, Writes, Claim, Take, Split and Allocate
--   about handing a block out, Find about the search, Page, Extend and Grow about new pages,
--   Neighbours, Free and Freed about giving a block back that is not merged with another.
--   What mm.c takes from memlib.c is the record Pages; IsFreshPage is what it relies on when a call
--   of mem_map returns. Sizes are bounded by 64 MB where a page may have to be mapped, so that the
--   16-fold page fits an int.
--
-- Pages is Malloclab/pagemap.c and memlib.c: the table of three levels, whose tables are allocated on the way to
-- an entry, and the list of the mapped pages through the entries. Table and Entries show that it
-- is a map from pages to entries, Links what the list is, Mapping what pagemap_modify does to it.
-- The callback of pagemap_for_each is taken not to change the map. Mapper has mem_map, mem_unmap
-- and mem_reset; mmap and munmap are its parameters.
--
-- Matchlab is Matchlab/matchlab.c, so far is_a_model and a_model_conversion. An index into the
-- string is the part that begins there, and a read of the index before it is set is a none.
--
-- Images is Performancelab/kernels.c. Loops has the loop nests over a state, Places the places of
-- the pixels. Pinwheel and Turned are about the two pinwheel kernels, Sums and Combo about the
-- weighted sum of nine neighbours, Motion about the two motion kernels.
--
-- Script is Shelllab/parse.c with the syntax tree of ast.h: the parser and print_script of the
-- shell's scripts. A position in a line is the part of the line from there on, a pointer to a
-- variable an index of the table, and a call of fail an error value with what it prints. The
-- loops take rounds, one more than the bytes that are left, since each round passes a byte.
--   Tokens, Parser and Printer are the code. Printed, Commands, Numbers, Signs, Groups and File
--   follow the printed text through the parser, Shrinks and Rounds count the bytes, Refusals is about
--   errors. The repeats are the 32 bits of an int; an overflow is taken to wrap around.
--
-- Shell is Shelllab/whoosh.c on the syntax trees of Script. A process is a tree: each request to
-- the system with what follows for each answer, and each fork with the child's tree. Shell has
-- the variables and run_command, Groups the groups, pipelines and scripts, Outcome what the shell
-- does for given answers, Race the groups joined by ||.
--
-- Not modelled: the b and c patterns of matchlab.c, the shell's signal handler and masks, and the
-- link inspector; the main programs, the drivers, timers and csapp.c, which are benchmarks and a
-- textbook's library; the bomb, whose phases are a binary.
pub mod Allocator
pub mod CString
pub mod Images
pub mod Matchlab
pub mod Pages
pub mod Prelude
pub mod Script
pub mod Server
pub mod Shell
pub mod Tests
