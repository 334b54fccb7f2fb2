-- ===== src/Allocator.antt =====
-- Malloclab/mm.c: an allocator with boundary tags and one explicit list of free blocks.
pub mod Memory
pub mod Tags
pub mod FreeList
pub mod Blocks
pub mod Invariant
pub mod Runs
pub mod Refine
pub mod Writes
pub mod Claim
pub mod Take
pub mod Split
pub mod Allocate
pub mod Find
pub mod Malloc
pub mod Page
pub mod Extend
pub mod Grow
pub mod Neighbours
pub mod Free
pub mod Freed
