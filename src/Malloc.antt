-- ===== src/Malloc.antt =====
-- The memory allocator of malloc/mm.c over the heap of malloc/memlib.c, without `DEBUG`, which
-- leaves the contract macros out, and in the dense mode of the heap.
pub mod Memory
pub mod Header
pub mod Size
pub mod Block
pub mod Links
pub mod Allocate
pub mod Checker
pub mod Tests
