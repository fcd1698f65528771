-- ===== src/Mem.antt =====
-- c/mem.c: the memory manager.
pub mod Alloc
pub mod Free
pub mod Carve
pub mod Blocks
pub mod Search
pub mod Relink
pub mod Cutting
pub mod FirstFit
pub mod Allocated
pub mod Start
pub mod Total
pub mod Joined
pub mod Join
pub mod Coalesce
pub mod Reattach
pub mod Insert
pub mod LinkIn
pub mod Ends
pub mod Freed
pub mod Placed
pub mod Forward
pub mod Roundtrip
