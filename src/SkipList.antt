-- ===== src/SkipList.antt =====
-- The skip list of skiplist/skiplist.h.
pub mod Memory
pub mod Ops
pub mod Nodes
pub mod Cells
pub mod Walk
pub mod Advance
pub mod Descend
pub mod Sorted
pub mod Inv
pub mod Lookup
pub mod Relink
pub mod Link
pub mod Random
pub mod Spots
pub mod Insert
pub mod Delete
pub mod Lifetime
pub mod Dict
pub mod Files
pub mod Contents
