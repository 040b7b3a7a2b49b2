-- ===== src/HashTable.antt =====
-- cpp/stl/myHash.cpp, the hash table with linear probing: Defs has its functions, Probe the cells
-- that a search passes, Laws what it finds, Updates
-- insertion and deletion.
pub mod Defs
pub mod Probe
pub mod Laws
pub mod Updates
mod Tests
