-- ===== src/Lru.antt =====
-- cpp/linux/LRU_template.cpp, class LRUCache: Defs has its state and methods, Laws the refinement.
pub mod Defs
pub mod Recency
pub mod Cells
pub mod Laws
mod Tests
