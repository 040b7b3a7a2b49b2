-- ===== src/RbTree.antt =====
-- cpp/tree/rbTree.cpp: `class RBTree`.
mod Tests
pub mod Defs
pub mod Zipper
pub mod Insert
pub mod Removal
pub mod FixUp
pub mod Repair
pub mod Remove
pub mod Search
