-- ===== src/Bst.antt =====
-- cpp/tree/bst.cpp: `class BinarySearchTree`, a search tree whose traversals keep their own stack.
mod Tests
pub mod Defs
pub mod Walk
pub mod Laws
pub mod Delete
pub mod Queries
