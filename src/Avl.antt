-- ===== src/Avl.antt =====
-- cpp/tree/avl2.cpp: `class AVL`. A node is owned by one parent, so the tree is a value and an
-- operation that changes nodes in place returns the new tree. A null pointer that is followed, and
-- a function that ends without its `return`, give `none`.
mod Tests
pub mod Defs
pub mod Rotate
pub mod Balance
pub mod Insert
pub mod Erase
pub mod Lookup
pub mod Laws
