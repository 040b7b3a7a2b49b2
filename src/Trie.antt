-- ===== src/Trie.antt =====
-- race/Trie.cpp under cpp: the dictionary of words. Defs has the functions, Words the prefixes of words,
-- Nodes and Laws the proofs.
mod Defs
mod Words
mod Nodes
pub mod Laws
mod Tests
