-- ===== src/Search.antt =====
-- cpp/search/binarySearch.cpp: the three binary searches. Defs has the functions, Window the part of
-- the vector that is left to search, and Laws the theorems.
pub mod Defs
mod Window
pub mod Laws
mod Tests
