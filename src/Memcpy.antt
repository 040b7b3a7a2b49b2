-- ===== src/Memcpy.antt =====
-- cpp/string/memcpy.cpp: Defs has the two functions, and Laws what they copy.
pub mod Defs
pub mod Laws
mod Tests
