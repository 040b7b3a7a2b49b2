-- ===== src/BasicString.antt =====
-- cpp/string/my_string.cpp, class basic_string<char>: Defs has its state and operations, Alloc the
-- sizes of the buffers, Buffer what is written to them, Laws the operations.
pub mod Defs
pub mod Alloc
pub mod Buffer
pub mod Laws
pub mod Compare
mod Tests
