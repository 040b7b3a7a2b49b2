-- ===== src/BitMap.antt =====
-- cpp/algorithm/bitMap.cpp, class BitMap: Defs has its methods, Bytes the laws of a byte, Store
-- writes of a byte of a map, and Laws the theorems.
pub mod Defs
mod Bytes
mod Store
pub mod Laws
mod Tests
