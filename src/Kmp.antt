-- ===== src/Kmp.antt =====
-- string/kmp.cpp under cpp: getNext and kmp. Defs has the functions, Borders what they search for,
-- Table is about getNext and Laws about kmp.
mod Defs
mod Borders
mod Table
pub mod Laws
mod Tests
