-- ===== src/MemPool.antt =====
-- cpp/memory/MemPool2.cpp, class MemPool: Defs has its state and methods, Laws who owns the nodes,
-- and Runs sequences of calls.
pub mod Defs
pub mod Laws
pub mod Runs
mod Tests
