-- ===== src/TimeCache.antt =====
-- cpp/cpp_language/old/gettimeofday/cas_time_cache.cpp, class CTimeThread (atomic_time_cache.cpp is
-- the same text): Defs has the conversions and the methods, System the threads, Convert and Reads
-- the proofs.
pub mod Defs
pub mod Convert
pub mod System
pub mod Reads
mod Tests
