-- ===== src/LockedClock.antt =====
-- cpp/cpp_language/old/gettimeofday/rwlock_time_cache.cpp, class CTimeThread: Defs has its methods,
-- each cell under its lock being one value, and Cell shows why that may be: a reader under the
-- lock copies a pair that was written whole.
pub mod Defs
pub mod Cell
mod Tests
