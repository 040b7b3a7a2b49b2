-- ===== src/ThreadPool.antt =====
-- cpp/thread/ThreadPool.cpp, class ThreadPool: Defs has its state and critical sections, System the
-- steps of the threads and the invariant, Progress what follows from it.
pub mod Defs
pub mod System
pub mod Progress
mod Tests
