-- ===== src/SafeQueue.antt =====
-- cpp/stl/safeQueue.cpp, class Queue: Defs has its state and its critical sections, Laws the runs.
pub mod Defs
pub mod Laws
mod Tests
