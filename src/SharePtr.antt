-- ===== src/SharePtr.antt =====
-- base/weak_ptr_impl.cpp under cpp: SharePtr and WeakPtr. Defs has the methods, Counters the
-- proofs about one object, Counts and Variables those about the pointers to it, Programs about runs.
mod Defs
mod Counts
mod Counters
mod Variables
pub mod Programs
mod Tests
