-- ===== src/Semaphore.antt =====
-- cpp/cpp_language/my_semaphore_impl.cpp, classes semaphore and my_sem: Defs has their sections, Laws
-- what every run keeps.
pub mod Defs
pub mod Laws
mod Tests
