-- ===== src/Philosophers.antt =====
-- cpp/thread/eat_think.cpp: Defs has the philosophers and their steps, and Laws the theorems.
pub mod Defs
pub mod Laws
mod Tests
