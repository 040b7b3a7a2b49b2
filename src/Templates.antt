-- ===== src/Templates.antt =====
-- cpp/race/race_template.cpp, the numeric templates and the union-find class: Defs has the functions,
-- and the other children are named for what they prove.
pub mod Defs
pub mod Gcd
pub mod Power
pub mod Primes
pub mod Unions
mod Tests
