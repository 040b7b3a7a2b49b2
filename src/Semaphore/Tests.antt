-- ===== src/Semaphore/Tests.antt =====
-- cpp/cpp_language/my_semaphore_impl.cpp: a run of two threads.
use language_test.Prelude.{◌≡◌, refl}
use language_test.Semaphore.Defs.{new, wait, rewait, signal}

-- A thread blocks, and the signal lets it go on.
waited : (rewait (signal (wait (new 0)))).passed ≡ 1
unfolding wait rewait signal
waited = refl
