-- ===== src/LockedClock/Tests.antt =====
-- cpp/cpp_language/old/gettimeofday/rwlock_time_cache.cpp: a run of a reader, and the theorem at it.
use language_test.Prelude.{false, refl, [], ◌∷◌}
use language_test.LockedClock.Cell.{
  Cell, Run, here, next, read_lock, read_first, read_second, read_unlock, done, Written, start,
  read_whole, outside,
}

abbrev copied_pair : Cell
copied_pair = record {
  has_writer = false;
  count = 0;
  word = (5, 7);
  writing = outside;
  reading = done (5, 7);
  others = 0;
  written = (5, 7) ∷ [];
}

abbrev reader_run : Run (start (5, 7)) copied_pair
reader_run =
    next (next (next (next here (read_lock refl refl)) (read_first refl)) (read_second 5 refl))
      (read_unlock (5, 7) refl)

read_whole_example : Written (5, 7) copied_pair.written
read_whole_example = read_whole (5, 7) copied_pair (5, 7) reader_run refl
