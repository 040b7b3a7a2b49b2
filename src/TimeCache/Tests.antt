-- ===== src/TimeCache/Tests.antt =====
-- cpp/cpp_language/old/gettimeofday/cas_time_cache.cpp: an update, and the theorems at it.
use language_test.Prelude.{◌≡◌, refl, arith, [], ◌∷◌, none}
use language_test.TimeCache.Defs.{
  Timespec, zeros, monotonic, realtime, failed, undefined, gives, timespec_to_uint64,
  uint64_to_time_t, cached_clock_gettime, cached_time, do_update_time, store_monotonic,
  save_previous, store_realtime,
}
use language_test.TimeCache.Convert.{IsTimespec}
use language_test.TimeCache.System.{
  System, start, Run, here, next, idle, get_monotonic, get_realtime, store_first, save,
  store_second, Seen,
}
use language_test.TimeCache.Reads.{read_realtime}

abbrev half_past : Timespec
half_past = record { tv_sec = 3; tv_nsec = 500000000 }

abbrev half_past-IsTimespec : IsTimespec half_past
half_past-IsTimespec = record { nsec = omega arith; fits = omega arith }

-- One update of the thread, step by step.
abbrev stored_once : System
stored_once = record {
  cache = record { time_monotonic = 3500000000; time_realtime = 3500000000; pre_time_realtime = 0 };
  updater = idle;
  now = half_past;
  seen = half_past ∷ [];
}

one_update : Run (start half_past) stored_once
unfolding store_monotonic save_previous store_realtime timespec_to_uint64
one_update =
    next
      (next
        (next
          (next (next here (get_monotonic refl))
            (get_realtime half_past half_past refl half_past-IsTimespec))
          (store_first half_past half_past refl))
        (save half_past refl))
      (store_second half_past refl)

read_realtime_example :
    (a : Timespec) × (cached_clock_gettime (λ id. failed) realtime stored_once.cache none ≡ gives a)
    × Seen a stored_once.seen
read_realtime_example =
    read_realtime (λ id. failed) half_past stored_once none half_past-IsTimespec one_update
      (omega arith)

-- The read of the other clock in a data race.
racing : cached_clock_gettime (λ id. failed) monotonic stored_once.cache none ≡ undefined
unfolding cached_clock_gettime
racing = refl

updated : cached_time (do_update_time half_past half_past zeros) ≡ 3
unfolding cached_time do_update_time store_monotonic save_previous store_realtime timespec_to_uint64
    uint64_to_time_t
updated = refl
