-- ===== src/TimeCache/Convert.antt =====
-- cpp/cpp_language/old/gettimeofday/cas_time_cache.cpp: the conversions, there and back.
use language_test.Prelude.{ℕ, ◌+◌, ◌-◌, ◌*◌, ◌%◌, ◌^◌, ◌<◌, ◌≡◌, arith}
use language_test.TimeCache.Defs.{
  Timespec, timespec_to_uint64, timeval_to_uint64, uint64_to_timespec, uint64_to_timeval,
  uint64_to_time_t,
}

-- A time as the system gives it, before the year 2554.
pub record IsTimespec (tp : Timespec) : Type 0 where
  pub nsec : tp.tv_nsec < 1000000000
  pub fits : tp.tv_sec * 1000000000 + tp.tv_nsec < 2 ^ 64

-- A time that fits 64 bits in nanoseconds survives the way to a number and back.
pub uint64_to_timespec-timespec_to_uint64 :
    (tp : Timespec) → IsTimespec tp → uint64_to_timespec (timespec_to_uint64 tp) ≡ tp
unfolding uint64_to_timespec timespec_to_uint64
uint64_to_timespec-timespec_to_uint64 tp v = ground arith

-- A 64-bit number of nanoseconds survives the way to a timespec and back; the way to a timeval
-- takes off what is below a microsecond, and the way to a time_t what is below a second.
pub to_uint64-uint64_to :
    (t : ℕ)
    → t < 2 ^ 64
    → (timespec_to_uint64 (uint64_to_timespec t) ≡ t)
      × (timeval_to_uint64 (uint64_to_timeval t) ≡ t - t % 1000)
      × (timeval_to_uint64 (record { tv_sec = uint64_to_time_t t; tv_usec = 0 })
          ≡ t - t % 1000000000)
unfolding uint64_to_timespec timespec_to_uint64 timeval_to_uint64 uint64_to_timeval uint64_to_time_t
to_uint64-uint64_to t h = (omega arith, omega arith, omega arith)

pub timespec_to_uint64_lt : (tp : Timespec) → timespec_to_uint64 tp < 2 ^ 64
unfolding timespec_to_uint64
timespec_to_uint64_lt tp = omega arith
