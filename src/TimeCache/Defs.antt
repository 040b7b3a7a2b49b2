-- ===== src/TimeCache/Defs.antt =====
-- cpp/cpp_language/old/gettimeofday/cas_time_cache.cpp: the conversions between times and uint64_t,
-- and the readers of class CTimeThread. Times are not before 1970.
use language_test.Prelude.{
  ℕ, ◌+◌, ◌*◌, ◌/◌, ◌%◌, ◌^◌, Bool, Option, none, some, ◌==◌, ltb, if◌then◌else◌,
}

pub record Timespec : Type 0 where
  pub tv_sec : ℕ
  pub tv_nsec : ℕ

pub record Timeval : Type 0 where
  pub tv_sec : ℕ
  pub tv_usec : ℕ

unfoldable pub timeval_to_uint64 : Timeval → ℕ
timeval_to_uint64 tv = (tv.tv_sec * 1000000000 + tv.tv_usec * 1000) % 2 ^ 64

unfoldable pub timespec_to_uint64 : Timespec → ℕ
timespec_to_uint64 tp = (tp.tv_sec * 1000000000 + tp.tv_nsec) % 2 ^ 64

unfoldable pub uint64_to_timespec : ℕ → Timespec
uint64_to_timespec t = record { tv_sec = t / 1000000000; tv_nsec = t % 1000000000 }

unfoldable pub uint64_to_timeval : ℕ → Timeval
uint64_to_timeval t = record { tv_sec = t / 1000000000; tv_usec = t % 1000000000 / 1000 }

unfoldable pub uint64_to_time_t : ℕ → ℕ
uint64_to_time_t t = t / 1000000000

pub record Cache : Type 0 where
  pub time_monotonic : ℕ
  pub time_realtime : ℕ
  pub pre_time_realtime : ℕ

abbrev pub zeros : Cache
zeros = record { time_monotonic = 0; time_realtime = 0; pre_time_realtime = 0 }

-- The stores of `do_update_time`, one by one.
unfoldable pub store_monotonic : Timespec → Cache → Cache
store_monotonic tp c = record c { time_monotonic = timespec_to_uint64 tp }

unfoldable pub save_previous : Cache → Cache
save_previous c =
    if ltb 0 c.time_realtime then record c { pre_time_realtime = c.time_realtime } else c

unfoldable pub store_realtime : Timespec → Cache → Cache
store_realtime tp c = record c { time_realtime = timespec_to_uint64 tp }

-- `do_update_time` with no other thread between its stores.
unfoldable pub do_update_time : Timespec → Timespec → Cache → Cache
do_update_time monotonic realtime c =
    store_realtime realtime (save_previous (store_monotonic monotonic c))

unfoldable pub cached_time : Cache → ℕ
cached_time c = uint64_to_time_t c.time_realtime

-- `none` is the result -1. The argument is not a null pointer.
unfoldable pub cached_gettimeofday : Cache → Option Timeval
cached_gettimeofday c =
    if 0 == c.time_realtime then none else some (uint64_to_timeval c.time_realtime)

pub data ClockId : Type 0 where
  monotonic : ClockId
  realtime : ClockId
  other : ℕ → ClockId

-- The result -1, undefined behaviour, or the result 0 with the time that was written.
pub data ClockResult : Type 0 where
  failed : ClockResult
  undefined : ClockResult
  gives : Timespec → ClockResult

-- The second read of `_time_monotonic` is not atomic: `none` stands for a data race with a store.
abbrev pub plain_read : Option ℕ → ClockResult
plain_read none = undefined
plain_read (some t) = gives (uint64_to_timespec t)

-- `c` is the cache at the atomic load, `plain` the second read of `_time_monotonic`, and `system` what
-- ::clock_gettime does for other clocks. The pointer is not null.
unfoldable pub cached_clock_gettime : (ℕ → ClockResult) → ClockId → Cache → Option ℕ → ClockResult
cached_clock_gettime system monotonic c plain =
    if 0 == c.time_monotonic then failed else plain_read plain
cached_clock_gettime system realtime c plain =
    if 0 == c.time_realtime then failed else gives (uint64_to_timespec c.time_realtime)
cached_clock_gettime system (other id) c plain = system id

-- The functions with the names of the system's, which a flag turns to the cache.
unfoldable pub global_time : Bool → ℕ → Cache → ℕ
global_time use_cache system c = (if use_cache then cached_time c else system) % 2 ^ 32

unfoldable pub global_gettimeofday : Bool → Option Timeval → Cache → Option Timeval
global_gettimeofday use_cache system c = if use_cache then cached_gettimeofday c else system
