-- ===== src/LockedClock/Defs.antt =====
-- cpp/cpp_language/old/gettimeofday/rwlock_time_cache.cpp, class CTimeThread. A pointer argument is
-- not null where the code asserts it.
use language_test.Prelude.{ℕ, ◌+◌, ◌%◌, ◌^◌, Bool, false, Option, none, some, ◌==◌, if◌then◌else◌}
use language_test.TimeCache.Defs.{Timespec, Timeval, ClockId, monotonic, realtime, other}

pub record Clock : Type 0 where
  pub tv : Timeval
  pub tp_monotonic : Timespec
  pub tp_realtime : Timespec
  pub update_time_cnt : ℕ

-- `do_update_time` with what the three system calls give.
unfoldable pub do_update_time : Timeval → Timespec → Timespec → Clock → Clock
do_update_time tv real mono c = record c { tv = tv; tp_realtime = real; tp_monotonic = mono }

-- A turn of the loop of `run`, and whether it sleeps. `_sleep_interval` is 10.
unfoldable pub run : Timeval → Timespec → Timespec → Clock → Bool × Clock
run tv real mono c =
    let d = do_update_time tv real mono c in
    (d.update_time_cnt % 10 == 0, record d { update_time_cnt = (d.update_time_cnt + 1) % 2 ^ 64 })

-- `cached_time`: the result, and what it writes through its argument if that is no null pointer.
unfoldable pub cached_time : Bool → Clock → ℕ × Option ℕ
cached_time has_timer c = (c.tv.tv_sec, if has_timer then some c.tv.tv_sec else none)

unfoldable pub cached_gettimeofday : Clock → Timeval
cached_gettimeofday c = c.tv

unfoldable pub cached_clock_gettime : (ℕ → Option Timespec) → ClockId → Clock → Option Timespec
cached_clock_gettime system realtime c = some c.tp_realtime
cached_clock_gettime system monotonic c = some c.tp_monotonic
cached_clock_gettime system (other id) c = system id

-- The functions with the names of the system's, which a flag turns to the clock.
unfoldable pub global_time : Bool → ℕ → Clock → ℕ
global_time use_cache system c = (if use_cache then (cached_time false c).0 else system) % 2 ^ 32

unfoldable pub global_gettimeofday : Bool → Option Timeval → Clock → Option Timeval
global_gettimeofday use_cache system c = if use_cache then some (cached_gettimeofday c) else system

unfoldable pub global_clock_gettime :
    Bool → (ℕ → Option Timespec) → ClockId → Option Timespec → Clock → Option Timespec
global_clock_gettime use_cache system id direct c =
    if use_cache then cached_clock_gettime system id c else direct
