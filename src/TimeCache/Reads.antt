-- ===== src/TimeCache/Reads.antt =====
-- cpp/cpp_language/old/gettimeofday/cas_time_cache.cpp: what `cached_clock_gettime` gives to a reader of
-- CLOCK_REALTIME while the other thread runs.
use language_test.Prelude.{ℕ, ◌<◌, ◌≡◌, ◌==◌, inl, inr, false, refl, arith, Option}
use language_test.TimeCache.Defs.{Timespec, realtime, ClockResult, gives, cached_clock_gettime}
use language_test.TimeCache.Convert.{IsTimespec, uint64_to_timespec-timespec_to_uint64}
use language_test.TimeCache.System.{System, Run, start, start-IsValid, Run-IsValid, Seen}

-- In any run of the updating thread, from a cache of zeros, a read of CLOCK_REALTIME succeeds once a
-- time after 1970 is stored, and gives one of the times that the system clock gave, seconds and
-- nanoseconds together.
pub read_realtime :
    (system : ℕ → ClockResult) (now : Timespec) (t : System) (plain : Option ℕ)
    → IsTimespec now
    → Run (start now) t
    → 0 < t.cache.time_realtime
    → (a : Timespec) × (cached_clock_gettime system realtime t.cache plain ≡ gives a)
      × Seen a t.seen
unfolding cached_clock_gettime
read_realtime system now t plain v run p =
    let e : (0 == t.cache.time_realtime) ≡ false = ground (arith, p) in
    elim (Run-IsValid run (start-IsValid now v)).0.source [
      | inl z ↦ absurd (omega arith)
      | inr (tp, v', m, z) ↦
          rw (e, cached_clock_gettime, z, uint64_to_timespec-timespec_to_uint64 tp v') (tp, refl, m)
    ]
