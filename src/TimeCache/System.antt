-- ===== src/TimeCache/System.antt =====
-- cpp/cpp_language/old/gettimeofday/cas_time_cache.cpp: the thread that runs CTimeThread::run, one
-- system call or store at a time, beside the clocks and the readers.
use language_test.Prelude.{ℕ, ◌≤◌, ◌≡◌, ◌⊎◌, inl, inr, refl, Bool-cases, ltb, arith, List, [], ◌∷◌}
use language_test.TimeCache.Defs.{
  Timespec, timespec_to_uint64, Cache, zeros, store_monotonic, save_previous, store_realtime,
}
use language_test.TimeCache.Convert.{IsTimespec}

-- Where the thread stands in `do_update_time`, and its local variables there.
pub data Updater : Type 0 where
  idle : Updater
  has_monotonic : Timespec → Updater
  has_both : Timespec → Timespec → Updater
  stored : Timespec → Updater
  saved : Timespec → Updater

-- `now` is CLOCK_MONOTONIC, `seen` the times that CLOCK_REALTIME gave.
pub record System : Type 0 where
  pub cache : Cache
  pub updater : Updater
  pub now : Timespec
  pub seen : List Timespec

abbrev pub start : Timespec → System
start now = record { cache = zeros; updater = idle; now = now; seen = [] }

-- CLOCK_MONOTONIC does not go back; CLOCK_REALTIME gives any time.
pub data Step (s : System) : System → Type 0 where
  tick :
      (tp : Timespec)
      → IsTimespec tp
      → timespec_to_uint64 s.now ≤ timespec_to_uint64 tp
      → Step s (record s { now = tp })
  get_monotonic : s.updater ≡ idle → Step s (record s { updater = has_monotonic s.now })
  get_realtime :
      (m r : Timespec)
      → s.updater ≡ has_monotonic m
      → IsTimespec r
      → Step s (record s { updater = has_both m r; seen = r ∷ s.seen })
  store_first :
      (m r : Timespec)
      → s.updater ≡ has_both m r
      → Step s (record s { cache = store_monotonic m s.cache; updater = stored r })
  save :
      (r : Timespec)
      → s.updater ≡ stored r
      → Step s (record s { cache = save_previous s.cache; updater = saved r })
  store_second :
      (r : Timespec)
      → s.updater ≡ saved r
      → Step s (record s { cache = store_realtime r s.cache; updater = idle })

pub data Run (s : System) : System → Type 0 where
  here : Run s s
  next : {t u : System} → Run s t → Step t u → Run s u

abbrev pub Seen : Timespec → List Timespec → Type 0
Seen tp [] = ⊥
Seen tp (x ∷ xs) = (x ≡ tp) ⊎ Seen tp xs

-- What the local variables of the thread hold.
abbrev pub InFlight : Updater → ℕ → Timespec → List Timespec → Type 0
InFlight idle old now seen = Unit
InFlight (has_monotonic m) old now seen =
    (old ≤ timespec_to_uint64 m) × (timespec_to_uint64 m ≤ timespec_to_uint64 now)
InFlight (has_both m r) old now seen =
    (old ≤ timespec_to_uint64 m)
    × (timespec_to_uint64 m ≤ timespec_to_uint64 now)
    × IsTimespec r
    × Seen r seen
InFlight (stored r) old now seen = IsTimespec r × Seen r seen
InFlight (saved r) old now seen = IsTimespec r × Seen r seen

-- A number that is 0 or came from a time that was seen.
abbrev pub Source : ℕ → List Timespec → Type 0
Source t seen =
    (t ≡ 0) ⊎ ((tp : Timespec) × IsTimespec tp × Seen tp seen × (t ≡ timespec_to_uint64 tp))

pub record IsValid (s : System) : Type 0 where
  pub valid_now : IsTimespec s.now
  pub behind : s.cache.time_monotonic ≤ timespec_to_uint64 s.now
  pub flight : InFlight s.updater s.cache.time_monotonic s.now s.seen
  pub source : Source s.cache.time_realtime s.seen

pub start-IsValid : (now : Timespec) → IsTimespec now → IsValid (start now)
start-IsValid now v = record { valid_now = v; behind = omega arith; flight = tt; source = inl refl }

Source-cons : (t : ℕ) (r : Timespec) (seen : List Timespec) → Source t seen → Source t (r ∷ seen)
Source-cons t r seen (inl e) = inl e
Source-cons t r seen (inr (tp, v, m, e)) = inr (tp, v, inr m, e)

InFlight-tick :
    (u : Updater) (old : ℕ) (now tp : Timespec) (seen : List Timespec)
    → timespec_to_uint64 now ≤ timespec_to_uint64 tp
    → InFlight u old now seen
    → InFlight u old tp seen
InFlight-tick idle old now tp seen h f = f
InFlight-tick (has_monotonic m) old now tp seen h f = (f.0, omega arith)
InFlight-tick (has_both m r) old now tp seen h f = (f.0, omega arith, f.2, f.3)
InFlight-tick (stored r) old now tp seen h f = f
InFlight-tick (saved r) old now tp seen h f = f

-- Where the thread stands at `u`, its variables are those of `u`.
at_updater :
    (s : System) (u : Updater)
    → s.updater ≡ u
    → IsValid s
    → InFlight u s.cache.time_monotonic s.now s.seen
at_updater s u e v = rw e at v.flight

-- A step keeps the invariant, and the cached monotonic time does not go back.
Step-IsValid :
    {s t : System}
    → Step s t
    → IsValid s
    → IsValid t × (s.cache.time_monotonic ≤ t.cache.time_monotonic)
unfolding store_monotonic save_previous store_realtime
Step-IsValid {s} (tick tp v h) i = (
  record {
    valid_now = v;
    behind = omega (arith, i.behind);
    flight = InFlight-tick s.updater s.cache.time_monotonic s.now tp s.seen h i.flight;
    source = i.source;
  },
  omega arith,
)
Step-IsValid {s} (get_monotonic e) i = (
  record {
    valid_now = i.valid_now;
    behind = i.behind;
    flight = (i.behind, omega arith);
    source = i.source;
  },
  omega arith,
)
Step-IsValid {s} (get_realtime m r e v) i =
    let f = at_updater s (has_monotonic m) e i in
    (
      record {
        valid_now = i.valid_now;
        behind = i.behind;
        flight = (f.0, f.1, v, inl refl);
        source = Source-cons s.cache.time_realtime r s.seen i.source;
      },
      omega arith,
    )
Step-IsValid {s} (store_first m r e) i =
    let f = at_updater s (has_both m r) e i in
    (record { valid_now = i.valid_now; behind = f.1; flight = (f.2, f.3); source = i.source }, f.0)
Step-IsValid {s} (save r e) i =
    let f = at_updater s (stored r) e i in
    elim (Bool-cases (ltb 0 s.cache.time_realtime)) [
      | inl b ↦
          rw (b, save_previous)
            (
              record { valid_now = i.valid_now; behind = i.behind; flight = f; source = i.source },
              omega arith,
            )
      | inr b ↦
          rw (b, save_previous)
            (
              record { valid_now = i.valid_now; behind = i.behind; flight = f; source = i.source },
              omega arith,
            )
    ]
Step-IsValid {s} (store_second r e) i =
    let f = at_updater s (saved r) e i in
    (
      record {
        valid_now = i.valid_now;
        behind = i.behind;
        flight = tt;
        source = inr (r, f.0, f.1, refl);
      },
      omega arith,
    )

pub Run-IsValid :
    {s t : System}
    → Run s t
    → IsValid s
    → IsValid t × (s.cache.time_monotonic ≤ t.cache.time_monotonic)
Run-IsValid here i = (i, omega arith)
Run-IsValid (next run step) i =
    let a = Run-IsValid run i in let b = Step-IsValid step a.0 in (b.0, omega (arith, a.1, b.1))
