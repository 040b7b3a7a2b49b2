-- ===== src/Semaphore/Laws.antt =====
-- cpp/cpp_language/my_semaphore_impl.cpp: no call passes without a count, and no wake-up is lost.
use language_test.Prelude.{ℕ, ◌+◌, ◌-◌, ◌<◌, ◌≤◌, ◌≡◌, ◌⊎◌, inl, arith}
use language_test.Semaphore.Defs.{Semaphore, new, wait, rewait, signal}

pub data Step (s : Semaphore) : Semaphore → Type 0 where
  waits : Step s (wait s)
  rewaits : 0 < s.woken → Step s (rewait s)
  signals : Step s (signal s)
  wakes : 0 < s.waiting → Step s (record s { waiting = s.waiting - 1; woken = s.woken + 1 })

pub data Run (s : Semaphore) : Semaphore → Type 0 where
  here : Run s s
  next : {t u : Semaphore} → Run s t → Step t u → Run s u

record IsValid (initial : ℕ) (s : Semaphore) : Type 0 where
  balance : s.passed + s.count ≡ initial + s.signals
  awake : (s.waiting ≡ 0) ⊎ (s.count ≤ s.woken)

Step-IsValid : (n : ℕ) {s t : Semaphore} → Step s t → IsValid n s → IsValid n t
unfolding wait rewait signal
Step-IsValid n {s} waits i = ground arith
Step-IsValid n {s} (rewaits h) i = ground arith
Step-IsValid n {s} signals i = ground arith
Step-IsValid n {s} (wakes h) i = ground arith

Run-IsValid : (n : ℕ) {s t : Semaphore} → Run s t → IsValid n s → IsValid n t
Run-IsValid n here i = i
Run-IsValid n (next run step) i = Step-IsValid n step (Run-IsValid n run i)

-- In every run the calls of `wait` that went on and the count together are the initial count and
-- the calls of `signal`; and where a thread is blocked, at most as many units are free as there are
-- woken threads on their way to take them.
pub run-balance :
    (initial : ℕ) (s : Semaphore)
    → Run (new initial) s
    → (s.passed + s.count ≡ initial + s.signals) × ((s.waiting ≡ 0) ⊎ (s.count ≤ s.woken))
run-balance initial s run =
    let i = Run-IsValid initial run (record { balance = omega arith; awake = inl (omega arith) }) in
    (i.balance, i.awake)
