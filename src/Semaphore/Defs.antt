-- ===== src/Semaphore/Defs.antt =====
-- cpp/cpp_language/my_semaphore_impl.cpp, class semaphore (my_sem has the same bodies, with do_next for
-- signal). A section under the mutex is one step; threads are counted.
use language_test.Prelude.{ℕ, ◌+◌, ◌-◌, ltb, if◌then◌else◌}

-- `waiting` are blocked in cond.wait, `woken` are to look at the predicate again; `passed` and
-- `signals` count the calls of wait that went on and those of signal.
pub record Semaphore : Type 0 where
  pub count : ℕ
  pub waiting : ℕ
  pub woken : ℕ
  pub passed : ℕ
  pub signals : ℕ

abbrev pub new : ℕ → Semaphore
new count = record { count = count; waiting = 0; woken = 0; passed = 0; signals = 0 }

-- `wait`: the predicate, then the decrement, or the thread blocks.
unfoldable pub wait : Semaphore → Semaphore
wait s =
    if ltb 0 s.count
    then record s { count = s.count - 1; passed = s.passed + 1 }
    else record s { waiting = s.waiting + 1 }

-- A woken thread takes the mutex and looks at the predicate again.
unfoldable pub rewait : Semaphore → Semaphore
rewait s =
    if ltb 0 s.count
    then record s { woken = s.woken - 1; count = s.count - 1; passed = s.passed + 1 }
    else record s { woken = s.woken - 1; waiting = s.waiting + 1 }

-- `signal`: the increment and notify_one.
unfoldable pub signal : Semaphore → Semaphore
signal s =
    if ltb 0 s.waiting
    then record s {
      count = s.count + 1;
      waiting = s.waiting - 1;
      woken = s.woken + 1;
      signals = s.signals + 1;
    }
    else record s { count = s.count + 1; signals = s.signals + 1 }
