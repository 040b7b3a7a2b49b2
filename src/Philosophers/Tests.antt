-- ===== src/Philosophers/Tests.antt =====
-- cpp/thread/eat_think.cpp: a run where A eats, and the theorems there.
use language_test.Prelude.{◌≢◌, refl, arith, some}
use language_test.Philosophers.Defs.{Place, Table, update, start, Step, Run}
use language_test.Philosophers.Laws.{Run-apart, Run-moves}

-- A holds the chopsticks 5 and 1.
abbrev a_eats : Table
a_eats = record {
  chopstick = update (update start.chopstick 5 (some 0)) 1 (some 0);
  place = update (update start.place 0 Place.hungry) 0 Place.eating;
}

a_eats-Run : Run a_eats
a_eats-Run =
    Run.next (Run.next Run.begin (Step.lock_left 0 (omega arith) refl refl))
      (Step.trylock_right 0 (omega arith) refl refl)

Run-apart_example : a_eats.place 1 ≢ Place.eating
Run-apart_example = Run-apart a_eats 0 1 a_eats-Run (omega arith) (omega arith) refl refl

Run-moves_example : (t : Table) × Step a_eats t
Run-moves_example = Run-moves a_eats a_eats-Run
