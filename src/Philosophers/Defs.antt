-- ===== src/Philosophers/Defs.antt =====
-- cpp/thread/eat_think.cpp, the thread `eat_think`. The philosophers A to E are the numbers 0 to 4. A
-- mutex is its owner, and the five that are used count as initialised: pthread locks one that is
-- free, and trylock gives EBUSY exactly where it is not.
use language_test.Prelude.{ℕ, ◌+◌, ◌<◌, ◌≡◌, ◌≢◌, Option, none, some, ◌==◌, if◌then◌else◌}

-- The `switch`.
abbrev pub left : ℕ → ℕ
left phi = if phi == 0 then 5 else phi

abbrev pub right : ℕ → ℕ
right phi = phi + 1

-- Before the lock, with the left chopstick, with it after EBUSY, with both, with the right one.
pub data Place : Type 0 where
  thinking : Place
  hungry : Place
  retreating : Place
  eating : Place
  leaving : Place

pub record Table : Type 0 where
  pub chopstick : ℕ → Option ℕ
  pub place : ℕ → Place

abbrev pub update {ℓ} : {A : Type ℓ} → (ℕ → A) → ℕ → A → ℕ → A
update f k v = λ x. if x == k then v else f x

abbrev pub start : Table
start = record { chopstick = λ c. none; place = λ phi. Place.thinking }

-- A call of pthread by the philosopher `phi`.
pub data Step (s : Table) : Table → Type 0 where
  lock_left :
      (phi : ℕ)
      → phi < 5
      → s.place phi ≡ Place.thinking
      → s.chopstick (left phi) ≡ none
      → Step s (record {
        chopstick = update s.chopstick (left phi) (some phi);
        place = update s.place phi Place.hungry;
      })
  trylock_right :
      (phi : ℕ)
      → phi < 5
      → s.place phi ≡ Place.hungry
      → s.chopstick (right phi) ≡ none
      → Step s (record {
        chopstick = update s.chopstick (right phi) (some phi);
        place = update s.place phi Place.eating;
      })
  busy_right :
      (phi : ℕ)
      → phi < 5
      → s.place phi ≡ Place.hungry
      → s.chopstick (right phi) ≢ none
      → Step s (record { chopstick = s.chopstick; place = update s.place phi Place.retreating })
  unlock_back :
      (phi : ℕ)
      → phi < 5
      → s.place phi ≡ Place.retreating
      → Step s (record {
        chopstick = update s.chopstick (left phi) none;
        place = update s.place phi Place.thinking;
      })
  unlock_left :
      (phi : ℕ)
      → phi < 5
      → s.place phi ≡ Place.eating
      → Step s (record {
        chopstick = update s.chopstick (left phi) none;
        place = update s.place phi Place.leaving;
      })
  unlock_right :
      (phi : ℕ)
      → phi < 5
      → s.place phi ≡ Place.leaving
      → Step s (record {
        chopstick = update s.chopstick (right phi) none;
        place = update s.place phi Place.thinking;
      })

pub data Run : Table → Type 0 where
  begin : Run start
  next : {s t : Table} → Run s → Step s t → Run t
