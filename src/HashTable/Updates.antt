-- ===== src/HashTable/Updates.antt =====
-- cpp/stl/myHash.cpp: `InsertHash` and `DeleteHash` keep a table valid, and change one key.
use language_test.Prelude.{
  ℕ, ◌+◌, ◌-◌, ◌<◌, ◌≡◌, ◌≢◌, ◌⊎◌, ◌↔◌, Bool, true, false, if◌then◌else◌, set,
}
use language_test.HashTable.Defs.{Cell, HashTable, Program, Found, store}
use language_test.HashTable.Probe.{cell}
use language_test.HashTable.Laws.{is_vacant, IsTable, Contains, Finds}

-- A table where the cell p was replaced by x, which is not vacant.
module _ (t : HashTable) (w : IsTable t) (p : ℕ) (inside : p < t.size) (x : Cell) (count : ℕ)
    (taken : is_vacant x ≡ false) where
  abbrev updated : HashTable
  updated = record { cells = set t.cells p x; size = t.size; count = count }

module _ (t : HashTable) (w : IsTable t) (key : ℕ) (r : Found) (f : Finds t key r) where
  module _ (fresh : ¬ Contains t key) where
    abbrev stored : HashTable
    stored = store t r.p key

  module _ (there : cell t r.p ≡ Cell.used key) where
    abbrev removed : HashTable
    removed = record { cells = set t.cells r.p Cell.deleted; size = t.size; count = t.count - 1 }

-- What an insertion without a reconstruction gives.
abbrev pub Inserts : HashTable → ℕ → Bool × Program → Type 0
Inserts t key o =
    IsTable ((o.1).table)
    × ((k : ℕ) → Contains ((o.1).table) k ↔ ((k ≡ key) ⊎ Contains t k))
    × ((o.0 ≡ true) ↔ (¬ Contains t key))
    × (((o.1).table).count ≡ (if o.0 then t.count + 1 else t.count))

-- What a deletion gives.
abbrev pub Deletes : HashTable → ℕ → Bool × HashTable → Type 0
Deletes t key o =
    IsTable (o.1)
    × ((k : ℕ) → Contains (o.1) k ↔ ((k ≢ key) × Contains t k))
    × ((o.0 ≡ true) ↔ Contains t key)
    × ((if o.0 then (o.1).count + 1 else (o.1).count) ≡ t.count)
