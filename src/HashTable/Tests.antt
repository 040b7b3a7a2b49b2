-- ===== src/HashTable/Tests.antt =====
-- cpp/stl/myHash.cpp: tables of 11 cells, and the theorems there.
use language_test.Prelude.{◌≡◌, refl, true, some, ◌∷◌, replicate, ◌>>=◌}
use language_test.HashTable.Defs.{
  Cell, HashTable, Program, init_hash_table, hash, search_hash, search_loop, insert_hash,
  delete_hash, recreate_hash, reinsert,
}

abbrev eleven : HashTable
eleven = init_hash_table 11

abbrev fresh : Program
fresh = record { table = eleven; index = 1 }

-- Six keys of the hash 0; the search for a seventh meets six collisions, and the table is rebuilt.
abbrev crowded : Program
crowded = record {
  table = record {
    cells =
        Cell.used 0
        ∷ Cell.used 11
        ∷ Cell.used 22
        ∷ Cell.used 33
        ∷ Cell.used 44
        ∷ Cell.used 55
        ∷ replicate 5 Cell.vacant;
    size = 11;
    count = 6;
  };
  index = 1;
}

-- The rebuilding itself ends, with the six keys in 31 cells.
rebuilt : (insert_hash 7 crowded 66 >>= λ o. some (((o.1).table).count)) ≡ some 6
unfolding insert_hash search_hash search_loop hash recreate_hash reinsert
rebuilt = refl

insert_and_delete :
    (insert_hash 7 fresh 46 >>= λ o. delete_hash ((o.1).table) 46 >>= λ d. some (d.0)) ≡ some true
unfolding insert_hash delete_hash search_hash search_loop hash
insert_and_delete = refl
