-- ===== src/HashTable/Defs.antt =====
-- cpp/stl/myHash.cpp. A cell is `tag[i]` with `rcd[i].key`, which the code reads only where the tag is 1.
-- Keys are not negative. `none` is undefined behaviour (an overflow, a division by zero, an index out
-- of bounds), a loop that does not end, or fuel that ran out.
use language_test.Prelude.{
  ℕ, zero, suc, ◌+◌, ◌-◌, ◌*◌, ◌%◌, ◌^◌, Bool, true, false, not, Option, none, some, List, [], ◌∷◌,
  ◌==◌, ltb, if◌then◌else◌, ◌>>=◌, get_elem?, set, replicate,
}

-- The tags 0, 1 and -1.
pub data Cell : Type 0 where
  vacant : Cell
  used : ℕ → Cell
  deleted : Cell

pub record HashTable : Type 0 where
  pub cells : List Cell
  pub size : ℕ
  pub count : ℕ

-- The table and the global `index`.
pub record Program : Type 0 where
  pub table : HashTable
  pub index : ℕ

abbrev pub hash_sizes : List ℕ
hash_sizes = 11 ∷ 31 ∷ 61 ∷ 127 ∷ 251 ∷ 503 ∷ []

-- `InitHashTable`, where malloc gives memory.
abbrev pub init_hash_table : ℕ → HashTable
init_hash_table size = record { cells = replicate size Cell.vacant; size = size; count = 0 }

-- `3 * key` is an int.
unfoldable pub hash : ℕ → ℕ → Option ℕ
hash key m = if m == 0 then none else if ltb (3 * key) (2 ^ 31) then some (3 * key % m) else none

abbrev pub collision : ℕ → ℕ → ℕ
collision p m = (p + 1) % m

-- The test of the loop of `SearchHash`.
abbrev pub skips : ℕ → Cell → Bool
skips key Cell.vacant = false
skips key (Cell.used k) = not (k == key)
skips key Cell.deleted = true

-- The test after the loop.
abbrev pub holds : ℕ → Cell → Bool
holds key Cell.vacant = false
holds key (Cell.used k) = k == key
holds key Cell.deleted = false

-- The status of `SearchHash` and its two results.
pub record Found : Type 0 where
  pub success : Bool
  pub p : ℕ
  pub c : ℕ

unfoldable pub search_loop : ℕ → HashTable → ℕ → ℕ → ℕ → Option Found
search_loop zero t key p c = none
search_loop (suc fuel) t key p c = get_elem? t.cells p >>= λ x.
    if skips key x
    then search_loop fuel t key (collision p t.size) (c + 1)
    else some (record { success = holds key x; p = p; c = c })

-- A loop that has passed every cell does not end.
unfoldable pub search_hash : HashTable → ℕ → Option Found
search_hash t key = hash key t.size >>= λ p. search_loop t.size t key p 0

-- `InsertHash` where there are few collisions.
abbrev pub store : HashTable → ℕ → ℕ → HashTable
store t p key = record { cells = set t.cells p (Cell.used key); size = t.size; count = t.count + 1 }

-- The loop of `recreateHash`, which calls `InsertHash`.
unfoldable pub reinsert :
    (Program → ℕ → Option (Bool × Program)) → List Cell → Program → Option Program
reinsert insert [] w = some w
reinsert insert (Cell.vacant ∷ old) w = reinsert insert old w
reinsert insert (Cell.deleted ∷ old) w = reinsert insert old w
reinsert insert (Cell.used k ∷ old) w = insert w k >>= λ r. reinsert insert old (r.1)

unfoldable pub recreate_hash : (Program → ℕ → Option (Bool × Program)) → Program → Option Program
recreate_hash insert w = get_elem? hash_sizes w.index >>= λ size.
    reinsert insert (w.table).cells (record { table = init_hash_table size; index = w.index + 1 })

-- `c * 1.0 / H.size < 0.5` says that 2 c is below the size. `index` goes up at each level of the
-- recursion and leaves its array at 6, so 7 levels are enough.
unfoldable pub insert_hash : ℕ → Program → ℕ → Option (Bool × Program)
insert_hash zero w key = none
insert_hash (suc depth) w key = search_hash w.table key >>= λ r.
    if r.success
    then some (false, w)
    else if ltb (2 * r.c) (w.table).size
    then some (true, record w { table = store w.table r.p key })
    else (recreate_hash (λ v k. insert_hash depth v k) w >>= λ v. some (false, v))

-- `DeleteHash`
unfoldable pub delete_hash : HashTable → ℕ → Option (Bool × HashTable)
delete_hash t key = search_hash t key >>= λ r.
    if r.success
    then some
        (true, record { cells = set t.cells r.p Cell.deleted; size = t.size; count = t.count - 1 })
    else some (false, t)
