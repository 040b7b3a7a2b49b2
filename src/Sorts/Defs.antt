-- ===== src/Sorts/Defs.antt =====
-- cpp/sort/insertSort.cpp, bubleSort.cpp and selectSort.cpp, on the vectors of Vector. A loop takes
-- the number of its rounds, or counts down as its index does.
use language_test.Prelude.{
  ℕ, zero, suc, ◌+◌, ◌-◌, ◌%◌, ◌^◌, Option, some, List, ltb, leb, if◌then◌else◌, ◌>>=◌, get_elem?,
  length,
}
use language_test.Vector.{swap}

-- The inner loop of `insertSort`, with j + 1 for its index j: it stops at 0.
unfoldable pub sink : ℕ → List ℕ → Option (List ℕ)
sink zero vec = some vec
sink (suc j) vec = get_elem? vec (suc j) >>= λ x. get_elem? vec j >>= λ y.
    if ltb x y then (swap vec j (suc j) >>= λ new. sink j new) else some vec

-- The loop of `insertSort`, with the number of rounds left.
unfoldable pub insert_rounds : ℕ → ℕ → List ℕ → Option (List ℕ)
insert_rounds zero i vec = some vec
insert_rounds (suc n) i vec = sink i vec >>= λ new. insert_rounds n (i + 1) new

unfoldable pub insert_sort : List ℕ → Option (List ℕ)
insert_sort vec = insert_rounds (length vec - 1) 1 vec

-- The inner loop of `insertSort2`, from its index j down to 1.
unfoldable pub sink2 : ℕ → List ℕ → Option (List ℕ)
sink2 zero vec = some vec
sink2 (suc j) vec = get_elem? vec j >>= λ x. get_elem? vec (suc j) >>= λ y.
    (if ltb y x then swap vec (suc j) j else some vec) >>= λ new. sink2 j new

unfoldable pub insert_rounds2 : ℕ → ℕ → List ℕ → Option (List ℕ)
insert_rounds2 zero i vec = some vec
insert_rounds2 (suc n) i vec = sink2 i vec >>= λ new. insert_rounds2 n (i + 1) new

unfoldable pub insert_sort2 : List ℕ → Option (List ℕ)
insert_sort2 vec = insert_rounds2 (length vec - 1) 1 vec

-- The inner loop of `bubbleSort` and `bubbleSort5` from index j, with the number of rounds left.
unfoldable pub bubble_pass : ℕ → ℕ → List ℕ → Option (List ℕ)
bubble_pass zero j vec = some vec
bubble_pass (suc n) j vec = get_elem? vec j >>= λ x. get_elem? vec (j + 1) >>= λ y.
    (if ltb y x then swap vec j (j + 1) else some vec) >>= λ new. bubble_pass n (j + 1) new

-- The loop of `bubbleSort` from index i. `len - i - 1` is not negative there.
unfoldable pub bubble_rounds : ℕ → ℕ → ℕ → List ℕ → Option (List ℕ)
bubble_rounds zero i len vec = some vec
bubble_rounds (suc n) i len vec =
    bubble_pass (len - i - 1) 0 vec >>= λ new. bubble_rounds n (i + 1) len new

-- `bubbleSort`; `len - 1` is an int, so there is no round where `len` is 0.
unfoldable pub bubble_sort : List ℕ → ℕ → Option (List ℕ)
bubble_sort vec len = bubble_rounds (len - 1) 0 len vec

-- `a - b` in a size_t.
abbrev pub sub_size : ℕ → ℕ → ℕ
sub_size a b = (a + 2 ^ 64 - b) % 2 ^ 64

-- The loop of `bubbleSort5`, whose differences are of size_t.
unfoldable pub bubble_rounds5 : ℕ → ℕ → List ℕ → Option (List ℕ)
bubble_rounds5 zero i vec = some vec
bubble_rounds5 (suc n) i vec =
    bubble_pass (sub_size (sub_size (length vec) i) 1) 0 vec >>= λ new. bubble_rounds5 n (i + 1) new

unfoldable pub bubble_sort5 : List ℕ → Option (List ℕ)
bubble_sort5 vec = bubble_rounds5 (sub_size (length vec) 1) 0 vec

-- The inner loop of `selectSort` from index j, with the number of rounds left.
unfoldable pub min_index : ℕ → ℕ → ℕ → List ℕ → Option ℕ
min_index zero j m vec = some m
min_index (suc n) j m vec = get_elem? vec j >>= λ x.
    get_elem? vec m >>= λ y. min_index n (j + 1) (if ltb x y then j else m) vec

unfoldable pub select_rounds : ℕ → ℕ → List ℕ → Option (List ℕ)
select_rounds zero i vec = some vec
select_rounds (suc n) i vec =
    min_index (length vec - i) i i vec >>= λ m. swap vec m i >>= λ new. select_rounds n (i + 1) new

unfoldable pub select_sort : List ℕ → Option (List ℕ)
select_sort vec = select_rounds (length vec) 0 vec

-- The inner loop of `selectSort2` at the index i + n, down to i + 1.
unfoldable pub min_index2 : ℕ → ℕ → ℕ → List ℕ → Option ℕ
min_index2 zero i index vec = some index
min_index2 (suc n) i index vec = get_elem? vec index >>= λ x.
    get_elem? vec (i + suc n) >>= λ y. min_index2 n i (if leb y x then i + suc n else index) vec

unfoldable pub select_rounds2 : ℕ → ℕ → List ℕ → Option (List ℕ)
select_rounds2 zero i vec = some vec
select_rounds2 (suc n) i vec = min_index2 (length vec - 1 - i) i (length vec - 1) vec >>= λ index.
    swap vec i index >>= λ new. select_rounds2 n (i + 1) new

unfoldable pub select_sort2 : List ℕ → Option (List ℕ)
select_sort2 vec = select_rounds2 (length vec) 0 vec
