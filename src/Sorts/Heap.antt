-- ===== src/Sorts/Heap.antt =====
-- cpp/sort/heapSort.cpp. An index is an int: `none` is an overflow of `(index << 1) + 2`, or an access out
-- of bounds.
use language_test.Prelude.{
  ℕ, zero, suc, ◌+◌, ◌-◌, ◌*◌, ◌/◌, ◌^◌, Option, none, some, List, ltb, ◌==◌, if◌then◌else◌, ◌>>=◌,
  get_elem?, length,
}
use language_test.Vector.{swap}
mod Pick
mod Sift
pub mod Laws

-- A test of a child: `child < len && vec[child] > vec[maxId]` makes it the new maxId.
unfoldable pub larger : List ℕ → ℕ → ℕ → ℕ → Option ℕ
larger vec len child max_id =
    if ltb child len
    then (get_elem? vec child >>= λ x.
        get_elem? vec max_id >>= λ y. some (if ltb y x then child else max_id))
    else some max_id

unfoldable pub heapify : ℕ → List ℕ → ℕ → ℕ → Option (List ℕ)
heapify zero vec index len = none
heapify (suc fuel) vec index len =
    if ltb (index * 2 + 2) (2 ^ 31)
    then (larger vec len (index * 2 + 1) index >>= λ m.
        larger vec len (index * 2 + 2) m >>= λ max_id.
        if max_id == index
        then some vec
        else (swap vec index max_id >>= λ new. heapify fuel new max_id len))
    else none

-- `heapify2` goes on with `heapify`.
unfoldable pub heapify2 : ℕ → List ℕ → ℕ → ℕ → Option (List ℕ)
heapify2 fuel vec index len =
    if ltb (index * 2 + 2) (2 ^ 31)
    then (larger vec len (index * 2 + 1) index >>= λ m.
        larger vec len (index * 2 + 2) m >>= λ max_id.
        if max_id == index
        then some vec
        else (swap vec max_id index >>= λ new. heapify fuel new max_id len))
    else none

-- The first loop of `heapSort`, with i + 1 for its index: it stops at 0.
unfoldable pub build : ℕ → List ℕ → Option (List ℕ)
build zero vec = some vec
build (suc i) vec = heapify (length vec + 1) vec i (length vec) >>= λ new. build i new

-- The second loop, from its index i down to 1.
unfoldable pub drain : ℕ → List ℕ → Option (List ℕ)
drain zero vec = some vec
drain (suc i) vec = swap vec 0 (suc i) >>= λ swapped.
    heapify2 (length vec + 1) swapped 0 (suc i) >>= λ new. drain i new

unfoldable pub heap_sort : List ℕ → Option (List ℕ)
heap_sort vec = build (length vec / 2) vec >>= λ heap. drain (length vec - 1) heap
