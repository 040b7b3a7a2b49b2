-- ===== src/Search/Defs.antt =====
-- cpp/search/binarySearch.cpp. Vectors and ints are those of Vector. An index is its own number, and
-- the upper bound of a search is `end`, which is one above `high` or `right` of the source, since
-- those reach -1. `none` is undefined behaviour or fuel that ran out; the result `some none` is -1.
use language_test.Prelude.{
  ℕ, zero, suc, ◌+◌, ◌-◌, ◌/◌, ◌^◌, Option, none, some, List, ◌==◌, ltb, if◌then◌else◌, ◌>>=◌,
  get_elem?, length,
}

-- The loop of `binarySearch`: `low + high` is an int.
unfoldable pub search_loop : ℕ → List ℕ → ℕ → ℕ → ℕ → Option (Option ℕ)
search_loop zero vec key low end = none
search_loop (suc fuel) vec key low end =
    let mid = (low + end - 1) / 2 in
    if ltb low end
    then if ltb (low + end - 1) (2 ^ 31)
      then (get_elem? vec mid >>= λ x.
          if x == key
          then some (some mid)
          else search_loop fuel vec key (if ltb x key then mid + 1 else low)
              (if ltb x key then end else mid))
      else none
    else some none

-- `binarySearch`, with `len` the size of the vector.
unfoldable pub binary_search : List ℕ → ℕ → Option (Option ℕ)
binary_search vec key = search_loop (length vec + 1) vec key 0 (length vec)

-- The loop of `binarySearch2`. The last test reads the element at `mid > key`, that is at 0 or 1, and
-- is true where that element is not 0.
unfoldable pub search_loop2 : ℕ → List ℕ → ℕ → ℕ → ℕ → Option (Option ℕ)
search_loop2 zero vec key left end = none
search_loop2 (suc fuel) vec key left end =
    let mid = (left + end - 1) / 2 in
    if ltb left end
    then if ltb (left + end - 1) (2 ^ 31)
      then (get_elem? vec mid >>= λ x.
          if x == key
          then some (some mid)
          else get_elem? vec (if ltb key (mid + 2 ^ 31) then 1 else 0) >>= λ y.
              search_loop2 fuel vec key (if ltb x key then mid + 1 else left)
                (if y == 2 ^ 31 then end else mid))
      else none
    else some none

unfoldable pub binary_search2 : ℕ → List ℕ → ℕ → Option (Option ℕ)
binary_search2 fuel vec key = search_loop2 fuel vec key 0 (length vec)

-- The loop of `binarySearch3`.
unfoldable pub search_loop3 : ℕ → List ℕ → ℕ → ℕ → ℕ → Option (Option ℕ)
search_loop3 zero vec key left end = none
search_loop3 (suc fuel) vec key left end =
    let mid = left + (end - 1 - left) / 2 in
    if ltb left end
    then (get_elem? vec mid >>= λ x.
        if x == key
        then some (some mid)
        else search_loop3 fuel vec key (if ltb x key then mid + 1 else left)
            (if ltb key x then mid else end))
    else some none

unfoldable pub binary_search3 : List ℕ → ℕ → Option (Option ℕ)
binary_search3 vec key = search_loop3 (length vec + 1) vec key 0 (length vec)
