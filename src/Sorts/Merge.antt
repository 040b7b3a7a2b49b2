-- ===== src/Sorts/Merge.antt =====
-- cpp/sort/mergeSort.cpp. `mid` is one above `m` of the source and `end` one above `r`, which reaches -1
-- for an empty vector. `none` is an overflow of the int `left + right`, or an access out of bounds.
use language_test.Prelude.{
  ℕ, zero, suc, ◌+◌, ◌-◌, ◌/◌, ◌^◌, ◌&&◌, Option, none, some, List, [], ◌∷◌, ◌++◌, ltb, leb, ◌==◌,
  if◌then◌else◌, ◌>>=◌, get_elem?, set, length,
}
pub mod Lists
mod Run
pub mod Laws

-- `while (left <= m) temp[i++] = data[left++];`
unfoldable pub copy_range : ℕ → ℕ → List ℕ → List ℕ → Option (List ℕ)
copy_range zero i vec temp = some temp
copy_range (suc n) i vec temp = get_elem? vec i >>= λ x. copy_range n (i + 1) vec (temp ++ x ∷ [])

-- The three loops of `Merge` that fill `temp`.
unfoldable pub merge_loop : ℕ → List ℕ → ℕ → ℕ → ℕ → ℕ → List ℕ → Option (List ℕ)
merge_loop zero vec left mid right end temp = none
merge_loop (suc fuel) vec left mid right end temp =
    if ltb left mid && ltb right end
    then (get_elem? vec left >>= λ x. get_elem? vec right >>= λ y.
        merge_loop fuel vec (if leb y x then left else left + 1) mid
          (if leb y x then right + 1 else right) end (temp ++ (if leb y x then y else x) ∷ []))
    else (copy_range (mid - left) left vec temp >>= λ t. copy_range (end - right) right vec t)

-- `for (int j = 0; j < len; j++) data[l + j] = temp[j];`
unfoldable pub write_back : List ℕ → ℕ → List ℕ → Option (List ℕ)
write_back [] i vec = some vec
write_back (x ∷ temp) i vec =
    let rest = write_back temp (i + 1) (set vec i x) in if ltb i (length vec) then rest else none

unfoldable pub merge : List ℕ → ℕ → ℕ → ℕ → Option (List ℕ)
merge vec l mid end =
    merge_loop (end - l + 1) vec l mid mid end [] >>= λ temp. write_back temp l vec

-- `mergeSort`
unfoldable pub merge_sort : ℕ → List ℕ → ℕ → ℕ → Option (List ℕ)
merge_sort zero vec l end = none
merge_sort (suc fuel) vec l end =
    let mid = l + (end - l + 1) / 2 in
    if l + 1 == end
    then some vec
    else (merge_sort fuel vec l mid >>= λ v. merge_sort fuel v mid end >>= λ w. merge w l mid end)

-- `mergeSort2`
unfoldable pub merge_sort2 : ℕ → List ℕ → ℕ → ℕ → Option (List ℕ)
merge_sort2 zero vec left end = none
merge_sort2 (suc fuel) vec left end =
    let mid = (left + end - 1) / 2 + 1 in
    if leb end (left + 1)
    then some vec
    else if ltb (left + end - 1) (2 ^ 31)
    then (merge_sort2 fuel vec left mid >>= λ v.
        merge_sort2 fuel v mid end >>= λ w. merge w left mid end)
    else none
