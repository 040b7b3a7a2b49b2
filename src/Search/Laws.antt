-- ===== src/Search/Laws.antt =====
-- cpp/search/binarySearch.cpp: `binarySearch` and `binarySearch3` find the key.
use language_test.Prelude.{
  ℕ, zero, suc, ◌+◌, ◌-◌, ◌/◌, ◌^◌, ◌<◌, ◌≤◌, ◌≡◌, refl, true, false, Bool-cases, inl, inr, none,
  some, List, ◌==◌, ltb, if◌then◌else◌, get_elem?, length, arith, le_or_lt, Returns,
}
use language_test.Vector.{value, IsSorted, get_elem?-value}
use language_test.Search.Defs.{
  binary_search, binary_search3, search_loop, search_loop3, search_loop2,
}
use language_test.Search.Window.{
  Finds, Window, whole-Window, right-Window, left-Window, empty-Finds,
}

search_loop-Finds :
    (fuel : ℕ) (vec : List ℕ) (key low end : ℕ)
    → IsSorted vec
    → length vec ≤ 2 ^ 30
    → Window vec key low end
    → end < fuel + low
    → low ≤ end
    → Returns (search_loop fuel vec key low end) (Finds vec key)
unfolding search_loop
search_loop-Finds zero vec key low end s b w f o = absurd (omega arith)
search_loop-Finds (suc fuel) vec key low end s b w f o =
    let mid = (low + end - 1) / 2 in
    let x = value vec mid in
    elim (le_or_lt end low) [
      | inl h ↦
          let e : ltb low end ≡ false = ground (arith, h) in
          rw (e, search_loop) (empty-Finds vec key low end w h)
      | inr h ↦
          let e : ltb low end ≡ true = ground (arith, h) in
          let g : ltb (low + end - 1) (2 ^ 31) ≡ true = ground (arith, h, b, w.bounded) in
          let m : mid < end = omega (arith, h) in
          let n : mid < length vec = omega (arith, m, w.bounded) in
          elim (Bool-cases (x == key)) [
            | inl q ↦ rw (e, g, search_loop, get_elem?-value vec mid n, q) (n, ground (arith, q))
            | inr q ↦ elim (Bool-cases (ltb x key)) [
              | inl p ↦
                  rw (e, g, search_loop, get_elem?-value vec mid n, q, p)
                    (search_loop-Finds fuel vec key (mid + 1) end s b
                      (right-Window vec s key low end mid w m (ground (arith, p)))
                      (omega (arith, f)) (omega (arith, m)))
              | inr p ↦
                  rw (e, g, search_loop, get_elem?-value vec mid n, q, p)
                    (search_loop-Finds fuel vec key low mid s b
                      (left-Window vec s key low end mid w m (ground (arith, p, q)))
                      (omega (arith, f, m)) (omega (arith, h)))
            ]
          ]
    ]

-- On a sorted vector of at most 2^30 elements `binarySearch` ends without undefined behaviour: it gives
-- an index of the key, or -1 where the key is nowhere.
pub binary_search-Finds :
    (vec : List ℕ) (key : ℕ)
    → IsSorted vec
    → length vec ≤ 2 ^ 30
    → Returns (binary_search vec key) (Finds vec key)
unfolding binary_search
binary_search-Finds vec key s b =
    search_loop-Finds (length vec + 1) vec key 0 (length vec) s b (whole-Window vec key)
      (omega arith) (omega arith)

search_loop3-Finds :
    (fuel : ℕ) (vec : List ℕ) (key left end : ℕ)
    → IsSorted vec
    → Window vec key left end
    → end < fuel + left
    → left ≤ end
    → Returns (search_loop3 fuel vec key left end) (Finds vec key)
unfolding search_loop3
search_loop3-Finds zero vec key left end s w f o = absurd (omega arith)
search_loop3-Finds (suc fuel) vec key left end s w f o =
    let mid = left + (end - 1 - left) / 2 in
    let x = value vec mid in
    elim (le_or_lt end left) [
      | inl h ↦
          let e : ltb left end ≡ false = ground (arith, h) in
          rw (e, search_loop3) (empty-Finds vec key left end w h)
      | inr h ↦
          let e : ltb left end ≡ true = ground (arith, h) in
          let m : mid < end = omega (arith, h) in
          let n : mid < length vec = omega (arith, m, w.bounded) in
          elim (Bool-cases (x == key)) [
            | inl q ↦ rw (e, search_loop3, get_elem?-value vec mid n, q) (n, ground (arith, q))
            | inr q ↦ elim (Bool-cases (ltb x key)) [
              | inl p ↦
                  let r : ltb key x ≡ false = ground (arith, p) in
                  rw (e, search_loop3, get_elem?-value vec mid n, q, p, r)
                    (search_loop3-Finds fuel vec key (mid + 1) end s
                      (right-Window vec s key left end mid w m (ground (arith, p)))
                      (omega (arith, f)) (omega (arith, m)))
              | inr p ↦
                  let r : ltb key x ≡ true = ground (arith, p, q) in
                  rw (e, search_loop3, get_elem?-value vec mid n, q, p, r)
                    (search_loop3-Finds fuel vec key left mid s
                      (left-Window vec s key left end mid w m (ground (arith, p, q)))
                      (omega (arith, f, m)) (omega (arith, h)))
            ]
          ]
    ]

-- On a sorted vector `binarySearch3` ends without undefined behaviour: it gives an index of the key,
-- or -1 where the key is nowhere.
pub binary_search3-Finds :
    (vec : List ℕ) (key : ℕ) → IsSorted vec → Returns (binary_search3 vec key) (Finds vec key)
unfolding binary_search3
binary_search3-Finds vec key s =
    search_loop3-Finds (length vec + 1) vec key 0 (length vec) s (whole-Window vec key)
      (omega arith) (omega arith)

-- The loop of `binarySearch2` never gives a result from a state where the element in the middle is
-- above the key and the element that its last test reads, at 0 or 1, is the int 0.
pub search_loop2-none :
    (fuel : ℕ) (vec : List ℕ) (key left end x : ℕ)
    → left < end
    → get_elem? vec ((left + end - 1) / 2) ≡ some x
    → key < x
    → get_elem? vec (if ltb key ((left + end - 1) / 2 + 2 ^ 31) then 1 else 0) ≡ some (2 ^ 31)
    → search_loop2 fuel vec key left end ≡ none
unfolding search_loop2
search_loop2-none zero vec key left end x h e k y = refl
search_loop2-none (suc fuel) vec key left end x h e k y =
    let l : ltb left end ≡ true = ground (arith, h) in
    let n : (x == key) ≡ false = ground (arith, k) in
    let m : ltb x key ≡ false = ground (arith, k) in
    let rest = search_loop2-none fuel vec key left end x h e k y in
    elim (Bool-cases (ltb (left + end - 1) (2 ^ 31))) [
      | inl b ↦ rw (search_loop2, l, b, e, n, y, m) rest
      | inr b ↦ rw (search_loop2, l, b) refl
    ]
