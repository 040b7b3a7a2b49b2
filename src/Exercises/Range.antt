-- ===== src/Exercises/Range.antt =====
-- cpp/online_judge/leetcode/editor/cn/在排序数组中查找元素的第一个和最后一个位置.cpp: searchRange. `end` is one above
-- `right`, which reaches -1. An int k stands for the number k + 2^31, so INT_MAX is 2^32 - 1.
use language_test.Prelude.{
  ℕ, zero, suc, ◌+◌, ◌-◌, ◌/◌, ◌^◌, ◌<◌, ◌≤◌, ◌≡◌, ◌≢◌, ◌↔◌, ◌⊎◌, refl, false, Bool-cases, ◌&&◌,
  inl, inr, Option, none, some, List, ◌==◌, ltb, if◌then◌else◌, ◌>>=◌, get_elem?, length, arith,
  le_or_lt, Returns, Returns-bind,
}
use language_test.Prelude.Int.{ℤ, pos, negsuc}
use language_test.Vector.{value, IsSorted, get_elem?-value}

unfoldable pub bound_loop : ℕ → List ℕ → ℕ → ℕ → ℕ → Option ℕ
bound_loop zero nums target left end = none
bound_loop (suc fuel) nums target left end =
    if ltb left end
    then (get_elem? nums (left + (end - 1 - left) / 2) >>= λ x.
        bound_loop fuel nums target (if ltb x target then left + (end - 1 - left) / 2 + 1 else left)
          (if ltb x target then end else left + (end - 1 - left) / 2))
    else some left

unfoldable pub lower_bound : List ℕ → ℕ → Option ℕ
lower_bound nums target = bound_loop (length nums + 1) nums target 0 (length nums)

-- The test reads nums[idx1] only where it is in bounds; `target + 1` must be an int.
unfoldable pub search_range : List ℕ → ℕ → Option (ℤ × ℤ)
search_range nums target = lower_bound nums target >>= λ idx1.
    if target + 1 == 2 ^ 32
    then none
    else (lower_bound nums (target + 1) >>= λ above.
        if ltb idx1 (length nums) && value nums idx1 == target
        then some (pos idx1, if above == 0 then negsuc 0 else pos (above - 1))
        else some (negsuc 0, negsuc 0))

-- The elements before p are below the target, the others are not.
record Splits (nums : List ℕ) (target p : ℕ) : Type 0 where
  inside : p ≤ length nums
  low : (i : ℕ) → i < p → value nums i < target
  high : (i : ℕ) → p ≤ i → i < length nums → target ≤ value nums i

bound_loop-Splits :
    (fuel : ℕ) (nums : List ℕ) (target left end : ℕ)
    → IsSorted nums
    → end < fuel + left
    → left ≤ end
    → end ≤ length nums
    → ((i : ℕ) → i < left → value nums i < target)
    → ((i : ℕ) → end ≤ i → i < length nums → target ≤ value nums i)
    → Returns (bound_loop fuel nums target left end) (Splits nums target)
unfolding bound_loop
bound_loop-Splits zero nums target left end s f a b lo hi = absurd (omega (arith, f, a))
bound_loop-Splits (suc fuel) nums target left end s f a b lo hi = elim (Bool-cases (ltb left end)) [
  | inr e ↦
      let o : end ≤ left = ground (arith, e) in
      rw e (record {
        inside = omega (arith, a, b);
        low = lo;
        high = λ i p q. hi i (omega (arith, o, p)) q;
      })
  | inl e ↦
      let l : left < end = ground (arith, e) in
      let mid = left + (end - 1 - left) / 2 in
      let m : mid < end = omega (arith, l) in
      let m' : left ≤ mid = omega arith in
      elim (Bool-cases (ltb (value nums mid) target)) [
        | inl c ↦
            let c' : value nums mid < target = ground (arith, c) in
            rw (e, get_elem?-value nums mid (omega (arith, m, b)), c)
              (bound_loop-Splits fuel nums target (mid + 1) end s (omega (arith, f, m'))
                (omega (arith, m)) b
                (λ i p. omega (arith, s i mid (omega (arith, p)) (omega (arith, m, b)), c')) hi)
        | inr c ↦
            let c' : target ≤ value nums mid = ground (arith, c) in
            rw (e, get_elem?-value nums mid (omega (arith, m, b)), c)
              (bound_loop-Splits fuel nums target left mid s (omega (arith, f, m, l)) m'
                (omega (arith, m, b)) lo (λ i p q. omega (arith, s mid i p q, c')))
      ]
]

lower_bound-Splits :
    (nums : List ℕ) (target : ℕ)
    → IsSorted nums
    → Returns (lower_bound nums target) (Splits nums target)
unfolding lower_bound
lower_bound-Splits nums target s =
    bound_loop-Splits (length nums + 1) nums target 0 (length nums) s (omega arith) (omega arith)
      (omega arith) (λ i p. absurd (omega (arith, p))) (λ i p q. absurd (omega (arith, p, q)))

-- The indices of the target are those from a to b, or there are none.
abbrev pub FindsRange : List ℕ → ℕ → ℤ × ℤ → Type 0
FindsRange nums target r =
    ((a : ℕ) × (b : ℕ) × (r ≡ (pos a, pos b))
      × (a ≤ b)
      × (b < length nums)
      × ((i : ℕ) → i < length nums → (value nums i ≡ target) ↔ ((a ≤ i) × (i ≤ b))))
    ⊎ ((r ≡ (negsuc 0, negsuc 0)) × ((i : ℕ) → i < length nums → value nums i ≢ target))

module _ (nums : List ℕ) (target p q : ℕ) (at : Splits nums target p)
    (above : Splits nums (target + 1) q) where
  before_above : p < length nums → value nums p ≡ target → p < q
  before_above l e = elim (le_or_lt q p) [
    | inl h ↦ absurd (omega (arith, above.high p h l, e))
    | inr h ↦ h
  ]

  here : p < length nums → value nums p ≡ target → FindsRange nums target (pos p, pos (q - 1))
  here l e =
      let before = before_above l e in
      inl (
        p,
        q - 1,
        refl,
        omega (arith, before),
        omega (arith, before, above.inside),
        λ i k. (
          (λ v. (
            elim (le_or_lt p i) [ inl h ↦ h | inr h ↦ absurd (omega (arith, at.low i h, v)) ],
            elim (le_or_lt q i) [
              | inl h ↦ absurd (omega (arith, above.high i h k, v))
              | inr h ↦ omega (arith, h)
            ],
          )),
          λ (h, j). omega (arith, at.high i h k, above.low i (omega (arith, j, before))),
        ),
      )

  nowhere :
      IsSorted nums
      → (ltb p (length nums) && value nums p == target) ≡ false
      → (i : ℕ) → i < length nums
      → value nums i ≢ target
  nowhere s e i k v =
      let after : p ≤ i = elim (le_or_lt p i) [
        | inl h ↦ h
        | inr h ↦ absurd (omega (arith, at.low i h, v))
      ] in
      let l : p < length nums = omega (arith, after, k) in
      let same : value nums p ≡ target =
        omega (arith, s p i after k, at.high p (omega arith) l, v) in
      ground (arith, e, l, same)

-- In a sorted vector `searchRange` finds the first and the last index of the target, which is not INT_MAX,
-- or answers -1 twice where the target does not occur.
pub search_range-FindsRange :
    (nums : List ℕ) (target : ℕ)
    → IsSorted nums
    → target + 1 < 2 ^ 32
    → Returns (search_range nums target) (FindsRange nums target)
unfolding search_range
search_range-FindsRange nums target s h =
    let fits : (target + 1 == 2 ^ 32) ≡ false = ground (arith, h) in
    Returns-bind (lower_bound nums target) (λ idx1. rest idx1) (Splits nums target)
      (FindsRange nums target) (lower_bound-Splits nums target s)
      (λ p at. rw fits (
        Returns-bind (lower_bound nums (target + 1)) (λ above. answer p above)
          (Splits nums (target + 1)) (FindsRange nums target)
          (lower_bound-Splits nums (target + 1) s)
          (λ q above. elim (Bool-cases (ltb p (length nums) && value nums p == target)) [
            | inl e ↦
                let l : p < length nums = ground (arith, e) in
                let same : value nums p ≡ target = ground (arith, e) in
                let some_above : (q == 0) ≡ false =
                  ground (arith, before_above nums target p q at above l same) in
                rw (e, some_above) (here nums target p q at above l same)
            | inr e ↦ rw e (inr (refl, nowhere nums target p q at above s e))
          ])))
  where
    answer : ℕ → ℕ → Option (ℤ × ℤ)
    answer idx1 above =
        if ltb idx1 (length nums) && value nums idx1 == target
        then some (pos idx1, if above == 0 then negsuc 0 else pos (above - 1))
        else some (negsuc 0, negsuc 0)

    rest : ℕ → Option (ℤ × ℤ)
    rest idx1 =
        if target + 1 == 2 ^ 32
        then none
        else (lower_bound nums (target + 1) >>= λ above. answer idx1 above)
