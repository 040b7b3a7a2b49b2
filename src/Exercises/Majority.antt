-- ===== src/Exercises/Majority.antt =====
-- cpp/online_judge/leetcode/editor/cn/数组中出现次数超过一半的数字.cpp: majorityElement. `none` is the read of
-- nums[0] of an empty vector.
use language_test.Prelude.{
  ℕ, ◌+◌, ◌-◌, ◌*◌, ◌<◌, ◌≤◌, ◌≡◌, ap, true, false, Bool-cases, inl, inr, Option, none, some, List,
  [], ◌∷◌, ◌==◌, if◌then◌else◌, length, arith,
}

-- The loop, with `curNum` and `cnt`.
unfoldable pub vote : ℕ → ℕ → List ℕ → ℕ
vote cur_num cnt [] = cur_num
vote cur_num cnt (x ∷ nums) =
    let same = vote cur_num (cnt + 1) nums in
    let changed = vote x 1 nums in
    let fewer = vote cur_num (cnt - 1) nums in
    if cur_num == x then same else if cnt == 0 then changed else fewer

unfoldable pub majority_element : List ℕ → Option ℕ
majority_element [] = none
majority_element (x ∷ nums) = some (vote x 1 nums)

-- How often x occurs.
abbrev pub occurrences : ℕ → List ℕ → ℕ
occurrences x [] = 0
occurrences x (y ∷ nums) = if y == x then occurrences x nums + 1 else occurrences x nums

-- What is known of x after n elements, c of them x.
record Balance (x cur_num cnt c n : ℕ) : Type 0 where
  chosen : (cur_num == x) ≡ true → 2 * c ≤ n + cnt
  other : (cur_num == x) ≡ false → 2 * c + cnt ≤ n

vote-occurrences :
    (nums : List ℕ) (x cur_num cnt c n : ℕ)
    → Balance x cur_num cnt c n
    → n + length nums < 2 * (c + occurrences x nums)
    → vote cur_num cnt nums ≡ x
unfolding vote
vote-occurrences [] x cur_num cnt c n b h = elim (Bool-cases (cur_num == x)) [
  | inl e ↦ ground (arith, e)
  | inr e ↦ absurd (omega (arith, b.other e, h))
]
vote-occurrences (y ∷ nums) x cur_num cnt c n b h = elim (Bool-cases (y == x)) [
  | inl p ↦
      let h' : n + 1 + length nums < 2 * (c + 1 + occurrences x nums) = omega (arith, rw p at h) in
      elim (Bool-cases (cur_num == y)) [
        | inl q ↦
            let e : (cur_num == x) ≡ true = ground (arith, p, q) in
            rw q (
              vote-occurrences nums x cur_num (cnt + 1) (c + 1) (n + 1)
                (record { chosen = λ o. omega (arith, b.chosen e); other = λ o. cc (o, e) }) h')
        | inr q ↦
            let e : (cur_num == x) ≡ false = ground (arith, p, q) in
            elim (Bool-cases (cnt == 0)) [
              | inl z ↦
                  rw (q, z)
                    (vote-occurrences nums x y 1 (c + 1) (n + 1)
                      (record {
                        chosen = λ o. ground (arith, b.other e, z);
                        other = λ o. cc (o, p);
                      })
                      h')
              | inr z ↦
                  rw (q, z)
                    (vote-occurrences nums x cur_num (cnt - 1) (c + 1) (n + 1)
                      (record {
                        chosen = λ o. cc (o, e);
                        other = λ o. ground (arith, b.other e, z);
                      })
                      h')
            ]
      ]
  | inr p ↦
      let h' : n + 1 + length nums < 2 * (c + occurrences x nums) = omega (arith, rw p at h) in
      elim (Bool-cases (cur_num == y)) [
        | inl q ↦
            let e : (cur_num == x) ≡ false = ground (arith, p, q) in
            rw q (
              vote-occurrences nums x cur_num (cnt + 1) c (n + 1)
                (record { chosen = λ o. cc (o, e); other = λ o. omega (arith, b.other e) }) h')
        | inr q ↦ elim (Bool-cases (cnt == 0)) [
          | inl z ↦
              rw (q, z)
                (vote-occurrences nums x y 1 c (n + 1)
                  (record {
                    chosen = λ o. cc (o, p);
                    other = λ o. elim (Bool-cases (cur_num == x)) [
                      | inl e ↦ ground (arith, b.chosen e, z)
                      | inr e ↦ ground (arith, b.other e, z)
                    ];
                  })
                  h')
          | inr z ↦
              rw (q, z)
                (vote-occurrences nums x cur_num (cnt - 1) c (n + 1)
                  (record {
                    chosen = λ o. ground (arith, b.chosen o, z);
                    other = λ o. ground (arith, b.other o, z);
                  })
                  h')
        ]
      ]
]

-- An element that makes up more than half of the vector is what `majorityElement` returns.
pub majority_element-occurrences :
    (nums : List ℕ) (x : ℕ) → length nums < 2 * occurrences x nums → majority_element nums ≡ some x
unfolding majority_element
majority_element-occurrences [] x h = absurd (omega (arith, h))
majority_element-occurrences (y ∷ nums) x h =
    ap (λ z. some z)
      (elim (Bool-cases (y == x)) [
        | inl e ↦
            vote-occurrences nums x y 1 1 1
              (record { chosen = λ o. omega arith; other = λ o. cc (o, e) })
              (omega (arith, rw e at h))
        | inr e ↦
            vote-occurrences nums x y 1 0 1
              (record { chosen = λ o. cc (o, e); other = λ o. omega arith })
              (omega (arith, rw e at h))
      ])
