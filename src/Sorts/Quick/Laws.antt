-- ===== src/Sorts/Quick/Laws.antt =====
-- cpp/sort/quick_sort.cpp: `sortArray` sorts, whatever rand() returns.
use mathlib.Core.Path.{subst}
use language_test.Prelude.{
  ℕ, zero, suc, ◌+◌, ◌-◌, ◌<◌, ◌≤◌, ◌≡◌, sym, ◌∙◌, Bool-cases, true, false, inl, inr, some, List,
  leb, ◌==◌, ◌>>=◌, length, arith, le_or_lt, Returns, Returns-bind, Returns-imp,
}
use language_test.Vector.{value, IsSorted, Rearranges}
use language_test.Sorts.Quick.{partition, sort_range, sort_array}
use language_test.Sorts.Quick.Partition.{Within, Within-refl, Within-trans, Parts, partition-Parts}

Within-widen :
    (l end l' end' : ℕ) (vec new : List ℕ)
    → l' ≤ l
    → end ≤ end'
    → Within l end vec new
    → Within l' end' vec new
Within-widen l end l' end' vec new p q w = record {
  rearranges = w.rearranges;
  outside = λ k h.
      w.outside k
        (elim h [ inl a ↦ inl (omega (arith, a, p)) | inr a ↦ inr (omega (arith, a, q)) ]);
  inside = λ k a b. elim (le_or_lt l k) [
    | inl c ↦ elim (le_or_lt end k) [
      | inl d ↦ (k, a, b, w.outside k (inr d))
      | inr d ↦
          let (j, u, v, e) = w.inside k c d in (j, omega (arith, u, p), omega (arith, v, q), e)
    ]
    | inr c ↦ (k, a, b, w.outside k (inl c))
  ];
}

-- The elements from l up to `end` are in order.
abbrev Ordered : ℕ → ℕ → List ℕ → Type 0
Ordered l end vec = (a b : ℕ) → l ≤ a → a ≤ b → b < end → value vec a ≤ value vec b

abbrev RangeSorts : ℕ → ℕ → List ℕ → List ℕ → Type 0
RangeSorts l end vec new = Within l end vec new × Ordered l end new

-- The two ranges beside the pivot, sorted one after the other.
module _ (l r s : ℕ) (vec parted left right : List ℕ) (p : Parts l r vec parted s)
    (on_left : RangeSorts l s parted left) (on_right : RangeSorts (s + 1) (r + 1) left right) where
  pivot_stays : value right s ≡ value parted s
  pivot_stays = on_right.0.outside s (inl (omega arith)) ∙ on_left.0.outside s (inr (omega arith))

  low_side : (k : ℕ) → l ≤ k → k < s → value right k ≤ value right s
  low_side k a b =
      let (j, u, v, e) = on_left.0.inside k a b in
      let f : value right k ≡ value parted j = on_right.0.outside k (inl (omega (arith, b))) ∙ e in
      rw (f, pivot_stays) (p.low j u v)

  high_side : (k : ℕ) → s < k → k ≤ r → value right s ≤ value right k
  high_side k a b =
      let (j, u, v, e) = on_right.0.inside k (omega (arith, a)) (omega (arith, b)) in
      let f : value right k ≡ value parted j = e ∙ on_left.0.outside j (inr (omega (arith, u))) in
      rw (f, pivot_stays) (p.high j (omega (arith, u)) (omega (arith, v)))

  both-Ordered : Ordered l (r + 1) right
  both-Ordered a b h k m = elim (le_or_lt s a) [
    | inl c ↦ elim (Bool-cases (a == s)) [
      | inl e ↦
          let o : a ≡ s = ground (arith, e) in
          elim (Bool-cases (b == s)) [
            | inl f ↦ let o' : b ≡ s = ground (arith, f) in rw (o, o') (omega arith)
            | inr f ↦ rw o (high_side b (ground (arith, f, k, o)) (omega (arith, m)))
          ]
      | inr e ↦ on_right.1 a b (ground (arith, c, e)) k m
    ]
    | inr c ↦ elim (le_or_lt s b) [
      | inl d ↦ elim (Bool-cases (b == s)) [
        | inl f ↦ let o : b ≡ s = ground (arith, f) in rw o (low_side a h c)
        | inr f ↦
            omega (arith, low_side a h c, high_side b (ground (arith, f, d)) (omega (arith, m)))
      ]
      | inr d ↦
          rw
            (
              on_right.0.outside a (inl (omega (arith, c))),
              on_right.0.outside b (inl (omega (arith, d))),
            )
            (on_left.1 a b h k d)
    ]
  ]

  both-RangeSorts : RangeSorts l (r + 1) vec right
  both-RangeSorts =
      let a : l ≤ s = p.place.0 in
      let b : s ≤ r = p.place.1 in
      (
        Within-trans l (r + 1) vec parted right p.within (
            Within-trans l (r + 1) parted left right
              (Within-widen l s l (r + 1) parted left (omega arith) (omega (arith, b)) on_left.0)
              (Within-widen (s + 1) (r + 1) l (r + 1) left right (omega (arith, a)) (omega arith)
                on_right.0)),
        both-Ordered,
      )

module _ (rand : ℕ → ℕ) where
  sort_range-RangeSorts :
      (fuel calls : ℕ) (vec : List ℕ) (l end : ℕ)
      → l ≤ end
      → end < fuel + l
      → end ≤ length vec
      → Returns (sort_range rand fuel calls vec l end) (λ s. RangeSorts l end vec (s.0))
  unfolding sort_range
  sort_range-RangeSorts zero calls vec l end o f h = absurd (omega arith)
  sort_range-RangeSorts (suc fuel) calls vec l end o f h = elim (le_or_lt end (l + 1)) [
    | inl c ↦
        let e : leb end (l + 1) ≡ true = ground (arith, c) in
        rw e (
          Within-refl l end vec,
          λ a b p q m. let same : a ≡ b = omega (arith, p, q, m, c) in rw same (omega arith),
        )
    | inr c ↦
        let e : leb end (l + 1) ≡ false = ground (arith, c) in
        let r = end - 1 in
        let r' : r + 1 ≡ end = omega (arith, c) in
        rw e (
          Returns-bind (partition (rand calls) vec l r)
            (λ s. sort_range rand fuel (calls + 1) (s.0) l (s.1) >>= λ t.
              sort_range rand fuel (t.1) (t.0) (s.1 + 1) end)
            (λ s. Parts l r vec (s.0) (s.1)) (λ u. RangeSorts l end vec (u.0))
            (partition-Parts (rand calls) vec l r (omega (arith, c)) (omega (arith, c, h)))
            (λ s p.
              let size = p.within.rearranges.0 in
              let place = p.place in
              Returns-bind (sort_range rand fuel (calls + 1) (s.0) l (s.1))
                (λ t. sort_range rand fuel (t.1) (t.0) (s.1 + 1) end)
                (λ t. RangeSorts l (s.1) (s.0) (t.0)) (λ u. RangeSorts l end vec (u.0))
                (sort_range-RangeSorts fuel (calls + 1) (s.0) l (s.1) place.0
                  (omega (arith, f, place.1, c)) (omega (arith, h, size, place.1, c)))
                (λ t w.
                  let size' = w.0.rearranges.0 in
                  Returns-imp (sort_range rand fuel (t.1) (t.0) (s.1 + 1) end)
                    (λ u. RangeSorts (s.1 + 1) end (t.0) (u.0)) (λ u. RangeSorts l end vec (u.0))
                    (sort_range-RangeSorts fuel (t.1) (t.0) (s.1 + 1) end
                      (omega (arith, place.1, c)) (omega (arith, f, place.0))
                      (omega (arith, h, size, size')))
                    (λ u z.
                      subst (λ x. RangeSorts l x vec (u.0)) r'
                        (both-RangeSorts l r (s.1) vec (s.0) (t.0) (u.0) p w
                          (subst (λ x. RangeSorts (s.1 + 1) x (t.0) (u.0)) (sym r') z))))))
  ]

  -- Whatever the calls of rand() return, `sortArray` ends without an access out of bounds, and leaves
  -- the same elements in ascending order.
  pub sort_array-IsSorted :
      (vec : List ℕ) → Returns (sort_array rand vec) (λ new. Rearranges vec new × IsSorted new)
  unfolding sort_array
  sort_array-IsSorted vec =
      let len = length vec in
      Returns-bind (sort_range rand (len + 1) 0 vec 0 len) (λ s. some (s.0))
        (λ s. RangeSorts 0 len vec (s.0)) (λ new. Rearranges vec new × IsSorted new)
        (sort_range-RangeSorts (len + 1) 0 vec 0 len (omega arith) (omega arith) (omega arith))
        (λ s w.
          (w.0.rearranges, λ i j p q. w.1 i j (omega arith) p (omega (arith, q, w.0.rearranges.0))))
