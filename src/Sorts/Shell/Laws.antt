-- ===== src/Sorts/Shell/Laws.antt =====
-- cpp/sort/shellSort.cpp: the Shell sort sorts.
use language_test.Prelude.{
  ℕ, zero, suc, ◌+◌, ◌-◌, ◌/◌, ◌<◌, ◌≤◌, ◌≡◌, refl, Bool-cases, true, false, inl, inr, List, ltb,
  ◌==◌, length, arith, le_or_lt, Returns, Returns-bind, Returns-imp,
}
use language_test.Vector.{
  value, IsSorted, swap, Swapped, swap-Swapped, Rearranges, Rearranges-refl, Rearranges-trans,
  get_elem?-value,
}
use language_test.Sorts.Hole.{
  Hole, Ordered-Hole, zero-Ordered, stay-Ordered, move-Hole, Sinks, Sinks-trans, rounds-IsSorted,
}
use language_test.Sorts.Shell.{shell_sort, shell_gaps, shell_pass, shell_sink}

-- Any gap keeps the elements.
shell_sink-Rearranges :
    (fuel upper gap : ℕ) (vec : List ℕ)
    → upper < fuel
    → 0 < gap
    → upper < length vec
    → Returns (shell_sink fuel upper gap vec) (Rearranges vec)
unfolding shell_sink
shell_sink-Rearranges zero upper gap vec f g l = absurd (omega arith)
shell_sink-Rearranges (suc fuel) upper gap vec f g l =
    let j = upper - gap in
    let j' : j < length vec = omega (arith, l) in
    elim (le_or_lt gap upper) [
      | inr o ↦ let e : ltb upper gap ≡ true = ground (arith, o) in rw e (Rearranges-refl vec)
      | inl o ↦
          let e : ltb upper gap ≡ false = ground (arith, o) in
          elim (Bool-cases (ltb (value vec upper) (value vec j))) [
            | inl b ↦
                rw (e, get_elem?-value vec j j', get_elem?-value vec upper l, b)
                  (Returns-bind (swap vec j upper) (λ new. shell_sink fuel j gap new)
                    (Swapped vec j upper) (Rearranges vec) (swap-Swapped vec j upper j' l)
                    (λ new s.
                      Returns-imp (shell_sink fuel j gap new) (Rearranges new) (Rearranges vec)
                        (shell_sink-Rearranges fuel j gap new (omega (arith, f, g, o)) g
                          (omega (arith, j', s.rearranges.0)))
                        (λ r q. Rearranges-trans s.rearranges q)))
            | inr b ↦
                rw (e, get_elem?-value vec j j', get_elem?-value vec upper l, b)
                  (shell_sink-Rearranges fuel j gap vec (omega (arith, f, g, o)) g j')
          ]
    ]

shell_pass-Rearranges :
    (n i gap : ℕ) (vec : List ℕ)
    → n + i ≤ length vec
    → 0 < gap
    → Returns (shell_pass n i gap vec) (Rearranges vec)
unfolding shell_pass
shell_pass-Rearranges zero i gap vec l g = Rearranges-refl vec
shell_pass-Rearranges (suc n) i gap vec l g =
    Returns-bind (shell_sink (i + 1) i gap vec) (λ new. shell_pass n (i + 1) gap new)
      (Rearranges vec) (Rearranges vec)
      (shell_sink-Rearranges (i + 1) i gap vec (omega arith) g (omega (arith, l)))
      (λ new s.
        Returns-imp (shell_pass n (i + 1) gap new) (Rearranges new) (Rearranges vec)
          (shell_pass-Rearranges n (i + 1) gap new (omega (arith, l, s.0)) g)
          (λ r q. Rearranges-trans s q))

-- With the gap 1 the loop over j is that of an insertion.
shell_sink-Sinks :
    (fuel n m : ℕ) (vec : List ℕ)
    → n < fuel
    → n ≤ m
    → m < length vec
    → Hole n m vec
    → Returns (shell_sink fuel n 1 vec) (Sinks m vec)
unfolding shell_sink
shell_sink-Sinks zero n m vec f l o h = absurd (omega arith)
shell_sink-Sinks (suc fuel) zero m vec f l o h = (Rearranges-refl vec, zero-Ordered m vec h)
shell_sink-Sinks (suc fuel) (suc j) m vec f l o h =
    let e : ltb (suc j) 1 ≡ false = ground arith in
    let d : suc j - 1 ≡ j = omega arith in
    let i₁ : suc j < length vec = omega (arith, l, o) in
    let i₂ : j < length vec = omega (arith, l, o) in
    elim (Bool-cases (ltb (value vec (suc j)) (value vec j))) [
      | inl b ↦
          rw (e, d, get_elem?-value vec j i₂, get_elem?-value vec (suc j) i₁, b)
            (Returns-bind (swap vec j (suc j)) (λ new. shell_sink fuel j 1 new)
              (Swapped vec j (suc j)) (Sinks m vec) (swap-Swapped vec j (suc j) i₂ i₁)
              (λ new s.
                Returns-imp (shell_sink fuel j 1 new) (Sinks m new) (Sinks m vec)
                  (shell_sink-Sinks fuel j m new (omega (arith, f)) (omega (arith, l))
                    (omega (arith, o, s.rearranges.0))
                    (move-Hole j m vec h l new s (ground (arith, b))))
                  (λ r q. Sinks-trans m vec new r s.rearranges q)))
      | inr b ↦
          rw (e, d, get_elem?-value vec j i₂, get_elem?-value vec (suc j) i₁, b)
            (shell_sink-Sinks fuel j m vec (omega (arith, f)) (omega (arith, l)) o (
              Ordered-Hole j m vec (omega (arith, l))
                (stay-Ordered j m vec h l (ground (arith, b)))))
    ]

-- The last pass sorts.
last-IsSorted :
    (vec : List ℕ)
    → Returns (shell_pass (length vec - 1) 1 1 vec) (λ new. Rearranges vec new × IsSorted new)
unfolding shell_pass
last-IsSorted vec =
    rounds-IsSorted (λ i v. shell_sink (i + 1) i 1 v) (λ n i v. shell_pass n i 1 v) (λ i v. refl)
      (λ n i v. refl) (λ n m v l o h. shell_sink-Sinks (n + 1) n m v (omega arith) l o h) vec

shell_gaps-IsSorted :
    (fuel gap : ℕ) (vec : List ℕ)
    → gap < fuel
    → 0 < gap
    → gap ≤ length vec
    → Returns (shell_gaps fuel gap vec) (λ new. Rearranges vec new × IsSorted new)
unfolding shell_gaps
shell_gaps-IsSorted zero gap vec f g l = absurd (omega arith)
shell_gaps-IsSorted (suc zero) gap vec f g l = absurd (omega arith)
shell_gaps-IsSorted (suc (suc fuel)) gap vec f g l =
    let e : (gap == 0) ≡ false = ground (arith, g) in
    elim (Bool-cases (gap == 1)) [
      | inl o ↦
          let o' : gap ≡ 1 = ground (arith, o) in
          rw o' (
            Returns-bind (shell_pass (length vec - 1) 1 1 vec) (λ new. shell_gaps (suc fuel) 0 new)
              (λ new. Rearranges vec new × IsSorted new) (λ new. Rearranges vec new × IsSorted new)
              (last-IsSorted vec) (λ new s. s))
      | inr o ↦ rw e (
          Returns-bind (shell_pass (length vec - gap) gap gap vec)
            (λ new. shell_gaps (suc fuel) (gap / 2) new) (Rearranges vec)
            (λ new. Rearranges vec new × IsSorted new)
            (shell_pass-Rearranges (length vec - gap) gap gap vec (omega (arith, l)) g)
            (λ new s.
              Returns-imp (shell_gaps (suc fuel) (gap / 2) new) (λ z. Rearranges new z × IsSorted z)
                (λ z. Rearranges vec z × IsSorted z)
                (shell_gaps-IsSorted (suc fuel) (gap / 2) new (ground (arith, f, g, o))
                  (ground (arith, g, o)) (omega (arith, l, s.0)))
                (λ z w. (Rearranges-trans s w.0, w.1))))
    ]

-- `shellSort1` ends without an access out of bounds, and leaves the same elements in ascending order.
pub shell_sort-IsSorted :
    (vec : List ℕ) → Returns (shell_sort vec) (λ new. Rearranges vec new × IsSorted new)
unfolding shell_sort shell_gaps
shell_sort-IsSorted vec = elim (le_or_lt (length vec) 1) [
  | inl l ↦
      let e : length vec / 2 ≡ 0 = omega (arith, l) in
      let o : length vec + 1 ≡ suc (length vec) = omega arith in
      rw (e, o)
        (
          Rearranges-refl vec,
          λ i j p q. let f : i ≡ j = omega (arith, p, q, l) in rw f (omega arith),
        )
  | inr l ↦
      shell_gaps-IsSorted (length vec + 1) (length vec / 2) vec (omega arith) (omega (arith, l))
        (omega arith)
]
