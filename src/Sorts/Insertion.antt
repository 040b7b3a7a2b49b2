-- ===== src/Sorts/Insertion.antt =====
-- cpp/sort/insertSort.cpp: both insertion sorts sort.
use language_test.Prelude.{
  ℕ, zero, suc, ◌<◌, ◌≤◌, refl, Bool-cases, inl, inr, List, ltb, length, arith, Returns,
  Returns-bind, Returns-imp,
}
use language_test.Vector.{
  value, IsSorted, swap, Swapped, swap-Swapped, Swapped-comm, Rearranges, Rearranges-refl,
  get_elem?-value,
}
use language_test.Sorts.Defs.{insert_sort, insert_rounds, sink, insert_sort2, insert_rounds2, sink2}
use language_test.Sorts.Hole.{
  Hole, Ordered-Hole, zero-Ordered, stay-Ordered, move-Hole, Sinks, Sinks-trans, rounds-IsSorted,
}

sink-Sinks :
    (n m : ℕ) (vec : List ℕ)
    → n ≤ m
    → m < length vec
    → Hole n m vec
    → Returns (sink n vec) (Sinks m vec)
unfolding sink
sink-Sinks zero m vec l o h = (Rearranges-refl vec, zero-Ordered m vec h)
sink-Sinks (suc j) m vec l o h =
    let x = value vec (suc j) in
    let y = value vec j in
    let i₁ : suc j < length vec = omega arith in
    let i₂ : j < length vec = omega arith in
    elim (Bool-cases (ltb x y)) [
      | inl e ↦
          rw (get_elem?-value vec (suc j) i₁, get_elem?-value vec j i₂, e)
            (Returns-bind (swap vec j (suc j)) (λ new. sink j new) (Swapped vec j (suc j))
              (Sinks m vec) (swap-Swapped vec j (suc j) i₂ i₁)
              (λ new s.
                Returns-imp (sink j new) (Sinks m new) (Sinks m vec)
                  (sink-Sinks j m new (omega (arith, l)) (omega (arith, o, s.rearranges.0))
                    (move-Hole j m vec h l new s (ground (arith, e))))
                  (λ r q. Sinks-trans m vec new r s.rearranges q)))
      | inr e ↦
          rw (get_elem?-value vec (suc j) i₁, get_elem?-value vec j i₂, e)
            (Rearranges-refl vec, stay-Ordered j m vec h l (ground (arith, e)))
    ]

sink2-Sinks :
    (n m : ℕ) (vec : List ℕ)
    → n ≤ m
    → m < length vec
    → Hole n m vec
    → Returns (sink2 n vec) (Sinks m vec)
unfolding sink2
sink2-Sinks zero m vec l o h = (Rearranges-refl vec, zero-Ordered m vec h)
sink2-Sinks (suc j) m vec l o h =
    let x = value vec (suc j) in
    let y = value vec j in
    let i₁ : suc j < length vec = omega arith in
    let i₂ : j < length vec = omega arith in
    elim (Bool-cases (ltb x y)) [
      | inl e ↦
          rw (get_elem?-value vec (suc j) i₁, get_elem?-value vec j i₂, e)
            (Returns-bind (swap vec (suc j) j) (λ new. sink2 j new) (Swapped vec (suc j) j)
              (Sinks m vec) (swap-Swapped vec (suc j) j i₁ i₂)
              (λ new s.
                Returns-imp (sink2 j new) (Sinks m new) (Sinks m vec)
                  (sink2-Sinks j m new (omega (arith, l)) (omega (arith, o, s.rearranges.0)) (
                    move-Hole j m vec h l new (Swapped-comm vec new (suc j) j s)
                      (ground (arith, e))))
                  (λ r q. Sinks-trans m vec new r s.rearranges q)))
      | inr e ↦
          rw (get_elem?-value vec (suc j) i₁, get_elem?-value vec j i₂, e)
            (sink2-Sinks j m vec (omega (arith, l)) o (
              Ordered-Hole j m vec (omega (arith, l))
                (stay-Ordered j m vec h l (ground (arith, e)))))
    ]

-- `insertSort` ends without an access out of bounds, and leaves the same elements in ascending order.
pub insert_sort-IsSorted :
    (vec : List ℕ) → Returns (insert_sort vec) (λ new. Rearranges vec new × IsSorted new)
unfolding insert_sort insert_rounds
insert_sort-IsSorted vec =
    rounds-IsSorted sink insert_rounds (λ i v. refl) (λ n i v. refl) sink-Sinks vec

-- So does `insertSort2`.
pub insert_sort2-IsSorted :
    (vec : List ℕ) → Returns (insert_sort2 vec) (λ new. Rearranges vec new × IsSorted new)
unfolding insert_sort2 insert_rounds2
insert_sort2-IsSorted vec =
    rounds-IsSorted sink2 insert_rounds2 (λ i v. refl) (λ n i v. refl) sink2-Sinks vec
