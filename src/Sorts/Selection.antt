-- ===== src/Sorts/Selection.antt =====
-- cpp/sort/selectSort.cpp: `selectSort` sorts; `selectSort2` does not.
use language_test.Prelude.{
  ℕ, zero, suc, ◌+◌, ◌-◌, ◌<◌, ◌≤◌, ◌≡◌, refl, sym, Bool-cases, true, inl, inr, some, List, [], ◌∷◌,
  ltb, leb, ◌>>=◌, length, arith, le_or_lt, Returns, Returns-bind, Returns-imp,
}
use language_test.Vector.{
  value, IsSorted, swap, Swapped, swap-Swapped, partner, Rearranges, Rearranges-refl,
  Rearranges-trans, get_elem?-value,
}
use language_test.Sorts.Defs.{
  select_sort, select_rounds, min_index, select_sort2, select_rounds2, min_index2,
}

-- The elements before i are in order, and none on the right is below them.
abbrev Bottom : ℕ → List ℕ → Type 0
Bottom i vec = (a b : ℕ) → a ≤ b → a < i → b < length vec → value vec a ≤ value vec b

-- The element at m is not above those from i up to j.
record Lowest (i j m : ℕ) (vec : List ℕ) : Type 0 where
  after : i ≤ m
  inside : m < length vec
  least : (k : ℕ) → i ≤ k → k < j → value vec m ≤ value vec k

min_index-Lowest :
    (n i j m : ℕ) (vec : List ℕ)
    → n + j ≡ length vec
    → i ≤ j
    → Lowest i j m vec
    → Returns (min_index n j m vec) (λ r. Lowest i (length vec) r vec)
unfolding min_index
min_index-Lowest zero i j m vec e l h = let o : j ≡ length vec = omega (arith, e) in rw (sym o) h
min_index-Lowest (suc n) i j m vec e l h =
    let x = value vec j in
    let y = value vec m in
    let b : j < length vec = omega (arith, e) in
    elim (Bool-cases (ltb x y)) [
      | inl g ↦
          rw (get_elem?-value vec j b, get_elem?-value vec m h.inside, g)
            (min_index-Lowest n i (j + 1) j vec (omega (arith, e)) (omega (arith, l)) (record {
              after = l;
              inside = b;
              least = λ k p q. elim (le_or_lt j k) [
                | inl w ↦ let o : k ≡ j = omega (arith, w, q) in rw o (omega arith)
                | inr w ↦ let d : x < y = ground (arith, g) in omega (arith, d, h.least k p w)
              ];
            }))
      | inr g ↦
          rw (get_elem?-value vec j b, get_elem?-value vec m h.inside, g)
            (min_index-Lowest n i (j + 1) m vec (omega (arith, e)) (omega (arith, l)) (record {
              after = h.after;
              inside = h.inside;
              least = λ k p q. elim (le_or_lt j k) [
                | inl w ↦ let o : k ≡ j = omega (arith, w, q) in rw o (ground (arith, g))
                | inr w ↦ h.least k p w
              ];
            }))
    ]

exchange-Bottom :
    (i m : ℕ) (vec new : List ℕ)
    → Lowest i (length vec) m vec
    → Swapped vec m i new
    → Bottom i vec
    → Bottom (i + 1) new
exchange-Bottom i m vec new w s h a b p q r =
    let o : i ≤ m = w.after in
    let n : partner m i b < length vec = ground (arith, r, s.rearranges.0, w.inside, o) in
    elim (le_or_lt i a) [
      | inl c ↦
          let e : partner m i a ≡ m = ground (arith, c, q) in
          rw (s.moved a, s.moved b, e) (w.least (partner m i b) (ground (arith, o, c, p)) n)
      | inr c ↦
          let e : partner m i a ≡ a = ground (arith, c, o) in
          rw (s.moved a, s.moved b, e) (h a (partner m i b) (ground (arith, o, c, p)) c n)
    ]

select_rounds-IsSorted :
    (n i : ℕ) (vec : List ℕ)
    → n + i ≡ length vec
    → Bottom i vec
    → Returns (select_rounds n i vec) (λ new. Rearranges vec new × IsSorted new)
unfolding select_rounds
select_rounds-IsSorted zero i vec e h =
    (Rearranges-refl vec, λ a b p q. h a b p (omega (arith, e, p, q)) q)
select_rounds-IsSorted (suc n) i vec e h =
    let b : i < length vec = omega (arith, e) in
    Returns-bind (min_index (length vec - i) i i vec)
      (λ m. swap vec m i >>= λ new. select_rounds n (i + 1) new) (λ m. Lowest i (length vec) m vec)
      (λ new. Rearranges vec new × IsSorted new)
      (min_index-Lowest (length vec - i) i i i vec (omega (arith, b)) (omega arith)
        (record { after = omega arith; inside = b; least = λ k p q. absurd (omega (arith, p, q)) }))
      (λ m w.
        Returns-bind (swap vec m i) (λ new. select_rounds n (i + 1) new) (Swapped vec m i)
          (λ new. Rearranges vec new × IsSorted new) (swap-Swapped vec m i w.inside b)
          (λ new s.
            Returns-imp (select_rounds n (i + 1) new) (λ r. Rearranges new r × IsSorted r)
              (λ r. Rearranges vec r × IsSorted r)
              (select_rounds-IsSorted n (i + 1) new (omega (arith, e, s.rearranges.0))
                (exchange-Bottom i m vec new w s h))
              (λ r q. (Rearranges-trans s.rearranges q.0, q.1))))

-- `selectSort` ends without an access out of bounds, and leaves the same elements in ascending order.
pub select_sort-IsSorted :
    (vec : List ℕ) → Returns (select_sort vec) (λ new. Rearranges vec new × IsSorted new)
unfolding select_sort
select_sort-IsSorted vec =
    select_rounds-IsSorted (length vec) 0 vec (omega arith) (λ a b p q r. absurd (omega (arith, q)))

-- `selectSort2` exchanges the elements of every vector of two, those in order as well.
pub select_sort2-pair : (a b : ℕ) → select_sort2 (a ∷ b ∷ []) ≡ some (b ∷ a ∷ [])
unfolding select_sort2 select_rounds2 min_index2 swap
select_sort2-pair a b = let e : leb b b ≡ true = ground arith in rw e refl
