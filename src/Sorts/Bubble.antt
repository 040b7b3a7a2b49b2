-- ===== src/Sorts/Bubble.antt =====
-- cpp/sort/bubleSort.cpp: the bubble sorts sort.
use language_test.Prelude.{
  ℕ, zero, suc, ◌+◌, ◌-◌, ◌^◌, ◌<◌, ◌≤◌, ◌≡◌, refl, sym, ap, ◌∙◌, Bool-cases, inl, inr, Option,
  some, List, [], ◌∷◌, ltb, ◌==◌, ◌>>=◌, length, arith, le_or_lt, Returns, Returns-bind,
  Returns-imp,
}
use language_test.Vector.{
  value, IsSorted, swap, Swapped, swap-Swapped, Swapped-Top, Top, Top-IsSorted, partner, Rearranges,
  Rearranges-refl, Rearranges-trans, get_elem?-value,
}
use language_test.Sorts.Defs.{
  bubble_sort, bubble_rounds, bubble_pass, bubble_sort5, bubble_rounds5, sub_size,
}

-- None before j is above the one at j.
abbrev Highest : ℕ → List ℕ → Type 0
Highest j vec = (k : ℕ) → k ≤ j → value vec k ≤ value vec j

Highest-Top : (u : ℕ) (vec : List ℕ) → Top (suc u) vec → Highest u vec → Top u vec
Highest-Top u vec h k a b p q r = elim (le_or_lt b u) [
  | inl l ↦ let e : b ≡ u = omega (arith, l, q) in rw e (k a (omega (arith, p, e)))
  | inr l ↦ h a b p l r
]

module _ (j u : ℕ) (vec : List ℕ) (l : j < u) where
  exchange-Highest :
      (new : List ℕ)
      → Swapped vec j (j + 1) new
      → value vec (j + 1) < value vec j
      → Highest j vec
      → Highest (j + 1) new
  exchange-Highest new s g h k p =
      let e : partner j (j + 1) (j + 1) ≡ j = ground arith in
      elim (Bool-cases (k == j)) [
        | inl w ↦
            let f : partner j (j + 1) k ≡ j + 1 = ground (arith, w) in
            rw (s.moved k, s.moved (j + 1), e, f) (omega (arith, g))
        | inr w ↦
            rw (s.moved k, s.moved (j + 1), e) (h (partner j (j + 1) k) (ground (arith, p, w)))
      ]

  stay-Highest : value vec j ≤ value vec (j + 1) → Highest j vec → Highest (j + 1) vec
  stay-Highest g h k p = elim (le_or_lt k j) [
    | inl w ↦ omega (arith, g, h k w)
    | inr w ↦ let e : k ≡ j + 1 = omega (arith, w, p) in rw e (omega arith)
  ]

-- What a pass gives: the same elements, with those from u on at their places.
abbrev Rises : ℕ → List ℕ → List ℕ → Type 0
Rises u vec new = Rearranges vec new × Top u new

Rises-trans : (u : ℕ) (xs ys zs : List ℕ) → Rearranges xs ys → Rises u ys zs → Rises u xs zs
Rises-trans u xs ys zs p q = (Rearranges-trans p q.0, q.1)

bubble_pass-Rises :
    (n j u : ℕ) (vec : List ℕ)
    → n + j ≡ u
    → u < length vec
    → Top (suc u) vec
    → Highest j vec
    → Returns (bubble_pass n j vec) (Rises u vec)
unfolding bubble_pass
bubble_pass-Rises zero j u vec e l h k =
    let o : j ≡ u = omega (arith, e) in (Rearranges-refl vec, Highest-Top u vec h (rw (sym o) k))
bubble_pass-Rises (suc n) j u vec e l h k =
    let x = value vec j in
    let y = value vec (j + 1) in
    let o : j < u = omega (arith, e) in
    let i₁ : j < length vec = omega (arith, o, l) in
    let i₂ : j + 1 < length vec = omega (arith, o, l) in
    elim (Bool-cases (ltb y x)) [
      | inl g ↦
          rw (get_elem?-value vec j i₁, get_elem?-value vec (j + 1) i₂, g)
            (Returns-bind (swap vec j (j + 1)) (λ new. bubble_pass n (j + 1) new)
              (Swapped vec j (j + 1)) (Rises u vec) (swap-Swapped vec j (j + 1) i₁ i₂)
              (λ new s.
                Returns-imp (bubble_pass n (j + 1) new) (Rises u new) (Rises u vec)
                  (bubble_pass-Rises n (j + 1) u new (omega (arith, e))
                    (omega (arith, l, s.rearranges.0))
                    (Swapped-Top (suc u) j (j + 1) vec new (omega (arith, o)) (omega (arith, o)) s
                      h)
                    (exchange-Highest j u vec o new s (ground (arith, g)) k))
                  (λ r q. Rises-trans u vec new r s.rearranges q)))
      | inr g ↦
          rw (get_elem?-value vec j i₁, get_elem?-value vec (j + 1) i₂, g)
            (bubble_pass-Rises n (j + 1) u vec (omega (arith, e)) l h
              (stay-Highest j u vec o (ground (arith, g)) k))
    ]

-- The outer loop of either function on vectors of length len.
module _ (len : ℕ) (loop : ℕ → ℕ → List ℕ → Option (List ℕ))
    (done : (i : ℕ) (vec : List ℕ) → loop zero i vec ≡ some vec)
    (round : (n i u : ℕ) (vec : List ℕ)
      → length vec ≡ len
      → i + suc u ≡ len
      → loop (suc n) i vec ≡ (bubble_pass u 0 vec >>= λ new. loop n (i + 1) new)) where
  rounds-Rises :
      (u i : ℕ) (vec : List ℕ)
      → length vec ≡ len
      → i + suc u ≡ len
      → Top (suc u) vec
      → Returns (loop u i vec) (Rises 1 vec)
  rounds-Rises zero i vec l e h = rw (done i vec) (Rearranges-refl vec, h)
  rounds-Rises (suc u) i vec l e h =
      let z : suc u + 0 ≡ suc u = omega arith in
      rw (round u i (suc u) vec l e) (
        Returns-bind (bubble_pass (suc u) 0 vec) (λ new. loop u (i + 1) new) (Rises (suc u) vec)
          (Rises 1 vec)
          (bubble_pass-Rises (suc u) 0 (suc u) vec z (omega (arith, l, e)) h
            (λ k p. let q : k ≡ 0 = omega (arith, p) in rw q (omega arith)))
          (λ new s.
            Returns-imp (loop u (i + 1) new) (Rises 1 new) (Rises 1 vec)
              (rounds-Rises u (i + 1) new (s.0.0 ∙ l) (omega (arith, e)) s.1)
              (λ r q. Rises-trans 1 vec new r s.0 q)))

  rounds-IsSorted :
      (vec : List ℕ)
      → length vec ≡ len
      → 0 < len
      → Returns (loop (len - 1) 0 vec) (λ new. Rearranges vec new × IsSorted new)
  rounds-IsSorted vec l o =
      Returns-imp (loop (len - 1) 0 vec) (Rises 1 vec) (λ new. Rearranges vec new × IsSorted new)
        (rounds-Rises (len - 1) 0 vec l (omega (arith, o))
          (λ a b p q r. absurd (omega (arith, q, r, l, o))))
        (λ r s. (s.0, Top-IsSorted r s.1))

-- `bubbleSort` with the size of the vector ends without an access out of bounds, and leaves the same
-- elements in ascending order.
pub bubble_sort-IsSorted :
    (vec : List ℕ)
    → Returns (bubble_sort vec (length vec)) (λ new. Rearranges vec new × IsSorted new)
unfolding bubble_sort bubble_rounds
bubble_sort-IsSorted [] = (Rearranges-refl [], λ i j p q. absurd (omega (arith, q)))
bubble_sort-IsSorted (x ∷ vec) =
    let len = suc (length vec) in
    rounds-IsSorted len (λ n i v. bubble_rounds n i len v) (λ i v. refl)
      (λ n i u v l e.
        let o : len - i - 1 ≡ u = omega (arith, e) in
        ap (λ k. bubble_pass k 0 v >>= λ new. bubble_rounds n (i + 1) len new) o)
      (x ∷ vec) refl (omega arith)

-- `bubbleSort5` of a vector that is not empty and whose size is a size_t ends without an access out of
-- bounds, and leaves the same elements in ascending order.
pub bubble_sort5-IsSorted :
    (vec : List ℕ)
    → 0 < length vec
    → length vec < 2 ^ 64
    → Returns (bubble_sort5 vec) (λ new. Rearranges vec new × IsSorted new)
unfolding bubble_sort5 bubble_rounds5
bubble_sort5-IsSorted vec h k =
    let len = length vec in
    let c : sub_size len 1 ≡ len - 1 = omega (arith, h, k) in
    rw c (
      rounds-IsSorted len bubble_rounds5 (λ i v. refl)
        (λ n i u v l e.
          let o : sub_size (sub_size (length v) i) 1 ≡ u = omega (arith, l, e, k) in
          ap (λ m. bubble_pass m 0 v >>= λ new. bubble_rounds5 n (i + 1) new) o)
        vec refl h)
