-- ===== src/Sorts/Heap/Pick.antt =====
-- cpp/sort/heapSort.cpp: the two tests of `heapify` choose the greatest of an element and its children.
use language_test.Prelude.{
  ℕ, ◌+◌, ◌*◌, ◌<◌, ◌≤◌, ◌≡◌, ◌⊎◌, refl, Bool-cases, true, false, inl, inr, Option, List, ltb,
  ◌>>=◌, length, arith, le_or_lt, Returns, Returns-bind,
}
use language_test.Vector.{value, get_elem?-value}
use language_test.Sorts.Heap.{larger}

-- The greatest so far of the element at `i` and its children before the bound.
pub record Largest (len i bound m : ℕ) (vec : List ℕ) : Type 0 where
  pub place : (i * 2 < m) × (m ≤ i * 2 + 2) × (m < len) ⊎ (m ≡ i)
  pub parent : value vec i ≤ value vec m
  pub children : (c : ℕ) → i * 2 < c → c < bound → c < len → value vec c ≤ value vec m

module _ (vec : List ℕ) (len i : ℕ) (inside : i < len) (fits : len ≤ length vec) where
  Largest-bound : (m bound : ℕ) → Largest len i bound m vec → m < length vec
  Largest-bound m bound h = elim h.place [
    | inl p ↦ omega (arith, p.2, fits)
    | inr p ↦ omega (arith, p, inside, fits)
  ]

  larger-Largest :
      (child m : ℕ)
      → i * 2 < child
      → child ≤ i * 2 + 2
      → Largest len i child m vec
      → Returns (larger vec len child m) (λ r. Largest len i (child + 1) r vec)
  unfolding larger
  larger-Largest child m l g h =
      let y = value vec m in
      let n = Largest-bound m child h in
      elim (le_or_lt len child) [
        | inl o ↦
            let e : ltb child len ≡ false = ground (arith, o) in
            rw e (record {
              place = h.place;
              parent = h.parent;
              children = λ c p q r. h.children c p (omega (arith, o, r)) r;
            })
        | inr o ↦
            let e : ltb child len ≡ true = ground (arith, o) in
            let x = value vec child in
            elim (Bool-cases (ltb y x)) [
              | inl b ↦
                  let d : y < x = ground (arith, b) in
                  rw
                    (
                      e,
                      get_elem?-value vec child (omega (arith, o, fits)),
                      get_elem?-value vec m n,
                      b,
                    )
                    (record {
                      place = inl (l, g, o);
                      parent = omega (arith, d, h.parent);
                      children = λ c p q r. elim (le_or_lt child c) [
                        | inl w ↦ let f : c ≡ child = omega (arith, w, q) in rw f (omega arith)
                        | inr w ↦ omega (arith, d, h.children c p w r)
                      ];
                    })
              | inr b ↦
                  rw
                    (
                      e,
                      get_elem?-value vec child (omega (arith, o, fits)),
                      get_elem?-value vec m n,
                      b,
                    )
                    (record {
                      place = h.place;
                      parent = h.parent;
                      children = λ c p q r. elim (le_or_lt child c) [
                        | inl w ↦
                            let f : c ≡ child = omega (arith, w, q) in rw f (ground (arith, b))
                        | inr w ↦ h.children c p w r
                      ];
                    })
            ]
      ]

  -- After the two tests.
  pub pick-Returns :
      (k : ℕ → Option (List ℕ)) (Q : List ℕ → Type 0)
      → ((m : ℕ) → Largest len i (i * 2 + 3) m vec → Returns (k m) Q)
      → Returns (larger vec len (i * 2 + 1) i >>= λ m. larger vec len (i * 2 + 2) m >>= k) Q
  pick-Returns k Q f =
      let o : i * 2 + 1 + 1 ≡ i * 2 + 2 = omega arith in
      let o' : i * 2 + 2 + 1 ≡ i * 2 + 3 = omega arith in
      Returns-bind (larger vec len (i * 2 + 1) i) (λ m. larger vec len (i * 2 + 2) m >>= k)
        (λ m. Largest len i (i * 2 + 1 + 1) m vec) Q
        (larger-Largest (i * 2 + 1) i (omega arith) (omega arith) (record {
          place = inr refl;
          parent = omega arith;
          children = λ c p q r. absurd (omega (arith, p, q));
        }))
        (λ m h.
          Returns-bind (larger vec len (i * 2 + 2) m) k (λ r. Largest len i (i * 2 + 2 + 1) r vec) Q
            (larger-Largest (i * 2 + 2) m (omega arith) (omega arith) (rw o at h))
            (λ r g. f r (rw o' at g)))
