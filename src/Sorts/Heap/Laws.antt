-- ===== src/Sorts/Heap/Laws.antt =====
-- cpp/sort/heapSort.cpp: `heapSort` sorts.
use language_test.Prelude.{
  ℕ, zero, suc, ◌+◌, ◌-◌, ◌*◌, ◌/◌, ◌^◌, ◌<◌, ◌≤◌, ◌≡◌, ◌≢◌, sym, ap, ◌∙◌, Bool-cases, inl, inr,
  List, [], ◌∷◌, ◌==◌, ◌>>=◌, length, arith, Returns, Returns-bind, Returns-imp,
}
use language_test.Vector.{
  value, IsSorted, swap, Swapped, swap-Swapped, Top, Top-IsSorted, partner, Rearranges,
  Rearranges-refl, Rearranges-trans,
}
use language_test.Sorts.Heap.{heapify, heapify2, build, drain, heap_sort}
use language_test.Sorts.Heap.Sift.{IsHeap, Almost, Sifts, heapify-Sifts, heapify2-Sifts}

-- A heap from i + 1 on, before `heapify` of i.
IsHeap-Almost : (i len : ℕ) (vec : List ℕ) → IsHeap (suc i) len vec → Almost i len i vec
IsHeap-Almost i len vec h = record {
  others = λ p c q n r s t. h p c (ground (arith, q, n)) r s t;
  grand = λ p c q r s t u v. absurd (omega (arith, q, r));
}

-- The elements of the second half have no children.
half-IsHeap : (vec : List ℕ) → IsHeap (length vec / 2) (length vec) vec
half-IsHeap vec p c q r s t = absurd (omega (arith, q, r, t))

build-IsHeap :
    (i : ℕ) (vec : List ℕ)
    → i * 2 ≤ length vec
    → IsHeap i (length vec) vec
    → length vec < 2 ^ 30
    → Returns (build i vec) (λ new. Rearranges vec new × IsHeap 0 (length new) new)
unfolding build
build-IsHeap zero vec l h small = (Rearranges-refl vec, h)
build-IsHeap (suc i) vec l h small =
    let len = length vec in
    Returns-bind (heapify (len + 1) vec i len) (λ new. build i new) (Sifts i len vec)
      (λ new. Rearranges vec new × IsHeap 0 (length new) new)
      (heapify-Sifts (len + 1) i len i vec (omega arith) (omega arith) (omega arith) (omega arith)
        (IsHeap-Almost i len vec h) small)
      (λ new s.
        Returns-imp (build i new) (λ z. Rearranges new z × IsHeap 0 (length z) z)
          (λ z. Rearranges vec z × IsHeap 0 (length z) z)
          (build-IsHeap i new (omega (arith, l, s.0.0)) (rw (s.0.0) (s.1))
            (omega (arith, small, s.0.0)))
          (λ z w. (Rearranges-trans s.0 w.0, w.1)))

-- The root of a heap is not below any element.
root_highest :
    (bound len : ℕ) (vec : List ℕ)
    → IsHeap 0 len vec
    → (k : ℕ) → k < bound
    → k < len
    → value vec k ≤ value vec 0
root_highest zero len vec h k b l = absurd (omega arith)
root_highest (suc bound) len vec h zero b l = omega arith
root_highest (suc bound) len vec h (suc k) b l =
    let p = k / 2 in
    let up : value vec (suc k) ≤ value vec p =
      h p (suc k) (omega arith) (omega arith) (omega arith) l in
    omega (arith, up, root_highest bound len vec h p (omega arith) (omega arith))

module _ (i : ℕ) (vec new : List ℕ) (l : suc i < length vec) (s : Swapped vec 0 (suc i) new)
    (h : IsHeap 0 (suc (suc i)) vec) where
  moved_in : (k : ℕ) → k ≢ 0 → k < suc i → value new k ≡ value vec k
  moved_in k p q =
      let e : partner 0 (suc i) k ≡ k = ground (arith, p, q) in s.moved k ∙ ap (λ x. value vec x) e

  swapped-Almost : Almost 0 (suc i) 0 new
  swapped-Almost = record {
    others = λ p c q n r t u.
        rw (moved_in c (λ e. omega (arith, e, r)) u, moved_in p n (omega (arith, r, u)))
          (h p c q r t (omega (arith, u)));
    grand = λ p c q r t u v w. absurd (omega (arith, r));
  }

  swapped-Top : Top (suc (suc i)) vec → Top (suc i) new
  swapped-Top t a b p q r = elim (Bool-cases (b == suc i)) [
    | inl e ↦
        let o : b ≡ suc i = ground (arith, e) in
        let f : partner 0 (suc i) (suc i) ≡ 0 = ground arith in
        let n : partner 0 (suc i) a < suc (suc i) = ground (arith, p, o) in
        rw (o, s.moved a, s.moved (suc i), f)
          (root_highest (suc (suc i)) (suc (suc i)) vec h (partner 0 (suc i) a) n n)
    | inr e ↦
        let f : partner 0 (suc i) b ≡ b = ground (arith, q, e) in
        rw (s.moved a, s.moved b, f)
          (t (partner 0 (suc i) a) b (ground (arith, p, q, e)) (ground (arith, q, e))
            (omega (arith, r, s.rearranges.0)))
  ]

drain-Top :
    (i : ℕ) (vec : List ℕ)
    → i < length vec
    → IsHeap 0 (suc i) vec
    → Top (suc i) vec
    → length vec < 2 ^ 30
    → Returns (drain i vec) (λ new. Rearranges vec new × Top 1 new)
unfolding drain
drain-Top zero vec l h t small = (Rearranges-refl vec, t)
drain-Top (suc i) vec l h t small =
    Returns-bind (swap vec 0 (suc i))
      (λ swapped. heapify2 (length vec + 1) swapped 0 (suc i) >>= λ new. drain i new)
      (Swapped vec 0 (suc i)) (λ new. Rearranges vec new × Top 1 new)
      (swap-Swapped vec 0 (suc i) (omega (arith, l)) l)
      (λ swapped s.
        let size = s.rearranges.0 in
        Returns-bind (heapify2 (length vec + 1) swapped 0 (suc i)) (λ new. drain i new)
          (Sifts 0 (suc i) swapped) (λ new. Rearranges vec new × Top 1 new)
          (heapify2-Sifts (length vec + 1) (suc i) swapped (omega (arith, l)) (omega arith)
            (omega (arith, l, size)) (swapped-Almost i vec swapped l s h) (omega (arith, small, l)))
          (λ new g.
            Returns-imp (drain i new) (λ z. Rearranges new z × Top 1 z)
              (λ z. Rearranges vec z × Top 1 z)
              (drain-Top i new (omega (arith, l, size, g.0.0)) g.1
                (g.2 (swapped-Top i vec swapped l s h t)) (omega (arith, small, size, g.0.0)))
              (λ z w. (Rearranges-trans s.rearranges (Rearranges-trans g.0 w.0), w.1))))

drain-IsSorted :
    (vec : List ℕ)
    → IsHeap 0 (length vec) vec
    → length vec < 2 ^ 30
    → Returns (drain (length vec - 1) vec) (λ new. Rearranges vec new × IsSorted new)
unfolding drain
drain-IsSorted [] h small = (Rearranges-refl [], λ i j p q. absurd (omega (arith, q)))
drain-IsSorted (x ∷ xs) h small =
    let o : suc (length xs) - 1 ≡ length xs = omega arith in
    rw o (
      Returns-imp (drain (length xs) (x ∷ xs)) (λ z. Rearranges (x ∷ xs) z × Top 1 z)
        (λ new. Rearranges (x ∷ xs) new × IsSorted new)
        (drain-Top (length xs) (x ∷ xs) (omega arith) h (λ a b p q r. absurd (omega (arith, q, r)))
          small)
        (λ z w. (w.0, Top-IsSorted z w.1)))

-- On less than 2^30 elements, `heapSort` ends without an overflow or an access out of bounds, and leaves
-- the same elements in ascending order.
pub heap_sort-IsSorted :
    (vec : List ℕ)
    → length vec < 2 ^ 30
    → Returns (heap_sort vec) (λ new. Rearranges vec new × IsSorted new)
unfolding heap_sort
heap_sort-IsSorted vec small =
    Returns-bind (build (length vec / 2) vec) (λ heap. drain (length vec - 1) heap)
      (λ new. Rearranges vec new × IsHeap 0 (length new) new)
      (λ new. Rearranges vec new × IsSorted new)
      (build-IsHeap (length vec / 2) vec (omega arith) (half-IsHeap vec) small)
      (λ heap h.
        Returns-imp (drain (length vec - 1) heap) (λ z. Rearranges heap z × IsSorted z)
          (λ z. Rearranges vec z × IsSorted z)
          (rw (sym h.0.0) (drain-IsSorted heap h.1 (omega (arith, small, h.0.0))))
          (λ z w. (Rearranges-trans h.0 w.0, w.1)))
