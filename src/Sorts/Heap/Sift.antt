-- ===== src/Sorts/Heap/Sift.antt =====
-- cpp/sort/heapSort.cpp: `heapify` makes a heap of one whose element at `index` may be too low.
use language_test.Prelude.{
  ℕ, zero, suc, ◌+◌, ◌*◌, ◌^◌, true, ltb, ◌<◌, ◌≤◌, ◌≡◌, ◌≢◌, ap, ◌∙◌, Bool-cases, inl, inr, Option,
  some, List, ◌==◌, if◌then◌else◌, ◌>>=◌, length, arith, Returns, Returns-bind, Returns-imp,
}
use language_test.Vector.{
  value, swap, Swapped, swap-Swapped, Swapped-comm, Swapped-Top, Top, partner, Rearranges,
  Rearranges-refl, Rearranges-trans,
}
use language_test.Sorts.Heap.{larger, heapify, heapify2}
use language_test.Sorts.Heap.Pick.{Largest, pick-Returns}

-- No element before `len` is above its parent, where the parent stands from `lo` on.
abbrev pub IsHeap : ℕ → ℕ → List ℕ → Type 0
IsHeap lo len vec =
    (p c : ℕ) → lo ≤ p → p * 2 < c → c ≤ p * 2 + 2 → c < len → value vec c ≤ value vec p

-- The same but for the parent `i`, whose children are not above its own parent.
pub record Almost (lo len i : ℕ) (vec : List ℕ) : Type 0 where
  pub others :
      (p c : ℕ) → lo ≤ p → p ≢ i → p * 2 < c → c ≤ p * 2 + 2 → c < len → value vec c ≤ value vec p
  pub grand :
      (p c : ℕ)
      → lo ≤ p
      → p * 2 < i
      → i ≤ p * 2 + 2
      → i * 2 < c
      → c ≤ i * 2 + 2
      → c < len
      → value vec c ≤ value vec p

module _ (vec : List ℕ) (len i lo : ℕ) (from : lo ≤ i) (a : Almost lo len i vec) where
  -- Where the element is not below its children, the heap is whole.
  whole-IsHeap : Largest len i (i * 2 + 3) i vec → IsHeap lo len vec
  whole-IsHeap h p c q r s t = elim (Bool-cases (p == i)) [
    | inl e ↦
        let o : p ≡ i = ground (arith, e) in
        rw o (h.children c (omega (arith, r, o)) (omega (arith, s, o)) t)
    | inr e ↦ a.others p c q (λ w. ground (arith, w, e)) r s t
  ]

  -- Otherwise the exchange moves the gap to the child.
  module _ (m : ℕ) (new : List ℕ) (h : Largest len i (i * 2 + 3) m vec) (s : Swapped vec i m new)
      (below : i * 2 < m) (near : m ≤ i * 2 + 2) (inner : m < len) where
    at_child : (c : ℕ) → c ≢ i → c ≢ m → value new c ≡ value vec c
    at_child c p q =
        let e : partner i m c ≡ c = ground (arith, p, q) in s.moved c ∙ ap (λ x. value vec x) e

    at_i : value new i ≡ value vec m
    at_i = let e : partner i m i ≡ m = ground arith in s.moved i ∙ ap (λ x. value vec x) e

    at_m : value new m ≡ value vec i
    at_m = let e : partner i m m ≡ i = ground arith in s.moved m ∙ ap (λ x. value vec x) e

    new-others :
        (p c : ℕ) → lo ≤ p → p ≢ m → p * 2 < c → c ≤ p * 2 + 2 → c < len → value new c ≤ value new p
    new-others p c q n r t l = elim (Bool-cases (p == i)) [
      | inl e ↦
          let o : p ≡ i = ground (arith, e) in
          elim (Bool-cases (c == m)) [
            | inl f ↦ let f' : c ≡ m = ground (arith, f) in rw (o, f', at_i, at_m) h.parent
            | inr f ↦
                rw (o, at_i, at_child c (λ w. omega (arith, w, r, o)) (λ w. ground (arith, w, f)))
                  (h.children c (omega (arith, r, o)) (omega (arith, t, o)) l)
          ]
      | inr e ↦
          let n' : p ≢ i = λ w. ground (arith, w, e) in
          elim (Bool-cases (c == i)) [
            | inl f ↦
                let f' : c ≡ i = ground (arith, f) in
                rw (f', at_i, at_child p n' n)
                  (a.grand p m q (omega (arith, r, f')) (omega (arith, t, f')) below near inner)
            | inr f ↦
                let c' : c ≢ m = λ w. n' (omega (arith, w, r, t, below, near)) in
                rw (at_child p n' n, at_child c (λ w. ground (arith, w, f)) c')
                  (a.others p c q n' r t l)
          ]
    ]

    new-Almost : Almost lo len m new
    new-Almost = record {
      others = new-others;
      grand = λ p c q r t u v w.
          let o : p ≡ i = omega (arith, r, t, below, near) in
          rw
            (
              o,
              at_i,
              at_child c (λ e. omega (arith, e, u, below)) (λ e. omega (arith, e, u, below)),
            )
            (a.others m c (omega (arith, from, below)) (λ e. omega (arith, e, below)) u v w);
    }

-- What `heapify` gives: the same elements as a heap, with those from `len` on at their places.
abbrev pub Sifts : ℕ → ℕ → List ℕ → List ℕ → Type 0
Sifts lo len vec new = Rearranges vec new × IsHeap lo len new × (Top len vec → Top len new)

Sifts-trans :
    (lo len : ℕ) (xs ys zs : List ℕ)
    → Rearranges xs ys
    → (Top len xs → Top len ys)
    → Sifts lo len ys zs
    → Sifts lo len xs zs
Sifts-trans lo len xs ys zs p t q = (Rearranges-trans p q.0, q.1, λ h. q.2 (t h))

-- One round, whatever exchange it makes and whatever follows.
module _ (lo len i : ℕ) (vec : List ℕ) (inside : i < len) (fits : len ≤ length vec) (from : lo ≤ i)
    (a : Almost lo len i vec) (exchange : ℕ → Option (List ℕ))
    (exchange-Swapped : (m : ℕ) → m < len → Returns (exchange m) (Swapped vec i m))
    (next : ℕ → List ℕ → Option (List ℕ))
    (next-Sifts : (m : ℕ) (new : List ℕ)
      → i < m
      → m < len
      → len ≤ length new
      → Almost lo len m new
      → Returns (next m new) (Sifts lo len new)) where
  chosen-Sifts :
      (m : ℕ)
      → Largest len i (i * 2 + 3) m vec
      → Returns (if m == i then some vec else (exchange m >>= λ new. next m new)) (Sifts lo len vec)
  chosen-Sifts m h = elim (Bool-cases (m == i)) [
    | inl e ↦
        let o : m ≡ i = ground (arith, e) in
        rw e (Rearranges-refl vec, whole-IsHeap vec len i lo from a (rw o at h), λ t. t)
    | inr e ↦ elim h.place [
      | inr o ↦ absurd (ground (arith, e, o))
      | inl (p, q, r) ↦ rw e (
          Returns-bind (exchange m) (λ new. next m new) (Swapped vec i m) (Sifts lo len vec)
            (exchange-Swapped m r)
            (λ new s.
              Returns-imp (next m new) (Sifts lo len new) (Sifts lo len vec)
                (next-Sifts m new (omega (arith, p)) r (omega (arith, fits, s.rearranges.0))
                  (new-Almost vec len i lo from a m new h s p q r))
                (λ z w.
                  Sifts-trans lo len vec new z s.rearranges (Swapped-Top len i m vec new inside r s)
                    w)))
    ]
  ]

  round-Sifts :
      Returns
        (larger vec len (i * 2 + 1) i >>= λ m. larger vec len (i * 2 + 2) m >>= λ m.
          if m == i then some vec else (exchange m >>= λ new. next m new))
        (Sifts lo len vec)
  round-Sifts =
      pick-Returns vec len i inside fits
        (λ m. if m == i then some vec else (exchange m >>= λ new. next m new)) (Sifts lo len vec)
        chosen-Sifts

pub heapify-Sifts :
    (fuel lo len i : ℕ) (vec : List ℕ)
    → len < fuel + i
    → i < len
    → len ≤ length vec
    → lo ≤ i
    → Almost lo len i vec
    → len < 2 ^ 30
    → Returns (heapify fuel vec i len) (Sifts lo len vec)
unfolding heapify
heapify-Sifts zero lo len i vec f h l o a small = absurd (omega arith)
heapify-Sifts (suc fuel) lo len i vec f h l o a small =
    let e : ltb (i * 2 + 2) (2 ^ 31) ≡ true = ground (arith, h, small) in
    rw e (
      round-Sifts lo len i vec h l o a (λ m. swap vec i m)
        (λ m r. swap-Swapped vec i m (omega (arith, h, l)) (omega (arith, r, l)))
        (λ m new. heapify fuel new m len)
        (λ m new p q r b.
          heapify-Sifts fuel lo len m new (omega (arith, f, p)) q r (omega (arith, o, p)) b small))

pub heapify2-Sifts :
    (fuel len : ℕ) (vec : List ℕ)
    → len < fuel
    → 0 < len
    → len ≤ length vec
    → Almost 0 len 0 vec
    → len < 2 ^ 30
    → Returns (heapify2 fuel vec 0 len) (Sifts 0 len vec)
unfolding heapify2
heapify2-Sifts fuel len vec f h l a small =
    round-Sifts 0 len 0 vec h l (omega arith) a (λ m. swap vec m 0)
      (λ m r.
        Returns-imp (swap vec m 0) (Swapped vec m 0) (Swapped vec 0 m)
          (swap-Swapped vec m 0 (omega (arith, r, l)) (omega (arith, h, l)))
          (λ new s. Swapped-comm vec new m 0 s))
      (λ m new. heapify fuel new m len)
      (λ m new p q r b. heapify-Sifts fuel 0 len m new (omega (arith, f)) q r (omega arith) b small)
