-- ===== src/Sorts/Quick/Partition.antt =====
-- cpp/sort/quick_sort.cpp: `partition` puts the pivot between the elements not above and those above it.
use language_test.Prelude.{
  ℕ, zero, suc, ◌+◌, ◌-◌, ◌%◌, ◌<◌, ◌≤◌, ◌≡◌, ◌⊎◌, refl, ap, ◌∙◌, Bool-cases, inl, inr, some, List,
  leb, ◌==◌, ◌>>=◌, get_elem?, length, arith, le_or_lt, Returns, Returns-bind, Returns-imp,
}
use language_test.Vector.{
  value, swap, Swapped, swap-Swapped, partner, Rearranges, Rearranges-refl, Rearranges-trans,
  get_elem?-value,
}
use language_test.Sorts.Quick.{part_loop, partition}

-- `new` has the elements of `vec`, and only those from l up to `end` are in another order.
pub record Within (l end : ℕ) (vec new : List ℕ) : Type 0 where
  pub rearranges : Rearranges vec new
  pub outside : (k : ℕ) → (k < l) ⊎ (end ≤ k) → value new k ≡ value vec k
  pub inside :
      (k : ℕ) → l ≤ k → k < end → (j : ℕ) × (l ≤ j) × (j < end) × (value new k ≡ value vec j)

pub Within-refl : (l end : ℕ) (vec : List ℕ) → Within l end vec vec
Within-refl l end vec = record {
  rearranges = Rearranges-refl vec;
  outside = λ k p. refl;
  inside = λ k p q. (k, p, q, refl);
}

pub Within-trans :
    (l end : ℕ) (xs ys zs : List ℕ) → Within l end xs ys → Within l end ys zs → Within l end xs zs
Within-trans l end xs ys zs a b = record {
  rearranges = Rearranges-trans a.rearranges b.rearranges;
  outside = λ k p. b.outside k p ∙ a.outside k p;
  inside = λ k p q.
      let (j, u, v, e) = b.inside k p q in let (i, w, x, f) = a.inside j u v in (i, w, x, e ∙ f);
}

Swapped-Within :
    (l end i j : ℕ) (vec new : List ℕ)
    → l ≤ i
    → i < end
    → l ≤ j
    → j < end
    → Swapped vec i j new
    → Within l end vec new
Swapped-Within l end i j vec new p q r t s = record {
  rearranges = s.rearranges;
  outside = λ k h.
      let e : partner i j k ≡ k = elim h [
        | inl w ↦ ground (arith, w, p, r)
        | inr w ↦ ground (arith, w, q, t)
      ] in
      s.moved k ∙ ap (λ x. value vec x) e;
  inside = λ k u v. (partner i j k, ground (arith, p, r, u), ground (arith, q, t, v), s.moved k);
}

-- The state of the loop: up to `store` the elements are not above the pivot, then they are.
record Split (l r big store m_v : ℕ) (vec : List ℕ) : Type 0 where
  order : (l ≤ store) × (store ≤ big) × (big ≤ r)
  fits : r < length vec
  low : (k : ℕ) → l ≤ k → k < store → value vec k ≤ m_v
  high : (k : ℕ) → store ≤ k → k < big → m_v < value vec k
  pivot : value vec r ≡ m_v

module _ (l r big store m_v : ℕ) (vec : List ℕ) (h : Split l r big store m_v vec)
    (b : big < r) where
  above-Split : m_v < value vec big → Split l r (big + 1) store m_v vec
  above-Split g = record {
    order = (h.order.0, omega (arith, h.order.1), omega (arith, b));
    fits = h.fits;
    low = h.low;
    high = λ k p q. elim (le_or_lt big k) [
      | inl w ↦ let o : k ≡ big = omega (arith, w, q) in rw o g
      | inr w ↦ h.high k p w
    ];
    pivot = h.pivot;
  }

  below-Split :
      (new : List ℕ)
      → Swapped vec store big new
      → value vec big ≤ m_v
      → Split l r (big + 1) (store + 1) m_v new
  below-Split new s g =
      let l' : l ≤ store = h.order.0 in
      let o : store ≤ big = h.order.1 in
      let end : partner store big r ≡ r = ground (arith, o, b) in
      let first : partner store big store ≡ big = ground arith in
      record {
        order = (omega (arith, l'), omega (arith, o), omega (arith, b));
        fits = omega (arith, h.fits, s.rearranges.0);
        low = λ k p q. elim (Bool-cases (k == store)) [
          | inl e ↦ let k' : k ≡ store = ground (arith, e) in rw (k', s.moved store, first) g
          | inr e ↦
              let f : partner store big k ≡ k = ground (arith, e, q, o) in
              rw (s.moved k, f) (h.low k p (ground (arith, e, q)))
        ];
        high = λ k p q.
            let f : store ≤ partner store big k = ground (arith, p, o) in
            let f' : partner store big k < big = ground (arith, p, q, o) in
            rw (s.moved k) (h.high (partner store big k) f f');
        pivot = s.moved r ∙ ap (λ x. value vec x) end ∙ h.pivot;
      }

part_loop-Split :
    (n l r big store m_v : ℕ) (vec : List ℕ)
    → n + big ≡ r
    → Split l r big store m_v vec
    → Returns
        (part_loop n big store m_v vec)
        (λ s. Within l (r + 1) vec (s.0) × Split l r r (s.1) m_v (s.0))
unfolding part_loop
part_loop-Split zero l r big store m_v vec e h =
    let o : big ≡ r = omega (arith, e) in (Within-refl l (r + 1) vec, rw o at h)
part_loop-Split (suc n) l r big store m_v vec e h =
    let b : big < r = omega (arith, e) in
    let o : (l ≤ store) × (store ≤ big) × (big ≤ r) = h.order in
    let x = value vec big in
    let read = get_elem?-value vec big (omega (arith, b, h.fits)) in
    elim (Bool-cases (leb x m_v)) [
      | inl c ↦
          rw (read, c)
            (Returns-bind (swap vec store big >>= λ new. some (new, store + 1))
              (λ s. part_loop n (big + 1) (s.1) m_v (s.0))
              (λ s. Within l (r + 1) vec (s.0) × Split l r (big + 1) (s.1) m_v (s.0))
              (λ s. Within l (r + 1) vec (s.0) × Split l r r (s.1) m_v (s.0))
              (Returns-bind (swap vec store big) (λ new. some (new, store + 1))
                (Swapped vec store big)
                (λ s. Within l (r + 1) vec (s.0) × Split l r (big + 1) (s.1) m_v (s.0))
                (swap-Swapped vec store big (omega (arith, o.1, b, h.fits))
                  (omega (arith, b, h.fits)))
                (λ new s. (
                  Swapped-Within l (r + 1) store big vec new o.0 (omega (arith, o.1, b))
                      (omega (arith, o.0, o.1)) (omega (arith, b)) s,
                  below-Split l r big store m_v vec h b new s (ground (arith, c)),
                )))
              (λ s w.
                Returns-imp (part_loop n (big + 1) (s.1) m_v (s.0))
                  (λ t. Within l (r + 1) (s.0) (t.0) × Split l r r (t.1) m_v (t.0))
                  (λ t. Within l (r + 1) vec (t.0) × Split l r r (t.1) m_v (t.0))
                  (part_loop-Split n l r (big + 1) (s.1) m_v (s.0) (omega (arith, e)) w.1)
                  (λ t g. (Within-trans l (r + 1) vec (s.0) (t.0) w.0 g.0, g.1))))
      | inr c ↦
          rw (read, c)
            (part_loop-Split n l r (big + 1) store m_v vec (omega (arith, e))
              (above-Split l r big store m_v vec h b (ground (arith, c))))
    ]

-- What `partition` gives: the elements before the place s are not above the one there, and those
-- behind are not below it.
pub record Parts (l r : ℕ) (vec new : List ℕ) (s : ℕ) : Type 0 where
  pub within : Within l (r + 1) vec new
  pub place : (l ≤ s) × (s ≤ r)
  pub low : (k : ℕ) → l ≤ k → k < s → value new k ≤ value new s
  pub high : (k : ℕ) → s < k → k ≤ r → value new s ≤ value new k

final-Parts :
    (l r s m_v : ℕ) (vec split new : List ℕ)
    → Within l (r + 1) vec split
    → Split l r r s m_v split
    → Swapped split s r new
    → Parts l r vec new s
final-Parts l r s m_v vec split new w h g =
    let a : l ≤ s = h.order.0 in
    let b : s ≤ r = h.order.1 in
    let first : partner s r s ≡ r = ground arith in
    let here : value new s ≡ m_v = g.moved s ∙ ap (λ x. value split x) first ∙ h.pivot in
    record {
      within = Within-trans l (r + 1) vec split new w (
          Swapped-Within l (r + 1) s r split new a (omega (arith, b)) (omega (arith, a, b))
            (omega arith) g);
      place = (a, b);
      low = λ k p q.
          let e : partner s r k ≡ k = ground (arith, q, b) in rw (here, g.moved k, e) (h.low k p q);
      high = λ k p q. elim (Bool-cases (s == r)) [
        | inl e ↦ absurd (ground (arith, e, p, q))
        | inr e ↦
            let f : s ≤ partner s r k = ground (arith, p, b) in
            let f' : partner s r k < r = ground (arith, p, q, e, b) in
            rw (here, g.moved k) (omega (arith, h.high (partner s r k) f f'))
      ];
    }

pub partition-Parts :
    (random : ℕ) (vec : List ℕ) (l r : ℕ)
    → l ≤ r
    → r < length vec
    → Returns (partition random vec l r) (λ s. Parts l r vec (s.0) (s.1))
unfolding partition
partition-Parts random vec l r o f =
    let p = random % (r - l + 1) + l in
    let p' : p ≤ r = omega (arith, o) in
    Returns-bind (swap vec r p)
      (λ chosen. get_elem? chosen r >>= λ m_v.
        part_loop (r - l) l l m_v chosen >>= λ s. swap (s.0) (s.1) r >>= λ new. some (new, s.1))
      (Swapped vec r p) (λ s. Parts l r vec (s.0) (s.1))
      (swap-Swapped vec r p f (omega (arith, p', f)))
      (λ chosen c.
        let size : r < length chosen = omega (arith, f, c.rearranges.0) in
        let m_v = value chosen r in
        rw (get_elem?-value chosen r size) (
          Returns-bind (part_loop (r - l) l l m_v chosen)
            (λ s. swap (s.0) (s.1) r >>= λ new. some (new, s.1))
            (λ s. Within l (r + 1) chosen (s.0) × Split l r r (s.1) m_v (s.0))
            (λ s. Parts l r vec (s.0) (s.1))
            (part_loop-Split (r - l) l r l l m_v chosen (omega (arith, o)) (record {
              order = (omega arith, omega arith, o);
              fits = size;
              low = λ k a b. absurd (omega (arith, a, b));
              high = λ k a b. absurd (omega (arith, a, b));
              pivot = refl;
            }))
            (λ s w.
              Returns-bind (swap (s.0) (s.1) r) (λ new. some (new, s.1)) (Swapped (s.0) (s.1) r)
                (λ t. Parts l r vec (t.0) (t.1))
                (swap-Swapped (s.0) (s.1) r (omega (arith, w.1.order.1, w.1.fits)) w.1.fits)
                (λ new g.
                  final-Parts l r (s.1) m_v vec (s.0) new
                    (Within-trans l (r + 1) vec chosen (s.0)
                      (Swapped-Within l (r + 1) r p vec chosen o (omega arith) (omega arith)
                        (omega (arith, p')) c)
                      w.0)
                    w.1 g))))
