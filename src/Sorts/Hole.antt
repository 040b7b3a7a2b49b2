-- ===== src/Sorts/Hole.antt =====
-- cpp/sort/insertSort.cpp and shellSort.cpp: a vector in order but for one element, and the loop that
-- makes one longer and longer prefix ordered.
use language_test.Prelude.{
  ℕ, zero, suc, ◌+◌, ◌-◌, ◌<◌, ◌≤◌, ◌≡◌, ◌≢◌, sym, [], ◌∷◌, Bool-cases, inl, inr, Option, some,
  List, ◌==◌, ◌>>=◌, length, arith, Returns, Returns-bind, Returns-imp,
}
use language_test.Vector.{
  value, IsSorted, Swapped, partner, Rearranges, Rearranges-refl, Rearranges-trans,
}

-- The elements up to m are in order.
abbrev pub Ordered : ℕ → List ℕ → Type 0
Ordered m vec = (a b : ℕ) → a ≤ b → b ≤ m → value vec a ≤ value vec b

-- The elements up to m are in order but for the one at n, which is not above those on its right.
pub record Hole (n m : ℕ) (vec : List ℕ) : Type 0 where
  others : (a b : ℕ) → a ≤ b → b ≤ m → a ≢ n → b ≢ n → value vec a ≤ value vec b
  right : (b : ℕ) → n < b → b ≤ m → value vec n ≤ value vec b

pub Ordered-Hole : (n m : ℕ) (vec : List ℕ) → n ≤ m → Ordered m vec → Hole n m vec
Ordered-Hole n m vec l h = record {
  others = λ a b p q r s. h a b p q;
  right = λ b p q. h n b (omega (arith, p)) q;
}

last-Hole : (m : ℕ) (vec : List ℕ) → Ordered m vec → Hole (suc m) (suc m) vec
last-Hole m vec h = record {
  others = λ a b p q r s. h a b p (ground (arith, q, s));
  right = λ b p q. absurd (omega (arith, p, q));
}

pub zero-Ordered : (m : ℕ) (vec : List ℕ) → Hole zero m vec → Ordered m vec
zero-Ordered m vec h zero zero p q = omega arith
zero-Ordered m vec h zero (suc b) p q = h.right (suc b) (omega arith) q
zero-Ordered m vec h (suc a) zero p q = absurd (omega arith)
zero-Ordered m vec h (suc a) (suc b) p q =
    h.others (suc a) (suc b) p q (λ e. omega (arith, e)) (λ e. omega (arith, e))

module _ (j m : ℕ) (vec : List ℕ) (h : Hole (suc j) m vec) (l : suc j ≤ m) where
  -- The element stays where the one before is not above it.
  pub stay-Ordered : value vec j ≤ value vec (suc j) → Ordered m vec
  stay-Ordered k a b p q = elim (Bool-cases (b == suc j)) [
    | inl e ↦ elim (Bool-cases (a == suc j)) [
      | inl f ↦ let o : a ≡ b = ground (arith, e, f) in rw o (omega arith)
      | inr f ↦
          let o : b ≡ suc j = ground (arith, e) in
          let g : value vec a ≤ value vec j =
            h.others a j (ground (arith, p, e, f)) (omega (arith, l)) (λ w. ground (arith, w, f))
              (λ w. omega (arith, w)) in
          rw o (omega (arith, g, k))
    ]
    | inr e ↦ elim (Bool-cases (a == suc j)) [
      | inl f ↦
          let o : a ≡ suc j = ground (arith, f) in rw o (h.right b (ground (arith, e, f, p)) q)
      | inr f ↦ h.others a b p q (λ w. ground (arith, w, f)) (λ w. ground (arith, w, e))
    ]
  ]

  -- Otherwise it moves one to the left.
  pub move-Hole :
      (new : List ℕ) → Swapped vec j (suc j) new → value vec (suc j) < value vec j → Hole j m new
  move-Hole new s k = record {
    others = λ a b p q r t.
        rw (s.moved a, s.moved b)
          (h.others (partner j (suc j) a) (partner j (suc j) b) (ground (arith, p, r, t))
            (ground (arith, q, l, t)) (ground (arith, r)) (ground (arith, t)));
    right = λ b p q.
        let e : partner j (suc j) j ≡ suc j = ground arith in
        elim (Bool-cases (b == suc j)) [
          | inl w ↦
              let f : partner j (suc j) b ≡ j = ground (arith, w) in
              rw (s.moved j, s.moved b, e, f) (omega (arith, k))
          | inr w ↦
              let f : partner j (suc j) b ≡ b = ground (arith, w, p) in
              rw (s.moved j, s.moved b, e, f) (h.right b (ground (arith, p, w)) q)
        ];
  }

-- What an inner loop gives: the same elements, those up to m in order.
abbrev pub Sinks : ℕ → List ℕ → List ℕ → Type 0
Sinks m vec new = Rearranges vec new × Ordered m new

pub Sinks-trans : (m : ℕ) (xs ys zs : List ℕ) → Rearranges xs ys → Sinks m ys zs → Sinks m xs zs
Sinks-trans m xs ys zs p q = (Rearranges-trans p q.0, q.1)

-- An outer loop from the index m + 1, with the number of rounds left.
module _ (inner : ℕ → List ℕ → Option (List ℕ)) (loop : ℕ → ℕ → List ℕ → Option (List ℕ))
    (done : (i : ℕ) (vec : List ℕ) → loop zero i vec ≡ some vec)
    (round : (n i : ℕ) (vec : List ℕ)
      → loop (suc n) i vec ≡ (inner i vec >>= λ new. loop n (i + 1) new))
    (inner-Sinks : (n m : ℕ) (vec : List ℕ)
      → n ≤ m
      → m < length vec
      → Hole n m vec
      → Returns (inner n vec) (Sinks m vec)) where
  rounds-Sinks :
      (n m : ℕ) (vec : List ℕ)
      → n + suc m ≡ length vec
      → Ordered m vec
      → Returns (loop n (suc m) vec) (Sinks (n + m) vec)
  rounds-Sinks zero m vec l h =
      let o : 0 + m ≡ m = omega arith in rw (done (suc m) vec, o) (Rearranges-refl vec, h)
  rounds-Sinks (suc n) m vec l h =
      let o : suc m + 1 ≡ suc (suc m) = omega arith in
      let c : n + suc m ≡ suc n + m = omega arith in
      rw (round n (suc m) vec) (
        Returns-bind (inner (suc m) vec) (λ new. loop n (suc m + 1) new) (Sinks (suc m) vec)
          (Sinks (suc n + m) vec)
          (inner-Sinks (suc m) (suc m) vec (omega arith) (omega (arith, l)) (last-Hole m vec h))
          (λ new s.
            rw (o, sym c)
              (Returns-imp (loop n (suc (suc m)) new) (Sinks (n + suc m) new)
                (Sinks (n + suc m) vec) (rounds-Sinks n (suc m) new (omega (arith, l, s.0.0)) s.1)
                (λ r q. Sinks-trans (n + suc m) vec new r s.0 q))))

  pub rounds-IsSorted :
      (vec : List ℕ)
      → Returns (loop (length vec - 1) 1 vec) (λ new. Rearranges vec new × IsSorted new)
  rounds-IsSorted [] = rw (done 1 []) (Rearranges-refl [], λ i j p q. absurd (omega (arith, q)))
  rounds-IsSorted (x ∷ vec) =
      let e : length vec + 0 ≡ length vec = omega arith in
      let c : suc (length vec) - 1 ≡ length vec = omega arith in
      rw c (
        Returns-imp (loop (length vec) 1 (x ∷ vec)) (Sinks (length vec + 0) (x ∷ vec))
          (λ new. Rearranges (x ∷ vec) new × IsSorted new)
          (rounds-Sinks (length vec) 0 (x ∷ vec) (omega arith) (λ a b p q.
            let f : a ≡ 0 = omega (arith, p, q) in
            let g : b ≡ 0 = omega (arith, q) in rw (f, g) (omega arith)))
          (λ r s. (s.0, λ i j p q. s.1 i j p (omega (arith, q, s.0.0, e)))))
