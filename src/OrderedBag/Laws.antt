-- ===== src/OrderedBag/Laws.antt =====
-- How the multiset operations act on the in-order list `xs ++ m ∷ ys` of a tree with root `m`.
use language_test.Prelude.{ℕ, ◌<◌, ◌≤◌, ◌≡◌, refl, ap, false, List, [], ◌∷◌, ◌++◌, arith}
use language_test.OrderedSet.{All, mem, del}
use language_test.OrderedSet.Laws.{All-left, All-right, mem-append}
use language_test.OrderedBag.{AtMost, AtLeast, IsOrdered, put}

pub AtMost-le : {b c : ℕ} (xs : List ℕ) → b ≤ c → AtMost b xs → AtMost c xs
AtMost-le [] h a = tt
AtMost-le (x ∷ xs) h a = (omega arith, AtMost-le xs h a.1)

pub AtLeast-le : {b c : ℕ} (xs : List ℕ) → c ≤ b → AtLeast b xs → AtLeast c xs
AtLeast-le [] h a = tt
AtLeast-le (x ∷ xs) h a = (omega arith, AtLeast-le xs h a.1)

IsOrdered-left : (xs ys : List ℕ) → IsOrdered (xs ++ ys) → IsOrdered xs
IsOrdered-left [] ys s = tt
IsOrdered-left (x ∷ xs) ys s = (All-left (λ y. x ≤ y) xs ys s.0, IsOrdered-left xs ys s.1)

IsOrdered-right : (xs ys : List ℕ) → IsOrdered (xs ++ ys) → IsOrdered ys
IsOrdered-right [] ys s = s
IsOrdered-right (x ∷ xs) ys s = IsOrdered-right xs ys s.1

IsOrdered-AtMost : (xs : List ℕ) (m : ℕ) (ys : List ℕ) → IsOrdered (xs ++ m ∷ ys) → AtMost m xs
IsOrdered-AtMost [] m ys s = tt
IsOrdered-AtMost (x ∷ xs) m ys s =
    ((All-right (λ y. x ≤ y) xs (m ∷ ys) s.0).0, IsOrdered-AtMost xs m ys s.1)

pub record Parts (xs : List ℕ) (m : ℕ) (ys : List ℕ) : Type 0 where
  pub below : AtMost m xs
  pub above : AtLeast m ys
  pub left : IsOrdered xs
  pub right : IsOrdered ys

pub IsOrdered-Parts : (xs : List ℕ) (m : ℕ) (ys : List ℕ) → IsOrdered (xs ++ m ∷ ys) → Parts xs m ys
IsOrdered-Parts xs m ys s =
    let tail = IsOrdered-right xs (m ∷ ys) s in
    record {
      below = IsOrdered-AtMost xs m ys s;
      above = tail.0;
      left = IsOrdered-left xs (m ∷ ys) s;
      right = tail.1;
    }

mem-lt_all : (k m : ℕ) (ys : List ℕ) → k < m → AtLeast m ys → mem k ys ≡ false
unfolding mem
mem-lt_all k m [] h a = refl
mem-lt_all k m (y ∷ ys) h a = ground (arith, mem-lt_all k m ys h a.1)

mem-gt_all : (k m : ℕ) (ys : List ℕ) → m < k → AtMost m ys → mem k ys ≡ false
unfolding mem
mem-gt_all k m [] h a = refl
mem-gt_all k m (y ∷ ys) h a = ground (arith, mem-gt_all k m ys h a.1)

module _ (k m : ℕ) where
  pub mem-lt : (xs ys : List ℕ) → k < m → AtLeast m ys → mem k (xs ++ m ∷ ys) ≡ mem k xs
  unfolding mem
  mem-lt xs ys h a = ground (arith, mem-append k xs (m ∷ ys), mem-lt_all k m ys h a)

  pub mem-gt : (xs ys : List ℕ) → m < k → AtMost m xs → mem k (xs ++ m ∷ ys) ≡ mem k ys
  unfolding mem
  mem-gt xs ys h a = ground (arith, mem-append k xs (m ∷ ys), mem-gt_all k m xs h a)

  pub put-lt : (xs ys : List ℕ) → k < m → put k (xs ++ m ∷ ys) ≡ put k xs ++ m ∷ ys
  unfolding put
  put-lt [] ys h = ground arith
  put-lt (x ∷ xs) ys h = ground (arith, put-lt xs ys h)

  pub put-ge : (xs ys : List ℕ) → m ≤ k → AtMost m xs → put k (xs ++ m ∷ ys) ≡ xs ++ m ∷ put k ys
  unfolding put
  put-ge [] ys h a = ground arith
  put-ge (x ∷ xs) ys h a = ground (arith, put-ge xs ys h a.1)

del-lt_all : (k m : ℕ) (ys : List ℕ) → k < m → AtLeast m ys → del k ys ≡ ys
unfolding del
del-lt_all k m [] h a = refl
del-lt_all k m (y ∷ ys) h a = ground (arith, del-lt_all k m ys h a.1)

-- Keys between `k` and `k` are all `k`.
shift : (k : ℕ) (xs ys : List ℕ) → AtLeast k xs → AtMost k xs → xs ++ k ∷ ys ≡ k ∷ (xs ++ ys)
shift k [] ys a b = refl
shift k (x ∷ xs) ys a b =
    let e : x ≡ k = omega arith in rw e (ap (λ z. k ∷ z) (shift k xs ys a.1 b.1))

module _ (k m : ℕ) where
  pub del-lt : (xs ys : List ℕ) → k < m → AtLeast m ys → del k (xs ++ m ∷ ys) ≡ del k xs ++ m ∷ ys
  unfolding del
  del-lt [] ys h a = ground (arith, del-lt_all k m ys h a)
  del-lt (x ∷ xs) ys h a = ground (arith, del-lt xs ys h a)

  pub del-gt : (xs ys : List ℕ) → m < k → AtMost m xs → del k (xs ++ m ∷ ys) ≡ xs ++ m ∷ del k ys
  unfolding del
  del-gt [] ys h a = ground arith
  del-gt (x ∷ xs) ys h a = ground (arith, del-gt xs ys h a.1)

pub del-eq : (k : ℕ) (xs ys : List ℕ) → IsOrdered xs → AtMost k xs → del k (xs ++ k ∷ ys) ≡ xs ++ ys
unfolding del
del-eq k [] ys s a = ground arith
del-eq k (x ∷ xs) ys s a = ground (arith, del-eq k xs ys s.1 a.1, shift k xs ys)

AtLeast-put : (b k : ℕ) (xs : List ℕ) → b ≤ k → AtLeast b xs → AtLeast b (put k xs)
unfolding put
AtLeast-put b k [] h a = (h, tt)
AtLeast-put b k (x ∷ xs) h a = ground (arith, AtLeast-put b k xs h a.1)

pub put-IsOrdered : (k : ℕ) (xs : List ℕ) → IsOrdered xs → IsOrdered (put k xs)
unfolding put
put-IsOrdered k [] s = (tt, tt)
put-IsOrdered k (x ∷ xs) s =
    ground (arith, put-IsOrdered k xs s.1, AtLeast-put x k xs, AtLeast-le {b = x} {c = k} xs)

All-del {ℓ} : (P : ℕ → Type ℓ) (k : ℕ) (xs : List ℕ) → All P xs → All P (del k xs)
unfolding del
All-del P k [] a = tt
All-del P k (x ∷ xs) a = ground (arith, All-del P k xs a.1)

pub del-IsOrdered : (k : ℕ) (xs : List ℕ) → IsOrdered xs → IsOrdered (del k xs)
unfolding del
del-IsOrdered k [] s = tt
del-IsOrdered k (x ∷ xs) s = ground (arith, del-IsOrdered k xs s.1, All-del (λ y. x ≤ y) k xs s.0)
