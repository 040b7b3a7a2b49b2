-- ===== src/OrderedSet/Laws.antt =====
-- How the set operations act on the in-order list `xs ++ m ∷ ys` of a tree with root `m`.
use mathlib.Core.Bool.{false≢true}
use language_test.Prelude.{
  length, ◌+◌, ℕ, ◌<◌, ◌≤◌, ◌≡◌, refl, true, false, ◌||◌, List, [], ◌∷◌, ◌++◌, arith, ◌==◌,
}
use language_test.OrderedSet.{All, Below, Above, IsSorted, mem, ins, del}

pub All-append {ℓ} : (P : ℕ → Type ℓ) (xs ys : List ℕ) → All P xs → All P ys → All P (xs ++ ys)
All-append P [] ys a b = b
All-append P (x ∷ xs) ys a b = (a.0, All-append P xs ys a.1 b)

pub All-left {ℓ} : (P : ℕ → Type ℓ) (xs ys : List ℕ) → All P (xs ++ ys) → All P xs
All-left P [] ys a = tt
All-left P (x ∷ xs) ys a = (a.0, All-left P xs ys a.1)

pub All-right {ℓ} : (P : ℕ → Type ℓ) (xs ys : List ℕ) → All P (xs ++ ys) → All P ys
All-right P [] ys a = a
All-right P (x ∷ xs) ys a = All-right P xs ys a.1

pub Below-le : {b c : ℕ} (xs : List ℕ) → b ≤ c → Below b xs → Below c xs
Below-le [] h a = tt
Below-le (x ∷ xs) h a = (omega arith, Below-le xs h a.1)

pub Above-le : {b c : ℕ} (xs : List ℕ) → c ≤ b → Above b xs → Above c xs
Above-le [] h a = tt
Above-le (x ∷ xs) h a = (omega arith, Above-le xs h a.1)

-- A sorted list around a key, and its parts.
pub IsSorted-left : (xs ys : List ℕ) → IsSorted (xs ++ ys) → IsSorted xs
IsSorted-left [] ys s = tt
IsSorted-left (x ∷ xs) ys s = (All-left (λ y. x < y) xs ys s.0, IsSorted-left xs ys s.1)

pub IsSorted-right : (xs ys : List ℕ) → IsSorted (xs ++ ys) → IsSorted ys
IsSorted-right [] ys s = s
IsSorted-right (x ∷ xs) ys s = IsSorted-right xs ys s.1

pub IsSorted-Below : (xs : List ℕ) (m : ℕ) (ys : List ℕ) → IsSorted (xs ++ m ∷ ys) → Below m xs
IsSorted-Below [] m ys s = tt
IsSorted-Below (x ∷ xs) m ys s =
    ((All-right (λ y. x < y) xs (m ∷ ys) s.0).0, IsSorted-Below xs m ys s.1)

pub record Parts (xs : List ℕ) (m : ℕ) (ys : List ℕ) : Type 0 where
  pub below : Below m xs
  pub above : Above m ys
  pub left : IsSorted xs
  pub right : IsSorted ys

pub IsSorted-Parts : (xs : List ℕ) (m : ℕ) (ys : List ℕ) → IsSorted (xs ++ m ∷ ys) → Parts xs m ys
IsSorted-Parts xs m ys s =
    let tail = IsSorted-right xs (m ∷ ys) s in
    record {
      below = IsSorted-Below xs m ys s;
      above = tail.0;
      left = IsSorted-left xs (m ∷ ys) s;
      right = tail.1;
    }

pub mem-Above : (k : ℕ) (ys : List ℕ) → Above k ys → mem k ys ≡ false
unfolding mem
mem-Above k [] a = refl
mem-Above k (y ∷ ys) a = ground (arith, mem-Above k ys a.1)

pub mem-Below : (k : ℕ) (ys : List ℕ) → Below k ys → mem k ys ≡ false
unfolding mem
mem-Below k [] a = refl
mem-Below k (y ∷ ys) a = ground (arith, mem-Below k ys a.1)

pub mem-append : (k : ℕ) (xs ys : List ℕ) → mem k (xs ++ ys) ≡ (mem k xs || mem k ys)
unfolding mem
mem-append k [] ys = refl
mem-append k (x ∷ xs) ys = ground (arith, mem-append k xs ys)

module _ (k m : ℕ) where
  pub mem-lt : (xs ys : List ℕ) → k < m → Above m ys → mem k (xs ++ m ∷ ys) ≡ mem k xs
  unfolding mem
  mem-lt xs ys h a =
      ground (arith, mem-append k xs (m ∷ ys), mem-Above k ys (Above-le ys (omega arith) a))

  pub mem-gt : (xs ys : List ℕ) → m < k → Below m xs → mem k (xs ++ m ∷ ys) ≡ mem k ys
  unfolding mem
  mem-gt xs ys h a =
      ground (arith, mem-append k xs (m ∷ ys), mem-Below k xs (Below-le xs (omega arith) a))

  pub mem-eq : (xs ys : List ℕ) → k ≡ m → mem k (xs ++ m ∷ ys) ≡ true
  unfolding mem
  mem-eq xs ys e = ground (arith, mem-append k xs (m ∷ ys))

  pub ins-lt : (xs ys : List ℕ) → k < m → ins k (xs ++ m ∷ ys) ≡ ins k xs ++ m ∷ ys
  unfolding ins
  ins-lt [] ys h = ground arith
  ins-lt (x ∷ xs) ys h = ground (arith, ins-lt xs ys h)

  pub ins-gt : (xs ys : List ℕ) → m < k → Below m xs → ins k (xs ++ m ∷ ys) ≡ xs ++ m ∷ ins k ys
  unfolding ins
  ins-gt [] ys h a = ground arith
  ins-gt (x ∷ xs) ys h a = ground (arith, ins-gt xs ys h a.1)

  pub ins-eq : (xs ys : List ℕ) → k ≡ m → Below m xs → ins k (xs ++ m ∷ ys) ≡ xs ++ m ∷ ys
  unfolding ins
  ins-eq [] ys h a = ground arith
  ins-eq (x ∷ xs) ys h a = ground (arith, ins-eq xs ys h a.1)

pub del-Above : (k : ℕ) (ys : List ℕ) → Above k ys → del k ys ≡ ys
unfolding del
del-Above k [] a = refl
del-Above k (y ∷ ys) a = ground (arith, del-Above k ys a.1)

module _ (k m : ℕ) where
  pub del-lt : (xs ys : List ℕ) → k < m → Above m ys → del k (xs ++ m ∷ ys) ≡ del k xs ++ m ∷ ys
  unfolding del
  del-lt [] ys h a = ground (arith, del-Above k ys (Above-le ys (omega arith) a))
  del-lt (x ∷ xs) ys h a = ground (arith, del-lt xs ys h a)

  pub del-gt : (xs ys : List ℕ) → m < k → Below m xs → del k (xs ++ m ∷ ys) ≡ xs ++ m ∷ del k ys
  unfolding del
  del-gt [] ys h a = ground arith
  del-gt (x ∷ xs) ys h a = ground (arith, del-gt xs ys h a.1)

  pub del-eq : (xs ys : List ℕ) → k ≡ m → Below m xs → del k (xs ++ m ∷ ys) ≡ xs ++ ys
  unfolding del
  del-eq [] ys h a = ground arith
  del-eq (x ∷ xs) ys h a = ground (arith, del-eq xs ys h a.1)

-- The operations keep the list sorted.
Above-ins : (b k : ℕ) (xs : List ℕ) → b < k → Above b xs → Above b (ins k xs)
unfolding ins
Above-ins b k [] h a = (h, tt)
Above-ins b k (x ∷ xs) h a = ground (arith, Above-ins b k xs h a.1)

pub ins-IsSorted : (k : ℕ) (xs : List ℕ) → IsSorted xs → IsSorted (ins k xs)
unfolding ins
ins-IsSorted k [] s = (tt, tt)
ins-IsSorted k (x ∷ xs) s =
    ground (arith, ins-IsSorted k xs s.1, Above-ins x k xs, Above-le {b = x} {c = k} xs)

All-del {ℓ} : (P : ℕ → Type ℓ) (k : ℕ) (xs : List ℕ) → All P xs → All P (del k xs)
unfolding del
All-del P k [] a = tt
All-del P k (x ∷ xs) a = ground (arith, All-del P k xs a.1)

pub del-IsSorted : (k : ℕ) (xs : List ℕ) → IsSorted xs → IsSorted (del k xs)
unfolding del
del-IsSorted k [] s = tt
del-IsSorted k (x ∷ xs) s = ground (arith, del-IsSorted k xs s.1, All-del (λ y. x < y) k xs s.0)

-- Reading the set after an operation.
pub mem-ins : (j k : ℕ) (xs : List ℕ) → mem j (ins k xs) ≡ (j == k || mem j xs)
unfolding mem ins
mem-ins j k [] = refl
mem-ins j k (x ∷ xs) = ground (arith, mem-ins j k xs)

-- A key that is there is not added again.
pub ins_of_mem : (key : ℕ) (xs : List ℕ) → IsSorted xs → mem key xs ≡ true → ins key xs ≡ xs
unfolding mem ins
ins_of_mem key [] s h = ground arith
ins_of_mem key (x ∷ xs) s h =
    ground (arith, ins_of_mem key xs s.1, mem-Above key xs, Above-le {b = x} {c = key} xs)

-- A key of a list lies on the side that the list lies on.
pub lt_of_mem-Above : (k b : ℕ) (xs : List ℕ) → Above b xs → mem k xs ≡ true → b < k
unfolding mem
lt_of_mem-Above k b [] a h = absurd (false≢true h)
lt_of_mem-Above k b (x ∷ xs) a h = ground (arith, lt_of_mem-Above k b xs a.1)

pub lt_of_mem-Below : (k b : ℕ) (xs : List ℕ) → Below b xs → mem k xs ≡ true → k < b
unfolding mem
lt_of_mem-Below k b [] a h = absurd (false≢true h)
lt_of_mem-Below k b (x ∷ xs) a h = ground (arith, lt_of_mem-Below k b xs a.1)

pub length-del : (k : ℕ) (xs : List ℕ) → mem k xs ≡ true → length (del k xs) + 1 ≡ length xs
unfolding mem del
length-del k [] h = absurd (false≢true h)
length-del k (x ∷ xs) h = ground (arith, length-del k xs)

pub del_of_not_mem : (k : ℕ) (xs : List ℕ) → mem k xs ≡ false → del k xs ≡ xs
unfolding mem del
del_of_not_mem k [] h = refl
del_of_not_mem k (x ∷ xs) h = ground (arith, del_of_not_mem k xs)
