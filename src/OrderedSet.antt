-- ===== src/OrderedSet.antt =====
-- What the search trees of cpp/tree promise: a set (or, where the tree keeps duplicates, a
-- multiset) of keys, written as its sorted list. The keys of the program are `int`s that the trees
-- only compare, so a key k stands here for the number k + 2^31 and the order is the same.
pub mod Laws
use language_test.Prelude.{
  ℕ, ◌<◌, ◌≤◌, Bool, true, false, ◌||◌, List, [], ◌∷◌, ltb, leb, ◌==◌, if◌then◌else◌,
}

abbrev pub All {ℓ} : (ℕ → Type ℓ) → List ℕ → Type ℓ
All P [] = Unit
All P (x ∷ xs) = P x × All P xs

-- Every key is below `b`, or above it.
abbrev pub Below : ℕ → List ℕ → Type 0
Below b xs = All (λ x. x < b) xs

abbrev pub Above : ℕ → List ℕ → Type 0
Above b xs = All (λ x. b < x) xs

-- Strictly increasing.
abbrev pub IsSorted : List ℕ → Type 0
IsSorted [] = Unit
IsSorted (x ∷ xs) = Above x xs × IsSorted xs

unfoldable pub mem : ℕ → List ℕ → Bool
mem k [] = false
mem k (x ∷ xs) = k == x || mem k xs

-- The set with one key more: a key that is there already is not added again.
unfoldable pub ins : ℕ → List ℕ → List ℕ
ins k [] = k ∷ []
ins k (x ∷ xs) = if ltb k x then k ∷ x ∷ xs else if ltb x k then x ∷ ins k xs else x ∷ xs

-- The set with one key less: a key that is not there leaves it as it is.
unfoldable pub del : ℕ → List ℕ → List ℕ
del k [] = []
del k (x ∷ xs) = if k == x then xs else x ∷ del k xs
