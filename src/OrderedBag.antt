-- ===== src/OrderedBag.antt =====
-- What the red-black tree of cpp/tree promises: it keeps equal keys, so it stands for a multiset of
-- keys, written as its ordered list.
pub mod Laws
use language_test.Prelude.{ℕ, ◌≤◌, List, [], ◌∷◌, ltb, if◌then◌else◌}
use language_test.OrderedSet.{All}

abbrev pub AtMost : ℕ → List ℕ → Type 0
AtMost b xs = All (λ x. x ≤ b) xs

abbrev pub AtLeast : ℕ → List ℕ → Type 0
AtLeast b xs = All (λ x. b ≤ x) xs

abbrev pub IsOrdered : List ℕ → Type 0
IsOrdered [] = Unit
IsOrdered (x ∷ xs) = AtLeast x xs × IsOrdered xs

-- The multiset with one key more, behind the equal ones.
unfoldable pub put : ℕ → List ℕ → List ℕ
put k [] = k ∷ []
put k (x ∷ xs) = if ltb k x then k ∷ x ∷ xs else x ∷ put k xs
