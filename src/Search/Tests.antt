-- ===== src/Search/Tests.antt =====
-- cpp/search/binarySearch.cpp: searches of small vectors, and the theorems there.
use language_test.Prelude.{
  ℕ, zero, suc, ◌+◌, ◌^◌, ◌≡◌, refl, arith, none, some, List, [], ◌∷◌, Returns,
}
use language_test.Vector.{IsSorted}
use language_test.Search.Defs.{
  binary_search, binary_search2, binary_search3, search_loop, search_loop2, search_loop3,
}
use language_test.Search.Window.{Finds}
use language_test.Search.Laws.{binary_search-Finds, search_loop2-none}

abbrev three : List ℕ
three = 2 ∷ 4 ∷ 6 ∷ []

three-IsSorted : IsSorted three
three-IsSorted zero zero h k = omega arith
three-IsSorted zero (suc zero) h k = omega arith
three-IsSorted zero (suc (suc zero)) h k = omega arith
three-IsSorted (suc zero) (suc zero) h k = omega arith
three-IsSorted (suc zero) (suc (suc zero)) h k = omega arith
three-IsSorted (suc (suc zero)) (suc (suc zero)) h k = omega arith
three-IsSorted i (suc (suc (suc j))) h k = absurd (omega (arith, k))
three-IsSorted (suc i) zero h k = absurd (omega (arith, h))
three-IsSorted (suc (suc i)) (suc zero) h k = absurd (omega (arith, h))
three-IsSorted (suc (suc (suc i))) (suc (suc zero)) h k = absurd (omega (arith, h))

binary_search-Finds_example : Returns (binary_search three 5) (Finds three 5)
binary_search-Finds_example = binary_search-Finds three 5 three-IsSorted (omega arith)

found_six : binary_search3 three 6 ≡ some (some 2)
unfolding binary_search3 search_loop3
found_six = refl

missing_five : binary_search three 5 ≡ some none
unfolding binary_search search_loop
missing_five = refl

-- The ints 0 and 5, where the search for 3 does not end.
abbrev zero_five : List ℕ
zero_five = (2 ^ 31) ∷ (2 ^ 31 + 5) ∷ []

binary_search2-zero_five : (fuel : ℕ) → binary_search2 (suc fuel) zero_five (2 ^ 31 + 3) ≡ none
unfolding binary_search2 search_loop2
binary_search2-zero_five fuel =
    search_loop2-none fuel zero_five (2 ^ 31 + 3) 1 2 (2 ^ 31 + 5) (omega arith) refl (omega arith)
      refl
