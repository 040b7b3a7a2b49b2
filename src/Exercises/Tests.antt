-- ===== src/Exercises/Tests.antt =====
-- cpp/online_judge/leetcode/editor/cn: the exercises on small inputs, and the theorems there.
use language_test.Prelude.{Returns, ℕ, ◌+◌, ◌≡◌, refl, arith, true, some, List, [], ◌∷◌}
use language_test.Prelude.Int.{pos, negsuc}
use language_test.Exercises.Sum.{
  add_two_numbers, add_both, add_rest, number, AllDigits, Represents, add_two_numbers-Represents,
}
use language_test.Exercises.StrToInt.{str_to_int, read_signed, read_digits, clamp, signed}
use language_test.Exercises.StrToInt.Decimal.{printed, str_to_int-decimal}
use language_test.Exercises.Majority.{majority_element, majority_element-occurrences}
use language_test.Exercises.Range.{
  search_range, lower_bound, bound_loop, FindsRange, search_range-FindsRange,
}
use language_test.Vector.{IsSorted}
use language_test.Sorts.Merge.Lists.{Ascends-IsSorted}

-- 342 and 465, the lowest digit first.
abbrev first : List ℕ
first = 2 ∷ 4 ∷ 3 ∷ []

abbrev second : List ℕ
second = 5 ∷ 6 ∷ 4 ∷ []

first-AllDigits : AllDigits first
first-AllDigits = (omega arith, (omega arith, (omega arith, tt)))

second-AllDigits : AllDigits second
second-AllDigits = (omega arith, (omega arith, (omega arith, tt)))

add_two_numbers-Represents_example :
    Represents (number first + number second) (add_two_numbers first second)
add_two_numbers-Represents_example =
    add_two_numbers-Represents first second (omega arith) (omega arith) first-AllDigits
      second-AllDigits

added : add_two_numbers first second ≡ 7 ∷ 0 ∷ 8 ∷ []
unfolding add_two_numbers add_both add_rest
added = refl

-- One list alone is not zero, but the sum is nullptr.
add_nullptr : add_two_numbers [] second ≡ []
unfolding add_two_numbers
add_nullptr = refl

str_to_int-decimal_example : str_to_int (printed 2 true 3 421) ≡ clamp (signed true 421)
str_to_int-decimal_example = str_to_int-decimal 2 true 3 421 (omega arith)

-- "  -421a"
read_421 : str_to_int (32 ∷ 32 ∷ 45 ∷ 52 ∷ 50 ∷ 49 ∷ 97 ∷ []) ≡ negsuc 420
unfolding str_to_int read_signed read_digits
read_421 = refl

majority_element-occurrences_example : majority_element (1 ∷ 2 ∷ 1 ∷ 3 ∷ 1 ∷ []) ≡ some 1
majority_element-occurrences_example =
    majority_element-occurrences (1 ∷ 2 ∷ 1 ∷ 3 ∷ 1 ∷ []) 1 (omega arith)

abbrev nums : List ℕ
nums = 1 ∷ 4 ∷ 4 ∷ 4 ∷ 9 ∷ []

nums-IsSorted : IsSorted nums
nums-IsSorted = Ascends-IsSorted nums (
  (omega arith, (omega arith, (omega arith, (omega arith, tt)))),
  (
    (omega arith, (omega arith, (omega arith, tt))),
    ((omega arith, (omega arith, tt)), ((omega arith, tt), (tt, tt))),
  ),
)

search_range-FindsRange_example : Returns (search_range nums 4) (FindsRange nums 4)
search_range-FindsRange_example = search_range-FindsRange nums 4 nums-IsSorted (omega arith)

range_of_four : search_range nums 4 ≡ some (pos 1, pos 3)
unfolding search_range lower_bound bound_loop
range_of_four = refl
