-- ===== src/BasicString/Tests.antt =====
-- cpp/string/my_string.cpp: runs, and the theorems at concrete strings.
use language_test.Prelude.{
  ℕ, ◌*◌, ◌<◌, ◌≤◌, ◌≡◌, ◌⊎◌, refl, arith, none, some, [], ◌∷◌, ◌++◌, ◌>>=◌, Returns, ltb,
  if◌then◌else◌,
}
use language_test.BasicString.Defs.{
  BasicString, get_realloc_size, double_above, empty, realloc, strlen, copy, append_bytes, npos,
  assign_from, append_data, from_chars, size, at, concat, find, find_from, match_from, substr,
  allocate,
}
use language_test.BasicString.Alloc.{get_realloc_size-bound}
use language_test.BasicString.Laws.{Holds, append_data-Holds}

-- A string of 16 bytes that holds two.
abbrev word : ℕ → ℕ → BasicString
word x y = record {
  buffer = some x ∷ some y ∷ some 0 ∷ allocate 13;
  end = 3;
  capacity = 16;
  live = 2;
}

abbrev word-Holds : (x y : ℕ) → Holds (word x y) (x ∷ y ∷ [])
word-Holds x y = record { rest = allocate 13; bytes = refl; ended = refl; sized = refl }

get_realloc_size-bound_example :
    Returns (get_realloc_size 19) (λ r. (19 < r) × ((r ≡ 8) ⊎ (r ≤ 2 * 19)))
get_realloc_size-bound_example = get_realloc_size-bound 19 (omega arith)

append_data-Holds_example :
    Returns
      (append_data (word 99 100).buffer 3 npos (word 97 98))
      (λ r. Holds r (if ltb 16 6 then 99 ∷ 100 ∷ [] else (97 ∷ 98 ∷ []) ++ 0 ∷ 99 ∷ 100 ∷ []))
append_data-Holds_example =
    append_data-Holds (97 ∷ 98 ∷ []) (99 ∷ 100 ∷ []) (word 99 100) (word 97 98) (word-Holds 97 98)
      (word-Holds 99 100) (omega arith, (omega arith, tt)) (omega arith)

-- A call of `operator+` or `operator=` flows off its end.
concat-none : concat (word 99 100) (word 97 98) ≡ none
unfolding concat append_data append_bytes strlen copy
concat-none = refl

assign_from-none : assign_from (word 99 100) (word 97 98) ≡ none
unfolding assign_from realloc double_above append_data append_bytes strlen copy
assign_from-none = refl

-- A search for a string that is longer by two fails an assertion.
find_longer :
    (from_chars (some 97 ∷ some 0 ∷ []) >>= λ s.
    from_chars (some 98 ∷ some 97 ∷ some 98 ∷ some 0 ∷ []) >>= λ t. find t s)
    ≡ none
unfolding from_chars empty realloc double_above append_data append_bytes strlen copy size find
    find_from match_from at
find_longer = refl

find_found : find (word 98 99) (word 97 98) ≡ some none
unfolding find find_from match_from at size
find_found = refl

substr_size : (substr 1 1 (word 97 98) >>= λ s. at 0 s) ≡ some 98
unfolding substr empty realloc double_above append_data append_bytes copy size at
substr_size = refl
