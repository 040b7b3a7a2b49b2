-- ===== src/Kmp/Tests.antt =====
-- cpp/string/kmp.cpp: two searches, and the theorem there.
use language_test.Prelude.{ℕ, ◌≡◌, refl, arith, some, List, [], ◌∷◌, Returns}
use language_test.Prelude.Int.{pos, negsuc}
use language_test.Kmp.Defs.{fall, next_from, get_next, match_loop, kmp}
use language_test.Kmp.Laws.{FindsFirst, kmp-FindsFirst}

abbrev text : List ℕ
text = 1 ∷ 2 ∷ 1 ∷ 2 ∷ 1 ∷ 3 ∷ []

abbrev pattern_found : List ℕ
pattern_found = 1 ∷ 2 ∷ 1 ∷ 3 ∷ []

kmp-FindsFirst_example : Returns (kmp text pattern_found) (FindsFirst text pattern_found)
kmp-FindsFirst_example = kmp-FindsFirst text pattern_found (omega arith)

found_at_two : kmp text pattern_found ≡ some (pos 2)
unfolding kmp get_next next_from fall match_loop
found_at_two = refl

not_found : kmp text (3 ∷ 3 ∷ []) ≡ some (negsuc 0)
unfolding kmp get_next next_from fall match_loop
not_found = refl

table : get_next (1 ∷ 2 ∷ 1 ∷ 2 ∷ 3 ∷ []) ≡ some (negsuc 0 ∷ pos 0 ∷ pos 0 ∷ pos 1 ∷ pos 2 ∷ [])
unfolding get_next next_from fall
table = refl
