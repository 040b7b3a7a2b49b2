-- ===== src/Sorts/Tests.antt =====
-- cpp/sort: the functions on small vectors, and the theorems there.
use language_test.Prelude.{arith, ◌*◌, ℕ, ◌≡◌, refl, none, some, List, [], ◌∷◌, Returns}
use language_test.OrderedBag.{put}
use language_test.Vector.{IsSorted, Rearranges, swap}
use language_test.Sorts.Defs.{
  insert_sort, insert_rounds, sink, insert_sort2, insert_rounds2, sink2, select_sort2, bubble_sort,
  bubble_rounds, bubble_pass, bubble_sort5, bubble_rounds5, select_sort, select_rounds, min_index,
}
use language_test.Sorts.Heap.{heap_sort, heapify, heapify2, larger, build, drain}
use language_test.Sorts.Heap.Laws.{heap_sort-IsSorted}
use language_test.Sorts.Shell.{shell_sort, shell_gaps, shell_pass, shell_sink}
use language_test.Sorts.Shell.Laws.{shell_sort-IsSorted}
use language_test.Sorts.Quick.{sort_array, sort_range, partition, part_loop}
use language_test.Sorts.Quick.Laws.{sort_array-IsSorted}
use language_test.Sorts.Merge.{merge_sort2, merge, merge_loop, copy_range, write_back}
use language_test.Sorts.Merge.Laws.{merge_sort2-IsSorted}
use language_test.Sorts.Agree.{bag, sorts_agree}
use language_test.Sorts.Selection.{select_sort2-pair}

abbrev mixed : List ℕ
mixed = 3 ∷ 1 ∷ 2 ∷ 1 ∷ []

abbrev ordered : List ℕ
ordered = 1 ∷ 1 ∷ 2 ∷ 3 ∷ []

select2_pair : select_sort2 (1 ∷ 2 ∷ []) ≡ some (2 ∷ 1 ∷ [])
select2_pair = select_sort2-pair 1 2

insert_mixed : insert_sort mixed ≡ some ordered
unfolding insert_sort insert_rounds sink swap
insert_mixed = refl

insert2_mixed : insert_sort2 mixed ≡ some ordered
unfolding insert_sort2 insert_rounds2 sink2 swap
insert2_mixed = refl

bubble_mixed : bubble_sort mixed 4 ≡ some ordered
unfolding bubble_sort bubble_rounds bubble_pass swap
bubble_mixed = refl

select_mixed : select_sort mixed ≡ some ordered
unfolding select_sort select_rounds min_index swap
select_mixed = refl

-- `data.size() - 1` of an empty vector is the largest size_t.
bubble5_empty : bubble_sort5 [] ≡ none
unfolding bubble_sort5 bubble_rounds5 bubble_pass
bubble5_empty = refl

heap_sort-IsSorted_example : Returns (heap_sort mixed) (λ new. Rearranges mixed new × IsSorted new)
heap_sort-IsSorted_example = heap_sort-IsSorted mixed (omega arith)

heap_mixed : heap_sort mixed ≡ some ordered
unfolding heap_sort build drain heapify heapify2 larger swap
heap_mixed = refl

-- Calls of rand() that return 0, 7, 14 and so on.
abbrev sevens : ℕ → ℕ
sevens n = n * 7

sort_array-IsSorted_example :
    Returns (sort_array sevens mixed) (λ new. Rearranges mixed new × IsSorted new)
sort_array-IsSorted_example = sort_array-IsSorted sevens mixed

quick_mixed : sort_array sevens mixed ≡ some ordered
unfolding sort_array sort_range partition part_loop swap
quick_mixed = refl

shell_sort-IsSorted_example :
    Returns (shell_sort mixed) (λ new. Rearranges mixed new × IsSorted new)
shell_sort-IsSorted_example = shell_sort-IsSorted mixed

shell_mixed : shell_sort mixed ≡ some ordered
unfolding shell_sort shell_gaps shell_pass shell_sink swap
shell_mixed = refl

merge_sort2-IsSorted_example :
    Returns (merge_sort2 5 mixed 0 4) (λ new. Rearranges mixed new × IsSorted new)
merge_sort2-IsSorted_example = merge_sort2-IsSorted mixed (omega arith)

merge_mixed : merge_sort2 5 mixed 0 4 ≡ some ordered
unfolding merge_sort2 merge merge_loop copy_range write_back
merge_mixed = refl

sorts_agree_example :
    (heap_sort mixed ≡ some (bag mixed))
    × (sort_array sevens mixed ≡ some (bag mixed))
    × (shell_sort mixed ≡ some (bag mixed))
    × (merge_sort2 5 mixed 0 4 ≡ some (bag mixed))
    × (insert_sort mixed ≡ some (bag mixed))
    × (insert_sort2 mixed ≡ some (bag mixed))
    × (bubble_sort mixed 4 ≡ some (bag mixed))
    × (select_sort mixed ≡ some (bag mixed))
sorts_agree_example = sorts_agree sevens mixed (omega arith)

mixed_in_bag : bag mixed ≡ ordered
unfolding put
mixed_in_bag = refl
