-- ===== src/Sorts/Agree.antt =====
-- cpp/sort: every sort that is right gives the ordered list of the multiset of the elements.
use mathlib.Core.List.{foldr, Perm}
use mathlib.Core.List.Perm
use language_test.Prelude.{
  ℕ, suc, ◌+◌, ◌^◌, ◌<◌, ◌≤◌, ◌≡◌, refl, sym, ap, ◌∙◌, true, false, Bool-cases, inl, inr, Option,
  some, List, [], ◌∷◌, ltb, length, arith, Returns, Returns-some,
}
use language_test.OrderedBag.{put}
use language_test.Vector.{value, IsSorted, Rearranges}
use language_test.Sorts.Defs.{insert_sort, insert_sort2, bubble_sort, select_sort}
use language_test.Sorts.Insertion.{insert_sort-IsSorted, insert_sort2-IsSorted}
use language_test.Sorts.Bubble.{bubble_sort-IsSorted}
use language_test.Sorts.Selection.{select_sort-IsSorted}
use language_test.Sorts.Heap.{heap_sort}
use language_test.Sorts.Heap.Laws.{heap_sort-IsSorted}
use language_test.Sorts.Quick.{sort_array}
use language_test.Sorts.Quick.Laws.{sort_array-IsSorted}
use language_test.Sorts.Shell.{shell_sort}
use language_test.Sorts.Shell.Laws.{shell_sort-IsSorted}
use language_test.Sorts.Merge.{merge_sort2}
use language_test.Sorts.Merge.Laws.{merge_sort2-IsSorted}

-- The elements as a multiset, in its ordered form.
abbrev pub bag : List ℕ → List ℕ
bag vec = foldr put [] vec

put-put : (a b : ℕ) (xs : List ℕ) → ltb a b ≡ true → put a (put b xs) ≡ put b (put a xs)
unfolding put
put-put a b [] h = let f : ltb b a ≡ false = ground (arith, h) in rw (h, f) refl
put-put a b (x ∷ xs) h =
    let f : ltb b a ≡ false = ground (arith, h) in
    elim (Bool-cases (ltb b x)) [
      | inl e ↦ let e' : ltb a x ≡ true = ground (arith, e, h) in rw (e, e', h, f, e) refl
      | inr e ↦ elim (Bool-cases (ltb a x)) [
        | inl g ↦ rw (e, g, f, e) refl
        | inr g ↦ rw (e, g, e) (ap (λ z. x ∷ z) (put-put a b xs h))
      ]
    ]

put_comm : (a b : ℕ) (xs : List ℕ) → put a (put b xs) ≡ put b (put a xs)
put_comm a b xs = elim (Bool-cases (ltb a b)) [
  | inl e ↦ put-put a b xs e
  | inr e ↦ elim (Bool-cases (ltb b a)) [
    | inl f ↦ sym (put-put b a xs f)
    | inr f ↦ let o : a ≡ b = ground (arith, e, f) in rw o refl
  ]
]

bag-Perm : {xs ys : List ℕ} → Perm xs ys → bag xs ≡ bag ys
bag-Perm p = Perm.foldr-eq (hlevel) put put_comm p []

put-least : (x : ℕ) (xs : List ℕ) → ((i : ℕ) → i < length xs → x ≤ value xs i) → put x xs ≡ x ∷ xs
unfolding put
put-least x [] h = refl
put-least x (y ∷ xs) h = elim (Bool-cases (ltb x y)) [
  | inl e ↦ rw e refl
  | inr e ↦
      let o : x ≡ y = ground (arith, e, h 0 (omega arith)) in
      rw (e, put-least x xs (λ i l. h (suc i) (omega (arith, l))))
        (ap (λ z. z ∷ x ∷ xs) (sym o) ∙ ap (λ z. x ∷ z ∷ xs) o)
]

bag-IsSorted : (xs : List ℕ) → IsSorted xs → bag xs ≡ xs
bag-IsSorted [] h = refl
bag-IsSorted (x ∷ xs) h =
    let rest =
      bag-IsSorted xs (λ i j p q. h (suc i) (suc j) (omega (arith, p)) (omega (arith, q))) in
    ap (put x) rest ∙ put-least x xs (λ i l. h 0 (suc i) (omega arith) (omega (arith, l)))

-- A sorted rearrangement is unique.
Returns-bag :
    (m : Option (List ℕ)) (vec : List ℕ)
    → Returns m (λ new. Rearranges vec new × IsSorted new)
    → m ≡ some (bag vec)
Returns-bag m vec h =
    let (new, e, (r, o)) = Returns-some m (λ new. Rearranges vec new × IsSorted new) h in
    e ∙ ap (λ v. some v) (sym (bag-Perm r.1 ∙ bag-IsSorted new o))

-- On the whole of any vector of less than 2^30 elements these end without an access out of bounds and give
-- the same vector, the elements as an ordered multiset: heapSort, sortArray for any results of rand(), shellSort1,
-- mergeSort2, insertSort, insertSort2, bubbleSort with the size for len, and selectSort.
pub sorts_agree :
    (rand : ℕ → ℕ) (vec : List ℕ)
    → length vec < 2 ^ 30
    → (heap_sort vec ≡ some (bag vec))
      × (sort_array rand vec ≡ some (bag vec))
      × (shell_sort vec ≡ some (bag vec))
      × (merge_sort2 (length vec + 1) vec 0 (length vec) ≡ some (bag vec))
      × (insert_sort vec ≡ some (bag vec))
      × (insert_sort2 vec ≡ some (bag vec))
      × (bubble_sort vec (length vec) ≡ some (bag vec))
      × (select_sort vec ≡ some (bag vec))
sorts_agree rand vec small = (
  Returns-bag (heap_sort vec) vec (heap_sort-IsSorted vec small),
  Returns-bag (sort_array rand vec) vec (sort_array-IsSorted rand vec),
  Returns-bag (shell_sort vec) vec (shell_sort-IsSorted vec),
  Returns-bag (merge_sort2 (length vec + 1) vec 0 (length vec)) vec
      (merge_sort2-IsSorted vec small),
  Returns-bag (insert_sort vec) vec (insert_sort-IsSorted vec),
  Returns-bag (insert_sort2 vec) vec (insert_sort2-IsSorted vec),
  Returns-bag (bubble_sort vec (length vec)) vec (bubble_sort-IsSorted vec),
  Returns-bag (select_sort vec) vec (select_sort-IsSorted vec),
)
