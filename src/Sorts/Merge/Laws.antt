-- ===== src/Sorts/Merge/Laws.antt =====
-- cpp/sort/mergeSort.cpp: `mergeSort2` sorts and `mergeSort` does what it does.
use mathlib.Core.List.Perm
use mathlib.Core.Path.{subst}
use language_test.Prelude.{
  ℕ, zero, suc, ◌+◌, ◌-◌, ◌/◌, ◌^◌, ltb, ◌<◌, ◌≤◌, ◌≡◌, refl, sym, ap, ◌∙◌, Bool-cases, true, false,
  inl, inr, Option, none, List, [], ◌∷◌, ◌++◌, append-nil, append_assoc, length, length-append,
  take, drop, take-append-drop, length-take, length-drop, leb, ◌==◌, ◌>>=◌, arith, le_or_lt,
  Returns, Returns-bind, Returns-imp,
}
use language_test.Vector.{IsSorted, Rearranges, Rearranges-refl, Rearranges-trans}
use language_test.Sorts.Merge.{merge_sort, merge_sort2, merge}
use language_test.Sorts.Merge.Lists.{Ascends, Ascends-IsSorted, Merged}
use language_test.Sorts.Merge.Run.{merge-Merged}

-- The elements s between `before` and `after` become sorted, and nothing else changes.
abbrev SortsPart : List ℕ → List ℕ → List ℕ → List ℕ → Type 0
SortsPart before s after v =
    (out : List ℕ) × (v ≡ before ++ (out ++ after)) × Rearranges s out × Ascends out

Rearranges-append :
    {xs ys xs' ys' : List ℕ}
    → Rearranges xs xs'
    → Rearranges ys ys'
    → Rearranges (xs ++ ys) (xs' ++ ys')
Rearranges-append {xs} {ys} {xs'} {ys'} p q = (
  length-append xs' ys'
      ∙ (ap (λ n. n + length ys') p.0 ∙ ap (λ n. length xs + n) q.0)
      ∙ sym (length-append xs ys),
  Perm.append p.1 q.1,
)

-- At most one element is in order.
short-Ascends : (s : List ℕ) → length s ≤ 1 → Ascends s
short-Ascends [] h = tt
short-Ascends (x ∷ []) h = (tt, tt)
short-Ascends (x ∷ y ∷ s) h = absurd (omega (arith, h))

abbrev PartSorts : ℕ → Type 0
PartSorts fuel =
    (before s after : List ℕ) (left end : ℕ)
    → left ≡ length before
    → end ≡ left + length s
    → 0 < fuel
    → length s ≤ fuel
    → end ≤ 2 ^ 30
    → Returns (merge_sort2 fuel (before ++ (s ++ after)) left end) (SortsPart before s after)

-- The two halves, sorted one after the other, and their merge.
halves-SortsPart :
    (fuel : ℕ)
    → PartSorts fuel
    → (before s1 s2 after : List ℕ) (left mid end : ℕ) → left ≡ length before
    → mid ≡ left + length s1
    → end ≡ mid + length s2
    → 0 < fuel
    → length s1 ≤ fuel
    → length s2 ≤ fuel
    → end ≤ 2 ^ 30
    → Returns
        (merge_sort2 fuel (before ++ ((s1 ++ s2) ++ after)) left mid >>= λ v.
          merge_sort2 fuel v mid end >>= λ w. merge w left mid end)
        (SortsPart before (s1 ++ s2) after)
halves-SortsPart fuel sorts before s1 s2 after left mid end a b c f p q small =
    let whole = before ++ ((s1 ++ s2) ++ after) in
    let first : Returns (merge_sort2 fuel whole left mid) (SortsPart before s1 (s2 ++ after)) =
      rw (append_assoc s1 s2 after)
        (sorts before s1 (s2 ++ after) left mid a b f p (omega (arith, c, small))) in
    Returns-bind (merge_sort2 fuel whole left mid)
      (λ v. merge_sort2 fuel v mid end >>= λ w. merge w left mid end)
      (SortsPart before s1 (s2 ++ after)) (SortsPart before (s1 ++ s2) after) first
      (λ v (u1, e, r1, o1).
        let cut : v ≡ (before ++ u1) ++ (s2 ++ after) =
          e ∙ sym (append_assoc before u1 (s2 ++ after)) in
        let second : Returns (merge_sort2 fuel v mid end) (SortsPart (before ++ u1) s2 after) =
          rw cut (
            sorts (before ++ u1) s2 after mid end
              (omega (arith, a, b, length-append before u1, r1.0)) c f q small) in
        Returns-bind (merge_sort2 fuel v mid end) (λ w. merge w left mid end)
          (SortsPart (before ++ u1) s2 after) (SortsPart before (s1 ++ s2) after) second
          (λ w (u2, e2, r2, o2).
            let cut2 : w ≡ before ++ ((u1 ++ u2) ++ after) =
              e2
              ∙ (append_assoc before u1 (u2 ++ after)
                  ∙ ap (λ t. before ++ t) (sym (append_assoc u1 u2 after))) in
            rw cut2 (
              Returns-imp (merge (before ++ ((u1 ++ u2) ++ after)) left mid end)
                (λ x. (out : List ℕ) × (x ≡ before ++ (out ++ after)) × Merged u1 u2 out)
                (SortsPart before (s1 ++ s2) after)
                (merge-Merged before u1 u2 after left mid end a (omega (arith, b, r1.0))
                  (omega (arith, c, r2.0)))
                (λ x (out, e3, m).
                  (out, e3, Rearranges-trans (Rearranges-append r1 r2) m.same, m.order o1 o2)))))

merge_sort2-SortsPart : (fuel : ℕ) → PartSorts fuel
unfolding merge_sort2
merge_sort2-SortsPart zero before s after left end a b f p small = absurd (omega (arith, f))
merge_sort2-SortsPart (suc fuel) before s after left end a b f p small =
    elim (le_or_lt end (left + 1)) [
      | inl c ↦
          let e : leb end (left + 1) ≡ true = ground (arith, c) in
          rw e (s, refl, Rearranges-refl s, short-Ascends s (omega (arith, b, c)))
      | inr c ↦
          let e : leb end (left + 1) ≡ false = ground (arith, c) in
          let fits : ltb (left + end - 1) (2 ^ 31) ≡ true = ground (arith, c, small) in
          let mid = (left + end - 1) / 2 + 1 in
          let k = mid - left in
          let below : left < mid = omega (arith, c) in
          let above : mid < end = omega (arith, c) in
          let n1 : length (take k s) ≡ k = omega (arith, length-take k s, b, below, above) in
          let n2 : length (drop k s) ≡ length s - k = length-drop k s in
          rw (e, fits)
            (subst
              (λ t.
                Returns
                  (merge_sort2 fuel (before ++ (t ++ after)) left mid >>= λ v.
                    merge_sort2 fuel v mid end >>= λ w. merge w left mid end)
                  (SortsPart before t after))
              (take-append-drop k s)
              (halves-SortsPart fuel (merge_sort2-SortsPart fuel) before (take k s) (drop k s) after
                left mid end a (omega (arith, n1, below)) (omega (arith, n2, b, below, above))
                (omega (arith, p, b, c)) (omega (arith, n1, p, b, below, above))
                (omega (arith, n2, p, b, below, above)) small))
    ]

-- On a whole vector of less than 2^30 elements `mergeSort2` ends, without an overflow or an access out of
-- bounds, within at most one nested call more than it has elements, and gives a sorted rearrangement.
pub merge_sort2-IsSorted :
    (vec : List ℕ)
    → length vec < 2 ^ 30
    → Returns
        (merge_sort2 (length vec + 1) vec 0 (length vec))
        (λ new. Rearranges vec new × IsSorted new)
merge_sort2-IsSorted vec small =
    let n = length vec in
    subst (λ v. Returns (merge_sort2 (n + 1) v 0 n) (λ new. Rearranges vec new × IsSorted new))
      (append-nil vec)
      (Returns-imp (merge_sort2 (n + 1) (vec ++ []) 0 n) (SortsPart [] vec [])
        (λ new. Rearranges vec new × IsSorted new)
        (merge_sort2-SortsPart (n + 1) [] vec [] 0 n refl (omega arith) (omega arith) (omega arith)
          (omega (arith, small)))
        (λ new (out, e, r, o).
          let same : new ≡ out = e ∙ append-nil out in rw same (r, Ascends-IsSorted out o)))

-- `mergeSort` and `mergeSort2` do the same on a range that is not empty and ends at 2^30 at most, with
-- equal bounds on the nested calls.
pub merge_sort-merge_sort2 :
    (fuel : ℕ) (vec : List ℕ) (l end : ℕ)
    → l < end
    → end ≤ 2 ^ 30
    → merge_sort fuel vec l end ≡ merge_sort2 fuel vec l end
unfolding merge_sort merge_sort2
merge_sort-merge_sort2 zero vec l end h small = refl
merge_sort-merge_sort2 (suc fuel) vec l end h small =
    let middle : l + (end - l + 1) / 2 ≡ (l + end - 1) / 2 + 1 = omega (arith, h) in
    let mid = (l + end - 1) / 2 + 1 in
    elim (Bool-cases (l + 1 == end)) [
      | inl e ↦ let e' : leb end (l + 1) ≡ true = ground (arith, e) in rw (e, e')
      | inr e ↦
          let e' : leb end (l + 1) ≡ false = ground (arith, e, h) in
          let far : l + 1 < end = ground (arith, e, h) in
          let fits : ltb (l + end - 1) (2 ^ 31) ≡ true = ground (arith, far, small) in
          rw
            (
              e,
              e',
              fits,
              middle,
              merge_sort-merge_sort2 fuel vec l mid (omega (arith, far))
                  (omega (arith, far, small)),
            )
            (ap
              (λ (g : List ℕ → Option (List ℕ)).
                merge_sort2 fuel vec l mid >>= λ v. g v >>= λ w. merge w l mid end)
              (λ i v. merge_sort-merge_sort2 fuel v mid end (omega (arith, far)) small i))
    ]

-- `mergeSort` of an empty range calls itself for ever.
pub merge_sort-empty : (fuel : ℕ) (vec : List ℕ) (l : ℕ) → merge_sort fuel vec l l ≡ none
unfolding merge_sort
merge_sort-empty zero vec l = refl
merge_sort-empty (suc fuel) vec l =
    let e : (l + 1 == l) ≡ false = ground arith in
    let middle : l + (l - l + 1) / 2 ≡ l = omega arith in
    rw (e, middle, merge_sort-empty fuel vec l)
