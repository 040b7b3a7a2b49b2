-- ===== src/Bst/Delete.antt =====
-- cpp/tree/bst.cpp: `parent` and `deleteNode`.
use mathlib.Core.Bool.{false≢true}
use language_test.Prelude.{
  ℕ, ◌<◌, ◌≡◌, refl, sym, ◌∙◌, ap, arith, true, false, some, none, [], ◌∷◌, ◌++◌, ◌==◌,
  append_assoc, compare-Compared, less, same, more, Bool-cases, inl, inr, Returns, length,
}
use language_test.OrderedSet.{IsSorted, mem, del}
use language_test.OrderedSet.Laws.{
  IsSorted-Parts, mem-append, mem-lt, mem-gt, mem-eq, mem-Above, mem-Below, Below-le, Above-le,
  lt_of_mem-Above, lt_of_mem-Below, del-lt, del-gt, del-eq, del-IsSorted, length-del,
  del_of_not_mem,
}
use language_test.Bst.Defs.{
  Tree, null, node, Bst, next, return, pass, has_data, is_parent, parent, last_of, replacement,
  replace_child, write_node, delete_node,
}
use language_test.Bst.Walk.{events, leave, run, run-append, walk-run}
use language_test.Bst.Laws.{to_list, keys, IsValid, search-keys, length-to_list}

-- The replaced node leaves the keys of its two sides.
last_of-to_list :
    (d : ℕ) (l r : Tree)
    → let (m, rest) = last_of d l r in to_list rest ++ m ∷ [] ≡ to_list (node d l r)
unfolding last_of
last_of-to_list d l null = refl
last_of-to_list d l (node rd rl rr) =
    append_assoc (to_list l) (d ∷ to_list (last_of rd rl rr).1) ((last_of rd rl rr).0 ∷ [])
    ∙ ap (λ z. to_list l ++ d ∷ z) (last_of-to_list rd rl rr)

replacement-to_list :
    (d : ℕ) (l r : Tree) → to_list (replacement (node d l r)) ≡ to_list l ++ to_list r
unfolding replacement
replacement-to_list d null r = refl
replacement-to_list d (node ld ll lr) r =
    sym (append_assoc (to_list (last_of ld ll lr).1) ((last_of ld ll lr).0 ∷ []) (to_list r))
    ∙ ap (λ z. z ++ to_list r) (last_of-to_list ld ll lr)

-- A node with the key: the tree that replaces it lacks just that key.
has_data-replacement :
    (k : ℕ) (t : Tree)
    → IsSorted (to_list t)
    → has_data k t ≡ true
    → to_list (replacement t) ≡ del k (to_list t)
has_data-replacement k null s h = cc
has_data-replacement k (node d l r) s h =
    let p = IsSorted-Parts (to_list l) d (to_list r) s in
    replacement-to_list d l r ∙ sym (del-eq k d (to_list l) (to_list r) (ground arith) p.below)

has_data-mem : (k : ℕ) (t : Tree) → mem k (to_list t) ≡ false → has_data k t ≡ false
has_data-mem k null h = refl
has_data-mem k (node d l r) h = ground (arith, mem-eq k d (to_list l) (to_list r))

write_node-absent :
    (k : ℕ) (f : Tree → Tree) (t : Tree) → mem k (to_list t) ≡ false → write_node k f t ≡ t
unfolding write_node mem
write_node-absent k f null h = refl
write_node-absent k f (node d l r) h = ground (
  arith,
  mem-append k (to_list l) (d ∷ to_list r),
  write_node-absent k f l,
  write_node-absent k f r,
)

run-is_parent_absent :
    (k : ℕ) (t a : Tree) → mem k (to_list t) ≡ false → run (is_parent k) pass (events t) a ≡ next a
unfolding mem
run-is_parent_absent k null a h = refl
run-is_parent_absent k (node d l r) a h =
    let m = mem-append k (to_list l) (d ∷ to_list r) in
    rw
      (
        has_data-mem k l (ground (arith, m)),
        has_data-mem k r (ground (arith, m)),
        run-append (is_parent k) pass (events l) (leave (node d l r) ∷ events r) a,
        run-is_parent_absent k l a (ground (arith, m)),
      )
      (run-is_parent_absent k r a (ground (arith, m)))

-- What the walk of `parent` finds below a root that does not hold the key: a node whose child is
-- replaced to take the key out.
record Found (k : ℕ) (t a : Tree) : Type 0 where
  d : ℕ
  l : Tree
  r : Tree
  returned : run (is_parent k) pass (events t) a ≡ return (node d l r)
  within : mem d (to_list t) ≡ true
  deletes : to_list (write_node d (replace_child k) t) ≡ del k (to_list t)

mem_of_has_data : (k : ℕ) (t : Tree) → has_data k t ≡ true → mem k (to_list t) ≡ true
mem_of_has_data k null h = cc
mem_of_has_data k (node d l r) h = mem-eq k d (to_list l) (to_list r) (ground arith)

module _ (k d : ℕ) (l r a : Tree) (s : IsSorted (to_list (node d l r))) where
  Found-left_child : has_data k l ≡ true → Found k (node d l r) a
  unfolding write_node
  Found-left_child h =
      let p = IsSorted-Parts (to_list l) d (to_list r) s in
      let same : (d == d) ≡ true = ground arith in
      let lt = lt_of_mem-Below k d (to_list l) p.below (mem_of_has_data k l h) in
      record {
        d = d;
        l = l;
        r = r;
        returned = rw h;
        within = mem-eq d d (to_list l) (to_list r) refl;
        deletes =
            rw (same, h, has_data-replacement k l p.left h)
              (sym (del-lt k d (to_list l) (to_list r) lt p.above));
      }

  Found-right_child : has_data k l ≡ false → has_data k r ≡ true → Found k (node d l r) a
  unfolding write_node
  Found-right_child h h' =
      let p = IsSorted-Parts (to_list l) d (to_list r) s in
      let same : (d == d) ≡ true = ground arith in
      let lt = lt_of_mem-Above k d (to_list r) p.above (mem_of_has_data k r h') in
      record {
        d = d;
        l = l;
        r = r;
        returned = rw (h, h');
        within = mem-eq d d (to_list l) (to_list r) refl;
        deletes =
            rw (same, h, has_data-replacement k r p.right h')
              (sym (del-gt k d (to_list l) (to_list r) lt p.below));
      }

  Found-left : k < d → has_data k l ≡ false → Found k l a → Found k (node d l r) a
  unfolding write_node
  Found-left lt h f =
      let p = IsSorted-Parts (to_list l) d (to_list r) s in
      let below = lt_of_mem-Below f.d d (to_list l) p.below f.within in
      let other : (d == f.d) ≡ false = ground arith in
      let absent = mem-Above k (to_list r) (Above-le (to_list r) (omega arith) p.above) in
      let elsewhere = mem-Above f.d (to_list r) (Above-le (to_list r) (omega arith) p.above) in
      record {
        d = f.d;
        l = f.l;
        r = f.r;
        returned = rw (
          h,
          has_data-mem k r absent,
          run-append (is_parent k) pass (events l) (leave (node d l r) ∷ events r) a,
          f.returned,
        );
        within = mem-append f.d (to_list l) (d ∷ to_list r) ∙ rw f.within;
        deletes =
            rw (other, write_node-absent f.d (replace_child k) r elsewhere, f.deletes)
              (sym (del-lt k d (to_list l) (to_list r) lt p.above));
      }

  Found-right : d < k → has_data k r ≡ false → Found k r a → Found k (node d l r) a
  unfolding write_node
  Found-right lt h f =
      let p = IsSorted-Parts (to_list l) d (to_list r) s in
      let above = lt_of_mem-Above f.d d (to_list r) p.above f.within in
      let other : (d == f.d) ≡ false = ground arith in
      let absent = mem-Below k (to_list l) (Below-le (to_list l) (omega arith) p.below) in
      let elsewhere = mem-Below f.d (to_list l) (Below-le (to_list l) (omega arith) p.below) in
      record {
        d = f.d;
        l = f.l;
        r = f.r;
        returned = rw (
          has_data-mem k l absent,
          h,
          run-append (is_parent k) pass (events l) (leave (node d l r) ∷ events r) a,
          run-is_parent_absent k l a absent,
          f.returned,
        );
        within = mem-gt f.d d (to_list l) (to_list r) above p.below ∙ f.within;
        deletes =
            rw (other, write_node-absent f.d (replace_child k) l elsewhere, f.deletes)
              (sym (del-gt k d (to_list l) (to_list r) lt p.below));
      }

parent-Found :
    (k : ℕ) (t a : Tree)
    → IsSorted (to_list t)
    → has_data k t ≡ false
    → mem k (to_list t) ≡ true
    → Found k t a
unfolding mem
parent-Found k null a s h m = absurd (false≢true m)
parent-Found k (node d l r) a s h m =
    let p = IsSorted-Parts (to_list l) d (to_list r) s in
    elim (compare-Compared k d) [
      | less e c ↦ elim (Bool-cases (has_data k l)) [
        | inl y ↦ Found-left_child k d l r a s y
        | inr n ↦
            Found-left k d l r a s c n
              (parent-Found k l a p.left n (sym (mem-lt k d (to_list l) (to_list r) c p.above) ∙ m))
      ]
      | same e c ↦ absurd (false≢true (sym h ∙ ground arith))
      | more e c ↦
          let absent = mem-Below k (to_list l) (Below-le (to_list l) (omega arith) p.below) in
          elim (Bool-cases (has_data k r)) [
            | inl y ↦ Found-right_child k d l r a s (has_data-mem k l absent) y
            | inr n ↦ Found-right k d l r a s c n (
                parent-Found k r a p.right n
                  (sym (mem-gt k d (to_list l) (to_list r) c p.below) ∙ m))
          ]
    ]

parent-some :
    (k : ℕ) (t : Bst)
    → has_data k t.root ≡ false
    → (f : Found k t.root null) → parent k t ≡ some (node f.d f.l f.r)
unfolding parent
parent-some k t h f = rw (h, walk-run (is_parent k) pass t.root null, f.returned)

-- Where the root does not hold the key, `deleteNode` is defined and keeps the invariant (the count
-- included), takes the key out of the set, and reports whether it was there.
pub delete_node-del :
    (k : ℕ) (t : Bst)
    → IsValid t
    → has_data k t.root ≡ false
    → Returns
        (delete_node k t)
        (λ (t', done). IsValid t' × (keys t' ≡ del k (keys t)) × (done ≡ mem k (keys t)))
unfolding delete_node
delete_node-del k t v h = elim (Bool-cases (mem k (keys t))) [
  | inl m ↦
      let f = parent-Found k t.root null v.sorted h m in
      rw (search-keys k t v ∙ m, parent-some k t h f)
        (
          record {
            sorted = rw f.deletes (del-IsSorted k (keys t) v.sorted);
            counted = omega (
              arith,
              v.counted,
              length-to_list t.root,
              length-to_list (write_node f.d (replace_child k) t.root),
              ap length f.deletes,
              length-del k (keys t) m,
            );
          },
          f.deletes,
          sym m,
        )
  | inr n ↦ rw (search-keys k t v ∙ n) (v, sym (del_of_not_mem k (keys t) n), sym n)
]

-- Where the root holds the key, `deleteNode` reads through a null pointer.
pub delete_node_root :
    (k : ℕ) (t : Bst) → IsValid t → has_data k t.root ≡ true → delete_node k t ≡ none
unfolding delete_node parent
delete_node_root k t v h = rw (search-keys k t v ∙ mem_of_has_data k t.root h, h)
