-- ===== src/Avl/Lookup.antt =====
-- cpp/tree/avl2.cpp: `loop_find` against the set of keys, what `find_real` returns, and
-- `destory`.
use language_test.Prelude.{
  ◌⊎◌, inl, inr, ℕ, ◌≡◌, refl, arith, Option, some, none, if◌then◌else◌, ◌==◌, compare-Compared,
  less, same, more, sym, ap,
}
use language_test.OrderedSet.{IsSorted, mem}
use language_test.OrderedSet.Laws.{IsSorted-Parts, mem-lt, mem-gt, mem-eq}
use language_test.Avl.Defs.{Tree, null, node, loop_find, find_real, destory}
use language_test.Avl.Rotate.{to_list}

-- The key of the node that a pointer points to.
abbrev pub key? : Tree → Option ℕ
key? null = none
key? (node k h l r) = some k

-- On an ordered tree `loop_find` returns a node if the key is in the tree, and null
-- otherwise.
pub loop_find-mem :
    (key : ℕ) (t : Tree)
    → IsSorted (to_list t)
    → key? (loop_find key t) ≡ (if mem key (to_list t) then some key else none)
unfolding loop_find
loop_find-mem key null s = unfold mem in refl
loop_find-mem key (node k h l r) s =
    let p = IsSorted-Parts (to_list l) k (to_list r) s in
    elim (compare-Compared key k) [
      | less e c ↦
          rw (e, loop_find, mem-lt key k (to_list l) (to_list r) c p.above)
            (loop_find-mem key l p.left)
      | same e c ↦ rw (e, loop_find, mem-eq key k (to_list l) (to_list r) c) (ap some (sym c))
      | more e c ↦
          rw (e, loop_find, mem-gt key k (to_list l) (to_list r) c p.below)
            (loop_find-mem key r p.right)
    ]

-- `find_real` on a node returns the node where it has the key, and has no result otherwise.
pub find_real_root :
    (key : ℕ) (k h : ℕ) (l r : Tree)
    → find_real key (node k h l r) ≡ (if key == k then some (node k h l r) else none)
unfolding find_real
find_real_root key k h l r = ground arith

destory-cases : (t : Tree) → (destory t ≡ some 0) ⊎ (destory t ≡ none)
unfolding destory
destory-cases null = inl refl
destory-cases (node k h l r) = elim (destory-cases l) [
  | inr e ↦ inr (rw e refl)
  | inl e ↦ elim (destory-cases r) [ inl f ↦ inr (rw (e, f) refl) | inr f ↦ inr (rw (e, f) refl) ]
]

-- `destory` of a node, and so the destructor of a tree that is not empty, flows off its end.
pub destory_root : (k h : ℕ) (l r : Tree) → destory (node k h l r) ≡ none
unfolding destory
destory_root k h l r = elim (destory-cases l) [
  | inr e ↦ rw e refl
  | inl e ↦ elim (destory-cases r) [ inl f ↦ rw (e, f) refl | inr f ↦ rw (e, f) refl ]
]
