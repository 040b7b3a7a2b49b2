-- ===== src/Avl/Tests.antt =====
-- The theorems about cpp/tree/avl2.cpp at a small tree.
use language_test.Prelude.{List, [], ◌∷◌, ◌/◌, ◌+◌, ◌^◌, ◌≤◌, ◌≡◌, refl, none, some, Returns, arith}
use language_test.OrderedSet.{ins, del}
use language_test.Avl.Defs.{
  Tree, null, node, new_node, Avl, empty, insert, erase, find, insert_real, erase_real, ll_rotate,
  find_real,
}
use language_test.Avl.Laws.{
  keys, size, IsAvl, insert-ins, erase-del, depth, Change, inserts, erases, run_changes,
  changed_keys, run_changes-depth,
}

abbrev sample_root : Tree
sample_root = node 4 3 (node 2 2 (new_node 1) null) (new_node 6)

abbrev sample : Avl
sample = record { root = sample_root }

sample-IsAvl : IsAvl sample
sample-IsAvl = omega arith

-- The right side is too low after the erasure: one rotation.
erase_6 : erase 6 sample ≡ some (record { root = node 2 2 (new_node 1) (new_node 4) })
unfolding erase erase_real ll_rotate
erase_6 = refl

insert_0 :
    insert 0 sample
    ≡ some (record { root = node 4 3 (node 1 2 (new_node 0) (new_node 2)) (new_node 6) })
unfolding insert insert_real ll_rotate
insert_0 = refl

-- `find` of a key that is in the tree, below the root, ends without a value.
find_2 : find 2 sample ≡ none
unfolding find find_real
find_2 = refl

insert-ins_example : Returns (insert 0 sample) (λ t'. IsAvl t' × (keys t' ≡ ins 0 (keys sample)))
insert-ins_example = insert-ins 0 sample sample-IsAvl

erase-del_example : Returns (erase 6 sample) (λ t'. IsAvl t' × (keys t' ≡ del 6 (keys sample)))
erase-del_example = erase-del 6 sample sample-IsAvl

-- Four keys in order, and the least taken out: with a rotation in the first three.
abbrev ascending : List Change
ascending = inserts 1 ∷ inserts 2 ∷ inserts 3 ∷ inserts 4 ∷ erases 1 ∷ []

run_changes-depth_example :
    Returns
      (run_changes ascending empty)
      (λ t. (keys t ≡ changed_keys ascending []) × (2 ^ (depth t.root / 2) ≤ size t.root + 1))
run_changes-depth_example = run_changes-depth ascending
