-- ===== src/RbTree/Tests.antt =====
-- The theorems about cpp/tree/rbTree.cpp at small trees.
use language_test.Prelude.{ℕ, ◌≡◌, refl, some, Returns, arith}
use language_test.OrderedSet.{del}
use language_test.OrderedBag.{put}
use language_test.RbTree.Defs.{
  Tree, null, node, red, black, in_order, search, insert, insert_fix_up, descend,
}
use language_test.RbTree.Insert.{IsValid, insert-put}
use language_test.RbTree.Removal.{remove}
use language_test.RbTree.Remove.{remove-del}

abbrev leaf : ℕ → Tree
leaf k = node black k null null

abbrev sample : Tree
sample = node black 5 (node red 3 (leaf 2) (leaf 4)) (node black 7 null (node red 9 null null))

abbrev full : Tree
full = node black 4 (leaf 2) (leaf 6)

sample-IsValid : IsValid sample
sample-IsValid = ground arith

full-IsValid : IsValid full
full-IsValid = ground arith

-- The insertions of `main` reach a tree with the keys in order.
insert_1 :
    insert 8 sample
    ≡ some (
        node black 5
          (node red 3 (leaf 2) (leaf 4))
          (node black 8 (node red 7 null null) (node red 9 null null)))
unfolding insert insert_fix_up descend
insert_1 = refl

remove_2 : remove 2 full ≡ some (node black 4 null (node red 6 null null))
unfolding remove search
remove_2 = refl

insert-put_example :
    Returns (insert 8 sample) (λ t'. IsValid t' × (in_order t' ≡ put 8 (in_order sample)))
insert-put_example = insert-put 8 sample sample-IsValid

remove-del_example :
    Returns (remove 4 full) (λ t'. IsValid t' × (in_order t' ≡ del 4 (in_order full)))
remove-del_example = remove-del 4 full full-IsValid
