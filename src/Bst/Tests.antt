-- ===== src/Bst/Tests.antt =====
-- The theorems about cpp/tree/bst.cpp at a small tree.
use language_test.Prelude.{◌≡◌, refl, not, some, [], ◌∷◌, Returns, arith}
use language_test.OrderedSet.{mem, ins, del}
use language_test.Bst.Defs.{
  Tree, null, node, Bst, new, insert_all, insert_node, insert_at, successor, delete_node,
}
use language_test.Bst.Laws.{keys, IsValid, insert_node-ins}
use language_test.Bst.Delete.{delete_node-del}
use language_test.Bst.Queries.{here, left, right, successor-right}

abbrev root : Tree
root = node 4 (node 2 (node 1 null null) (node 3 null null)) (node 6 null null)

abbrev sample : Bst
sample = record { root = root; size = 5 }

sample-IsValid : IsValid sample
sample-IsValid = omega arith

new_5 : new (4 ∷ 2 ∷ 6 ∷ 1 ∷ 3 ∷ []) ≡ sample
unfolding new insert_all insert_node insert_at
new_5 = refl

-- The successor of 3 in order is 4: the method returns the right child of 3.
successor_3 : successor 3 sample ≡ some null
successor_3 = successor-right 3 null null sample sample-IsValid (left (right here))

insert_node-ins_example :
    let (t', new) = insert_node 5 sample in
    IsValid t' × (keys t' ≡ ins 5 (keys sample)) × (new ≡ not (mem 5 (keys sample)))
insert_node-ins_example = insert_node-ins 5 sample sample-IsValid

delete_node-del_example :
    Returns
      (delete_node 2 sample)
      (λ (t', done). IsValid t' × (keys t' ≡ del 2 (keys sample)) × (done ≡ mem 2 (keys sample)))
delete_node-del_example = delete_node-del 2 sample sample-IsValid refl
