-- ===== src/Bst/Laws.antt =====
-- cpp/tree/bst.cpp: construction, insertion, search and the in-order traversal, against the set of
-- keys.
use native.Mathlib.Nat.{add-zero, zero-add}
use language_test.Prelude.{
  ℕ, suc, ◌+◌, ◌≡◌, refl, sym, ◌∙◌, ap, arith, true, false, not, Option, some, none, List, [], ◌∷◌,
  ◌++◌, append_assoc, append-nil, compare-Compared, less, same, more, length, length-append, ◌>>=◌,
  Option-cases, inl, inr,
}
use language_test.OrderedSet.{IsSorted, mem, ins}
use language_test.OrderedSet.Laws.{
  IsSorted-Parts, mem-lt, mem-gt, mem-eq, ins_of_mem, ins-lt, ins-gt, ins-IsSorted,
}
use language_test.Bst.Defs.{
  Tree, null, node, Bst, empty, next, count, pass, value, print_node, in_order_without_recursion,
  search_from, search, insert_at, insert_node, insert_all, new, count_leaf, leaf,
}
use language_test.Bst.Walk.{events, leave, run, run-append, and_then, walk-run}

abbrev pub to_list : Tree → List ℕ
to_list null = []
to_list (node d l r) = to_list l ++ d ∷ to_list r

abbrev pub keys : Bst → List ℕ
keys t = to_list t.root

-- The class invariant: an ordered tree with a true count.
pub record IsValid (t : Bst) : Type 0 where
  pub sorted : IsSorted (keys t)
  pub counted : t.size ≡ count t.root

pub length-to_list : (t : Tree) → length (to_list t) ≡ count t
length-to_list null = refl
length-to_list (node d l r) =
    omega (arith, length-append (to_list l) (d ∷ to_list r), length-to_list l, length-to_list r)

pub search_from-mem :
    (key : ℕ) (t : Tree) → IsSorted (to_list t) → search_from key t ≡ mem key (to_list t)
unfolding search_from
search_from-mem key null s = unfold mem in refl
search_from-mem key (node d l r) s =
    let p = IsSorted-Parts (to_list l) d (to_list r) s in
    elim (compare-Compared key d) [
      | less e c ↦
          rw (e, search_from, mem-lt key d (to_list l) (to_list r) c p.above)
            (search_from-mem key l p.left)
      | same e c ↦ rw (e, search_from, mem-eq key d (to_list l) (to_list r) c)
      | more e c ↦
          rw (e, search_from, mem-gt key d (to_list l) (to_list r) c p.below)
            (search_from-mem key r p.right)
    ]

-- `search` finds exactly the keys of the tree.
pub search-keys : (key : ℕ) (t : Bst) → IsValid t → search key t ≡ mem key (keys t)
unfolding search
search-keys key t v = search_from-mem key t.root v.sorted

-- What the insertion loop gives for a key that is there, and for one that is not.
abbrev InsertedAt : ℕ → Tree → Option Tree → Type 0
InsertedAt key t none = mem key (to_list t) ≡ true
InsertedAt key t (some t') =
    (mem key (to_list t) ≡ false) × (to_list t' ≡ ins key (to_list t)) × (count t' ≡ suc (count t))

InsertedAt-left :
    (key d : ℕ) (l r : Tree) (o : Option Tree)
    → mem key (to_list (node d l r)) ≡ mem key (to_list l)
    → ins key (to_list (node d l r)) ≡ ins key (to_list l) ++ d ∷ to_list r
    → InsertedAt key l o
    → InsertedAt key (node d l r) (o >>= λ l'. some (node d l' r))
InsertedAt-left key d l r none m i x = m ∙ x
InsertedAt-left key d l r (some l') m i x = (m ∙ x.0, rw (x.1, i), omega (arith, x.2))

InsertedAt-right :
    (key d : ℕ) (l r : Tree) (o : Option Tree)
    → mem key (to_list (node d l r)) ≡ mem key (to_list r)
    → ins key (to_list (node d l r)) ≡ to_list l ++ d ∷ ins key (to_list r)
    → InsertedAt key r o
    → InsertedAt key (node d l r) (o >>= λ r'. some (node d l r'))
InsertedAt-right key d l r none m i x = m ∙ x
InsertedAt-right key d l r (some r') m i x = (m ∙ x.0, rw (x.1, i), omega (arith, x.2))

insert_at-InsertedAt :
    (key : ℕ) (t : Tree) → IsSorted (to_list t) → InsertedAt key t (insert_at key t)
unfolding insert_at
insert_at-InsertedAt key null s = (unfold mem in refl, unfold ins in refl, refl)
insert_at-InsertedAt key (node d l r) s =
    let p = IsSorted-Parts (to_list l) d (to_list r) s in
    elim (compare-Compared key d) [
      | less e c ↦
          rw (e, insert_at)
            (InsertedAt-left key d l r (insert_at key l)
              (mem-lt key d (to_list l) (to_list r) c p.above)
              (ins-lt key d (to_list l) (to_list r) c) (insert_at-InsertedAt key l p.left))
      | same e c ↦ rw (e, insert_at) (mem-eq key d (to_list l) (to_list r) c)
      | more e c ↦
          rw (e, insert_at)
            (InsertedAt-right key d l r (insert_at key r)
              (mem-gt key d (to_list l) (to_list r) c p.below)
              (ins-gt key d (to_list l) (to_list r) c p.below) (insert_at-InsertedAt key r p.right))
    ]

-- `insertNode` keeps the invariant, adds the key to the set, and reports whether it was new.
pub insert_node-ins :
    (key : ℕ) (t : Bst)
    → IsValid t
    → let (t', new) = insert_node key t in
      IsValid t' × (keys t' ≡ ins key (keys t)) × (new ≡ not (mem key (keys t)))
unfolding insert_node
insert_node-ins key t v =
    let x = insert_at-InsertedAt key t.root v.sorted in
    elim (Option-cases (insert_at key t.root)) [
      | inl e ↦
          let m : mem key (keys t) ≡ true = rw e at x in
          rw (e, insert_node) (v, sym (ins_of_mem key (keys t) v.sorted m), rw m)
      | inr (root, e) ↦
          let y : InsertedAt key t.root (some root) = rw e at x in
          rw (e, insert_node)
            (
              record {
                sorted = rw y.1 (ins-IsSorted key (keys t) v.sorted);
                counted = omega (arith, v.counted, y.2);
              },
              y.1,
              rw y.0,
            )
    ]

-- The set that the constructor builds.
abbrev pub ins_all : List ℕ → List ℕ → List ℕ
ins_all [] s = s
ins_all (x ∷ xs) s = ins_all xs (ins x s)

insert_all-ins_all :
    (arr : List ℕ) (t : Bst)
    → IsValid t
    → IsValid (insert_all arr t) × (keys (insert_all arr t) ≡ ins_all arr (keys t))
unfolding insert_all
insert_all-ins_all [] t v = (v, refl)
insert_all-ins_all (x ∷ xs) t v =
    let (v', e, _) = insert_node-ins x t v in
    let (w, f) = insert_all-ins_all xs (insert_node x t).0 v' in (w, f ∙ ap (ins_all xs) e)

-- The constructor builds a valid tree with the keys of the array.
pub new-ins_all : (arr : List ℕ) → IsValid (new arr) × (keys (new arr) ≡ ins_all arr [])
unfolding new
new-ins_all arr = insert_all-ins_all arr empty (record { sorted = tt; counted = refl })

run-print_node :
    (t : Tree) (out : List ℕ) → run pass print_node (events t) out ≡ next (out ++ to_list t)
run-print_node null out = rw append-nil
run-print_node (node d l r) out =
    rw
      (
        run-append pass print_node (events l) (leave (node d l r) ∷ events r) out,
        run-print_node l out,
        run-print_node r (out ++ to_list l ++ d ∷ []),
      )
      (simp append_assoc)

-- The traversal prints the keys in order.
pub in_order-keys : (t : Bst) → in_order_without_recursion t ≡ some (keys t)
unfolding in_order_without_recursion
in_order-keys t =
    ap value (walk-run pass print_node t.root [])
    ∙ ap (λ z. value (some z)) (run-print_node t.root [])

-- The number of nodes with no child.
abbrev pub leaves : Tree → ℕ
leaves null = 0
leaves (node d null null) = 1
leaves (node d l r) = leaves l + leaves r

run-count_leaf : (t : Tree) (n : ℕ) → run pass count_leaf (events t) n ≡ next (n + leaves t)
run-count_leaf null n = rw add-zero
run-count_leaf (node d l r) n =
    rw (run-append pass count_leaf (events l) (leave (node d l r) ∷ events r) n, run-count_leaf l n)
      (go l r (run-count_leaf r))
  where
    go :
        (l r : Tree)
        → ((m : ℕ) → run pass count_leaf (events r) m ≡ next (m + leaves r))
        → and_then (count_leaf (node d l r) (n + leaves l)) (run pass count_leaf (events r))
          ≡ next (n + leaves (node d l r))
    go null null ih = rw add-zero
    go null (node rd rl rr) ih = ih (n + 0) ∙ ap next (omega arith)
    go (node ld ll lr) null ih = ih (n + leaves (node ld ll lr)) ∙ ap next (omega arith)
    go (node ld ll lr) (node rd rl rr) ih = ih (n + leaves (node ld ll lr)) ∙ ap next (omega arith)

-- `leaf` counts the nodes with no child.
pub leaf-leaves : (t : Bst) → leaf t ≡ some (leaves t.root)
unfolding leaf
leaf-leaves t =
    ap value (walk-run pass count_leaf t.root 0)
    ∙ ap (λ z. value (some z)) (run-count_leaf t.root 0)
    ∙ rw zero-add
