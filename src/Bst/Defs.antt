-- ===== src/Bst/Defs.antt =====
-- cpp/tree/bst.cpp: `class BTNode` and the methods of `class BinarySearchTree`. A pointer to a node
-- is the subtree at that node. Keys are only compared (see OrderedSet). `none` is undefined
-- behaviour, and in a loop on fuel it also means that the fuel ran out.
use Prim.Native.Nat.{compare}
use Prim.Native.Nat.Ordering.{lt, eq, gt}
use language_test.Prelude.{
  ℕ, zero, suc, ◌+◌, ◌-◌, ◌*◌, Bool, true, false, ◌||◌, Option, none, some, List, [], ◌∷◌, ◌++◌,
  ◌==◌, if◌then◌else◌, ◌>>=◌,
}

pub data Tree : Type 0 where
  null : Tree
  node : ℕ → Tree → Tree → Tree

-- `Root` and `size`.
pub record Bst : Type 0 where
  pub root : Tree
  pub size : ℕ

abbrev pub empty : Bst
empty = record { root = null; size = 0 }

-- What a body of a loop does: go on with new variables, or return.
pub data Step (A B : Type 0) : Type 0 where
  next : A → Step A B
  return : B → Step A B

-- The loop `while (!s.empty() || p)` of five methods, on a stack `s` and a pointer `p`. `enter` is
-- what a method does at a node that it pushes, `leave` at one that it pops, before `p = p->rchild`.
module _ {A B : Type 0} (enter leave : Tree → A → Step A B) where
  unfoldable pub walk : ℕ → List Tree → Tree → A → Option (Step A B)
  walk zero s p a = none
  walk (suc f) s (node d l r) a = elim (enter (node d l r) a) [
    | next a' ↦ walk f (node d l r ∷ s) l a'
    | return b ↦ some (return b)
  ]
  walk (suc f) (node d l r ∷ s) null a = elim (leave (node d l r) a) [
    | next a' ↦ walk f s r a'
    | return b ↦ some (return b)
  ]
  walk (suc f) (null ∷ s) null a = none
  walk (suc f) [] null a = some (next a)

-- The number of nodes.
abbrev pub count : Tree → ℕ
count null = 0
count (node d l r) = suc (count l + count r)

-- Each node is pushed once and popped once.
abbrev pub fuel : Tree → ℕ
fuel t = 2 * count t + 1

-- The methods that only pop do nothing at a push.
abbrev pub pass : {A B : Type 0} → Tree → A → Step A B
pass t a = next a

-- The result of a loop whose body returns at most from the middle.
abbrev pub value : {A : Type 0} → Option (Step A A) → Option A
value none = none
value (some (next a)) = some a
value (some (return a)) = some a

abbrev pub data? : Tree → Option ℕ
data? null = none
data? (node d l r) = some d

-- `p && p->data == data`
abbrev pub has_data : ℕ → Tree → Bool
has_data datum null = false
has_data datum (node d l r) = d == datum

-- `inOrderWithoutRecursion`: what it prints.
abbrev pub print_node : Tree → List ℕ → Step (List ℕ) (List ℕ)
print_node null out = next out
print_node (node d l r) out = next (out ++ d ∷ [])

unfoldable pub in_order_without_recursion : Bst → Option (List ℕ)
in_order_without_recursion t = value (walk pass print_node (fuel t.root) [] t.root [])

-- `leaf`
abbrev pub count_leaf : Tree → ℕ → Step ℕ ℕ
count_leaf (node d null null) num = next (num + 1)
count_leaf (node d l r) num = next num
count_leaf null num = next num

unfoldable pub leaf : Bst → Option ℕ
leaf t = value (walk pass count_leaf (fuel t.root) [] t.root 0)

-- `search`
unfoldable pub search_from : ℕ → Tree → Bool
search_from datum null = false
search_from datum (node d l r) = elim (compare datum d) [
  | eq ↦ true
  | lt ↦ search_from datum l
  | gt ↦ search_from datum r
]

unfoldable pub search : ℕ → Bst → Bool
search datum t = search_from datum t.root

-- `parent`: it returns when it pushes a node with that child.
abbrev pub is_parent : ℕ → Tree → Tree → Step Tree Tree
is_parent datum null a = next a
is_parent datum (node d l r) a =
    if has_data datum l || has_data datum r then return (node d l r) else next a

unfoldable pub parent : ℕ → Bst → Option Tree
parent datum t =
    if has_data datum t.root
    then some null
    else value (walk (is_parent datum) pass (fuel t.root) [] t.root null)

-- `predecessor`: the loop variable is `plastVisit`.
abbrev pub visit_until : ℕ → Tree → Tree → Step Tree Tree
visit_until datum null last = next last
visit_until datum (node d l r) last = if d == datum then return last else next (node d l r)

unfoldable pub predecessor : ℕ → Bst → Option Tree
predecessor datum t = value (walk pass (visit_until datum) (fuel t.root) [] t.root null)

-- `successor`
abbrev pub right_at : ℕ → Tree → Tree → Step Tree Tree
right_at datum null a = next a
right_at datum (node d l r) a = if d == datum then return r else next a

unfoldable pub successor : ℕ → Bst → Option Tree
successor datum t = value (walk pass (right_at datum) (fuel t.root) [] t.root null)

-- `while (p->lchild) p = p->lchild;`, and to the right.
unfoldable pub minimum : Tree → Tree
minimum null = null
minimum (node d null r) = node d null r
minimum (node d (node ld ll lr) r) = minimum (node ld ll lr)

unfoldable pub maximum : Tree → Tree
maximum null = null
maximum (node d l null) = node d l null
maximum (node d l (node rd rl rr)) = maximum (node rd rl rr)

-- The loop of `insertNode`: a new leaf, or `none` for a key that is there.
unfoldable pub insert_at : ℕ → Tree → Option Tree
insert_at datum null = some (node datum null null)
insert_at datum (node d l r) = elim (compare datum d) [
  | lt ↦ insert_at datum l >>= λ l'. some (node d l' r)
  | gt ↦ insert_at datum r >>= λ r'. some (node d l r')
  | eq ↦ none
]

unfoldable pub insert_node : ℕ → Bst → Bst × Bool
insert_node datum t = elim (insert_at datum t.root) [
  | some root ↦ (record { root = root; size = t.size + 1 }, true)
  | none ↦ (t, false)
]

-- The constructor inserts the elements of an array.
unfoldable pub insert_all : List ℕ → Bst → Bst
insert_all [] t = t
insert_all (x ∷ xs) t = insert_all xs (insert_node x t).0

unfoldable pub new : List ℕ → Bst
new arr = insert_all arr empty

-- `deleteNode`. From `temp = p->lchild` to the right end: the key of the node that replaces `p`, and
-- the left child that it gets, from which it is unhooked.
unfoldable pub last_of : ℕ → Tree → Tree → ℕ × Tree
last_of d l null = (d, l)
last_of d l (node rd rl rr) = let (m, rest) = last_of rd rl rr in (m, node d l rest)

-- The tree `temp` that replaces the node `p`.
unfoldable pub replacement : Tree → Tree
unfolding last_of
replacement null = null
replacement (node d null r) = r
replacement (node d (node ld ll lr) r) = let (m, rest) = last_of ld ll lr in node m rest r

-- `Parent->lchild == p` decides which child of `Parent` is replaced.
abbrev pub replace_child : ℕ → Tree → Tree
replace_child datum null = null
replace_child datum (node d l r) =
    if has_data datum l then node d (replacement l) r else node d l (replacement r)

-- A write to the fields of the node `Parent`, which its key tells from the others of the tree.
unfoldable pub write_node : ℕ → (Tree → Tree) → Tree → Tree
write_node at f null = null
write_node at f (node d l r) =
    if d == at then f (node d l r) else node d (write_node at f l) (write_node at f r)

-- For the root `Parent` is null, and the code reads `Parent->lchild`.
unfoldable pub delete_below : ℕ → Bst → Tree → Option (Bst × Bool)
delete_below datum t null = none
delete_below datum t (node d l r) =
    some (record { root = write_node d (replace_child datum) t.root; size = t.size - 1 }, true)

unfoldable pub delete_node : ℕ → Bst → Option (Bst × Bool)
unfolding search delete_below
delete_node datum t =
    if search datum t then parent datum t >>= delete_below datum t else some (t, false)

-- The destructor: the keys of the nodes that it deletes, level by level.
abbrev pub child : Tree → List Tree
child null = []
child (node d l r) = node d l r ∷ []

unfoldable pub destroy_from : ℕ → List Tree → Option (List ℕ)
destroy_from zero q = none
destroy_from (suc f) [] = some []
destroy_from (suc f) (null ∷ q) = none
destroy_from (suc f) (node d l r ∷ q) =
    destroy_from f (q ++ (child l ++ child r)) >>= λ ds. some (d ∷ ds)

unfoldable pub destroy : Bst → Option (List ℕ)
destroy t = destroy_from (count t.root + 1) (child t.root)
