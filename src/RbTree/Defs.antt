-- ===== src/RbTree/Defs.antt =====
-- cpp/tree/rbTree.cpp: `class RBTNode` and the methods of `class RBTree`. The fields `parent` are
-- modelled by a zipper: a pointer to a node is the subtree at the node with the list of its
-- ancestors, nearest first, each with its other side. `none` is undefined behaviour: a null pointer
-- that is followed. Keys are only compared (see OrderedSet).
use Prim.Native.Nat.{compare}
use Prim.Native.Nat.Ordering.{lt, eq, gt}
use language_test.Prelude.{
  ℕ, Bool, true, false, Option, none, some, List, [], ◌∷◌, ◌++◌, ltb, ◌>>=◌,
}

-- `enum RBTColor`
pub data Color : Type 0 where
  red black : Color

-- `class RBTNode`
pub data Tree : Type 0 where
  null : Tree
  node : Color → ℕ → Tree → Tree → Tree

-- An ancestor: the way down goes to its left or to its right.
pub data Crumb : Type 0 where
  in_left : Color → ℕ → Tree → Crumb
  in_right : Color → ℕ → Tree → Crumb

-- The whole tree, from the root: what the links of the ancestors hold.
unfoldable pub plug : Tree → List Crumb → Tree
plug t [] = t
plug t (in_left c k r ∷ p) = plug (node c k t r) p
plug t (in_right c k l ∷ p) = plug (node c k l t) p

-- `rb_color`, `rb_is_red` with its test for a null pointer, `rb_set_black`, `rb_set_red`.
abbrev pub color : Tree → Color
color null = black
color (node c k l r) = c

abbrev pub is_red : Color → Bool
is_red red = true
is_red black = false

abbrev pub set_black : Tree → Tree
set_black null = null
set_black (node c k l r) = node black k l r

abbrev pub set_red : Tree → Tree
set_red null = null
set_red (node c k l r) = node red k l r

-- `preOrder`, `inOrder` and `postOrder`: the keys that they print.
unfoldable pub pre_order : Tree → List ℕ
pre_order null = []
pre_order (node c k l r) = k ∷ (pre_order l ++ pre_order r)

abbrev pub in_order : Tree → List ℕ
in_order null = []
in_order (node c k l r) = in_order l ++ k ∷ in_order r

unfoldable pub post_order : Tree → List ℕ
post_order null = []
post_order (node c k l r) = post_order l ++ (post_order r ++ k ∷ [])

-- `search(x, key)` and `iterativeSearch(x, key)`; the result is the node with its ancestors.
unfoldable pub search : ℕ → Tree → List Crumb → Tree × List Crumb
search key null p = (null, p)
search key (node c k l r) p = elim (compare key k) [
  | eq ↦ (node c k l r, p)
  | lt ↦ search key l (in_left c k r ∷ p)
  | gt ↦ search key r (in_right c k l ∷ p)
]

unfoldable pub iterative_search : ℕ → Tree → Tree
iterative_search key null = null
iterative_search key (node c k l r) = elim (compare key k) [
  | eq ↦ node c k l r
  | lt ↦ iterative_search key l
  | gt ↦ iterative_search key r
]

-- `minimum(tree)` and `maximum(tree)`, with the ancestors of the result.
unfoldable pub minimum : Tree → List Crumb → Tree × List Crumb
minimum null p = (null, p)
minimum (node c k null r) p = (node c k null r, p)
minimum (node c k (node lc lk ll lr) r) p = minimum (node lc lk ll lr) (in_left c k r ∷ p)

unfoldable pub maximum : Tree → List Crumb → Tree × List Crumb
maximum null p = (null, p)
maximum (node c k l null) p = (node c k l null, p)
maximum (node c k l (node rc rk rl rr)) p = maximum (node rc rk rl rr) (in_right c k l ∷ p)

-- The loops of `successor` and `predecessor` over the parents.
unfoldable pub up_from_right : Tree → List Crumb → Tree × List Crumb
up_from_right x [] = (null, [])
up_from_right x (in_left c k r ∷ p) = (node c k x r, p)
up_from_right x (in_right c k l ∷ p) = up_from_right (node c k l x) p

unfoldable pub up_from_left : Tree → List Crumb → Tree × List Crumb
up_from_left x [] = (null, [])
up_from_left x (in_right c k l ∷ p) = (node c k l x, p)
up_from_left x (in_left c k r ∷ p) = up_from_left (node c k x r) p

-- `successor(x)` and `predecessor(x)` read `x->right` and `x->left`.
unfoldable pub successor : Tree → List Crumb → Option (Tree × List Crumb)
successor null p = none
successor (node c k l null) p = some (up_from_right (node c k l null) p)
successor (node c k l (node rc rk rl rr)) p = some (minimum (node rc rk rl rr) (in_right c k l ∷ p))

unfoldable pub predecessor : Tree → List Crumb → Option (Tree × List Crumb)
predecessor null p = none
predecessor (node c k null r) p = some (up_from_left (node c k null r) p)
predecessor (node c k (node lc lk ll lr) r) p =
    some (maximum (node lc lk ll lr) (in_left c k r ∷ p))

-- `leftRotate(root, x)` and `rightRotate(root, y)`: the subtree that takes the place of the node.
unfoldable pub left_rotate : Tree → Option Tree
left_rotate null = none
left_rotate (node c k l null) = none
left_rotate (node xc xk lx (node yc yk ly ry)) = some (node yc yk (node xc xk lx ly) ry)

unfoldable pub right_rotate : Tree → Option Tree
right_rotate null = none
right_rotate (node c k null r) = none
right_rotate (node yc yk (node xc xk lx rx) ry) = some (node xc xk lx (node yc yk rx ry))

-- Case 3 of `insertFixUp`: `parent` is black now, so the loop ends, and the root is made black.
unfoldable pub rotate_gparent_right : ℕ → Tree → Tree → List Crumb → Option Tree
unfolding right_rotate plug
rotate_gparent_right gk parent uncle p =
    right_rotate (node red gk (set_black parent) uncle) >>= λ t. some (set_black (plug t p))

unfoldable pub rotate_gparent_left : ℕ → Tree → Tree → List Crumb → Option Tree
unfolding left_rotate plug
rotate_gparent_left gk parent uncle p =
    left_rotate (node red gk uncle (set_black parent)) >>= λ t. some (set_black (plug t p))

-- `insertFixUp(root, node)`: the loop goes up by two ancestors in case 1, and ends otherwise. The
-- parent of the root is never red in a red-black tree; there `gparent` would be null.
unfoldable pub insert_fix_up : Tree → List Crumb → Option Tree
unfolding rotate_gparent_right rotate_gparent_left plug
insert_fix_up t [] = some (set_black t)
insert_fix_up t (in_left black k r ∷ p) = some (set_black (plug t (in_left black k r ∷ p)))
insert_fix_up t (in_right black k l ∷ p) = some (set_black (plug t (in_right black k l ∷ p)))
insert_fix_up t (in_left red k r ∷ []) = none
insert_fix_up t (in_right red k l ∷ []) = none
insert_fix_up t (in_left red k r ∷ in_left gc gk uncle ∷ p) =
    let parent = node red k t r in
    elim (color uncle) [
      | red ↦ insert_fix_up (node red gk (set_black parent) (set_black uncle)) p
      | black ↦ rotate_gparent_right gk parent uncle p
    ]
insert_fix_up t (in_right red k l ∷ in_left gc gk uncle ∷ p) =
    let parent = node red k l t in
    elim (color uncle) [
      | red ↦ insert_fix_up (node red gk (set_black parent) (set_black uncle)) p
      | black ↦ left_rotate parent >>= λ t'. rotate_gparent_right gk t' uncle p
    ]
insert_fix_up t (in_right red k l ∷ in_right gc gk uncle ∷ p) =
    let parent = node red k l t in
    elim (color uncle) [
      | red ↦ insert_fix_up (node red gk (set_black uncle) (set_black parent)) p
      | black ↦ rotate_gparent_left gk parent uncle p
    ]
insert_fix_up t (in_left red k r ∷ in_right gc gk uncle ∷ p) =
    let parent = node red k t r in
    elim (color uncle) [
      | red ↦ insert_fix_up (node red gk (set_black uncle) (set_black parent)) p
      | black ↦ right_rotate parent >>= λ t'. rotate_gparent_left gk t' uncle p
    ]

-- The loop of `insert(root, node)` that looks for the place: the ancestors of the new node.
unfoldable pub descend : ℕ → Tree → List Crumb → List Crumb
descend key null p = p
descend key (node c k l r) p = elim (ltb key k) [
  | true ↦ descend key l (in_left c k r ∷ p)
  | false ↦ descend key r (in_right c k l ∷ p)
]

-- `insert(key)`: the new root.
unfoldable pub insert : ℕ → Tree → Option Tree
insert key root = insert_fix_up (node red key null null) (descend key root [])

-- `destroy(tree)`: each of its two `return`s leaves the function behind one recursive call.
unfoldable pub destroy : Tree → Tree
destroy null = null
destroy (node c k null null) = null
destroy (node c k (node lc lk ll lr) r) = node c k (destroy (node lc lk ll lr)) r
destroy (node c k null (node rc rk rl rr)) = node c k null (destroy (node rc rk rl rr))
